-- ===== src/Session/Overlap.antt =====
-- Change tracking in src/session.rs around one capture: saves that overlap, and a save alone.
use saysion.Prelude.{◌<◌, String, ◌≡◌, ◌==◌, true, false, not, List, [], ◌∷◌, arith}
use saysion.Session.Revision.{
  SessionData, SaveRevision, capture, acknowledge, drop_revision, insert_raw, remove, is_dirty,
}

-- What can happen to shared data after a capture, short of another capture.
pub data Event : Type 0 where
  acknowledged : SaveRevision → Event
  dropped : SaveRevision → Event
  inserted : String → String → Event
  removed : String → Event

pub happen : Event → SessionData → SessionData
happen (acknowledged r) d = acknowledge r d
happen (dropped r) d = drop_revision r d
happen (inserted key value) d = insert_raw key value d
happen (removed key) d = remove key d

pub happen_all : List Event → SessionData → SessionData
happen_all [] d = d
happen_all (e ∷ es) d = happen_all es (happen e d)

abbrev Doubted : SessionData → Type 0
Doubted d = (d.overlapping_saves ≡ true) × (d.uncertain_save ≡ true)

happen-Doubted : (e : Event) (d : SessionData) → Doubted d → Doubted (happen e d)
unfolding happen acknowledge drop_revision insert_raw remove
happen-Doubted (acknowledged r) d h = ground arith
happen-Doubted (dropped r) d h = ground arith
happen-Doubted (inserted key value) d h = ground arith
happen-Doubted (removed key) d h = ground arith

happen_all-Doubted : (es : List Event) (d : SessionData) → Doubted d → Doubted (happen_all es d)
unfolding happen_all
happen_all-Doubted [] d h = h
happen_all-Doubted (e ∷ es) d h = happen_all-Doubted es (happen e d) (happen-Doubted e d h)

-- A save captured while another one is live leaves the data dirty, whatever is then acknowledged,
-- dropped or edited, in any order, until the next capture.
pub overlap_stays_dirty :
    (d : SessionData) (es : List Event)
    → 0 < d.active_saves
    → is_dirty (happen_all es (capture d).1) ≡ true
unfolding is_dirty
overlap_stays_dirty d es h =
    let q = happen_all-Doubted es (capture d).1 (unfold capture in ground arith) in
    ground (arith, q.1)

-- The edits of clones, among the events.
pub data Edit : Type 0 where
  inserts_ : String → String → Edit
  removes_ : String → Edit

pub edit_all : List Edit → SessionData → SessionData
edit_all [] d = d
edit_all (inserts_ key value ∷ es) d = edit_all es (insert_raw key value d)
edit_all (removes_ key ∷ es) d = edit_all es (remove key d)

-- Edits neither read nor write the bookkeeping of saves.
abbrev SameSaves : SessionData → SessionData → Type 0
SameSaves d c = (d.values ≡ c.values) × (d.revision ≡ c.revision) × (d.overlapping_saves ≡ false)

edit_all-SameSaves :
    (es : List Edit) (d c : SessionData) → SameSaves d c → SameSaves (edit_all es d) (edit_all es c)
unfolding edit_all insert_raw remove
edit_all-SameSaves [] d c h = h
edit_all-SameSaves (inserts_ key value ∷ es) d c h =
    edit_all-SameSaves es (insert_raw key value d) (insert_raw key value c) (ground arith)
edit_all-SameSaves (removes_ key ∷ es) d c h =
    edit_all-SameSaves es (remove key d) (remove key c) (ground arith)

-- A save captured while no other is live, and acknowledged after any edits, leaves the data dirty
-- exactly if those edits moved the revision on.
pub standalone_save_acknowledges :
    (d : SessionData) (es : List Edit)
    → d.active_saves ≡ 0
    → is_dirty (acknowledge (capture d).0 (edit_all es (capture d).1))
      ≡ not ((edit_all es d).revision == d.revision)
unfolding is_dirty
standalone_save_acknowledges d es h =
    let q = edit_all-SameSaves es (capture d).1 d (unfold capture in ground arith) in
    unfold acknowledge capture in ground (arith, q)
