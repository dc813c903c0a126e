-- ===== src/Memory/Progress.antt =====
-- Saves to the memory store that nothing disturbs succeed.
use saysion.Prelude.{
  String, ◌≡◌, refl, ap, ◌∙◌, true, false, not, ◌||◌, opt_eq, Option, none, some, [], arith, ok,
  str_eq, ◌>>=◌, is_some, Bool-cases, inl, inr,
}
use saysion.Maps
use saysion.Lifecycle.{ready, SessionWriteGuard}
use saysion.Session.Revision.{SaveRevision}
use saysion.Session.State.{Lineage, Session, Owned}
use saysion.Session.Identity.{persistence_attempt, persistence_origin}
use saysion.Session.Persist.{snapshot, capture_revision, persistence_snapshot, mark_loaded}
use saysion.Session.Progress.{
  IsIdle, granted, guard_of, held, after_claim, captured, origin_kept, captured_lem, after_save,
  begun,
}
use saysion.Memory.State.{MemoryState, remove, insert}
use saysion.Memory.Store.{
  Schedule, current_origin, has_source, retire, commit_records, store_session, finish_records,
  confirm_write, write_records, locked_records, attempted_records,
}

abbrev pub quiet : Schedule
quiet = record { before_lock = []; before_state = []; before_finish = []; after_finish = [] }

-- The store has the record of the origin, and none that the save would overwrite.
pub record HasRoom (s : Session) (origin : Option String) (st : MemoryState) : Type 0 where
  pub source : has_source origin st ≡ true
  pub no_collision : (opt_eq origin (some s.id) || not (Maps.contains_key s.id st.records)) ≡ true

remove-has :
    (id : String) (st : MemoryState)
    → Maps.contains_key id st.records ≡ true
    → is_some (remove id st).0 ≡ true
unfolding remove Maps.contains_key
remove-has id st h = ground arith

retired :
    (s : Session) (origin : Option String) (st : MemoryState)
    → has_source origin st ≡ true
    → (st' : MemoryState) × (retire s origin st ≡ ok st')
unfolding retire has_source
retired s none st h = (st, refl)
retired s (some o) st h = elim (Bool-cases (str_eq o s.id)) [
  | inl own ↦ (st, ground (arith, own))
  | inr other ↦ ((remove o st).1, ground (arith, other, remove-has o st h))
]

committed :
    (l : Lineage) (s : Session) (origin : Option String) (snap : Owned) (st : MemoryState)
    → l.destroy ≡ false
    → current_origin l s origin ≡ ok origin
    → HasRoom s origin st
    → (st' : MemoryState) × (commit_records l s origin snap st ≡ ok st')
unfolding commit_records
committed l s origin snap st alive reread room =
    let (st', done) = retired s origin st room.source in
    (
      (insert s.id (mark_loaded snap) st').1,
      rw (reread, ◌>>=◌, alive, room.source, room.no_collision, done) refl,
    )

reread :
    (l m : Lineage) (s : Session) (origin : Option String)
    → m.persisted_id ≡ l.persisted_id
    → persistence_origin l s ≡ ok origin
    → current_origin m s origin ≡ ok origin
unfolding current_origin
reread l m s none e h = refl
reread l m s (some o) e h = origin_kept l m s (some o) e h (λ k. cc)

-- What a save needs to succeed, if nothing disturbs it.
pub record IsSavable (s : Session) (l : Lineage) (st : MemoryState) (origin : Option String)
    : Type 0 where
  pub idle : IsIdle l
  pub granted_ : (persistence_attempt l s).0 ≡ ok origin
  pub room : HasRoom s origin st
  pub counted : l.data_.active_saves ≡ 0

written :
    (m : Lineage) (s : Session) (origin : Option String) (snap : Owned) (r : SaveRevision)
    (g : SessionWriteGuard) (st st' : MemoryState)
    → m.destroy ≡ false
    → commit_records m s origin snap st ≡ ok st'
    → write_records quiet s origin snap r g m st ≡ record {
      answer = ready (ok s.cookie_value);
      lineage = confirm_write [] s r (record g { settled = true }) m;
      state = st';
    }
unfolding write_records finish_records
written m s origin snap r g st st' alive done = rw (done, write_records) (ground (arith, alive))

-- Such a save issues the cookie, and leaves its family ready for the next one.
pub quiet_save :
    (s : Session) (l : Lineage) (st : MemoryState) (origin : Option String)
    → IsSavable s l st origin
    → ((store_session quiet s l st).answer ≡ ready (ok s.cookie_value))
      × ((store_session quiet s l st).lineage ≡ after_save false s origin l)
unfolding store_session confirm_write attempted_records locked_records persistence_snapshot
quiet_save s l st origin v =
    let (known, claim) = granted l s origin v.idle.alive v.granted_ in
    let (same, cycle, alive) = captured_lem origin l in
    let (st', done) =
      committed (held (captured origin l)) s origin (snapshot (after_claim origin l) s) st
        (alive ∙ v.idle.alive) (reread l (held (captured origin l)) s origin same known) v.room in
    let w =
      written (held (captured origin l)) s origin (snapshot (after_claim origin l) s)
        (capture_revision (after_claim origin l)).0 (guard_of false s origin) st st'
        (alive ∙ v.idle.alive) done in
    rw (v.granted_, claim, begun s origin l v.idle known false)
      (ap (λ o. o.answer) w, ap (λ o. o.lineage) w)
