-- ===== src/Lifecycle/Deletion.antt =====
-- The guard protocol of src/session_lifecycle.rs between the writes of a family that may create
-- records, the deletions of its records, and a backend that may carry out a write late.
use saysion.Prelude.{
  ℕ, String, ◌≡◌, str_eq, opt_eq, ◌≢◌, refl, Bool, true, false, not, ◌&&◌, ◌||◌, Option, none, some,
  arith, Error, ok, err, is_some,
}
use saysion.Lifecycle.{
  pending, ready, WriteState, SessionWriteGuard, SessionDeleteGuard, write, delete, finish,
  require_cleanup, confirm_removed, drop_write, drop_delete, unlocked,
}

pub data Deleter : Type 0 where
  idle : Deleter
  holding removed : SessionDeleteGuard → Deleter

-- One family: its lock and flag, the live write guard, the deletion under way, of which identities
-- the backend has a record, whether it may still carry out a write of which nobody waits for the
-- outcome, and for which identities a deletion reported success.
pub record Family : Type 0 where
  pub lock : WriteState
  pub destroyed : Bool
  pub writer : Option SessionWriteGuard
  pub deleter : Deleter
  pub present : String → Bool
  pub abandoned : Bool
  pub deleted : String → Bool

-- The records after a write of `id` that replaces `origin`, and after a removal of `id`.
abbrev pub stored : String → Option String → (String → Bool) → String → Bool
stored id origin present j = str_eq id j || (not (opt_eq origin (some j)) && present j)

abbrev pub without : String → (String → Bool) → String → Bool
without id present j = not (str_eq id j) && present j

-- One step of any handle, or of the backend. A write that may create a record takes its guard with
-- `uncertain_on_drop`; it reaches the backend while its guard is alive and not settled, or at any
-- later time if its guard was dropped before it was settled. A deletion removes the record of its
-- guard alone, which may be any identity of the family: the persisted one, or the own one of a clone
-- that was superseded. A record may vanish at any time, as when it expires.
pub data Step (f : Family) : Family → Type 0 where
  marks : Step f (record f { destroyed = true })
  takes_write :
      (receipt : Option ℕ) (g : SessionWriteGuard) (w : WriteState)
      → write f.destroyed receipt true f.lock ≡ (ready (ok g), w)
      → Step f (record f { lock = w; writer = some g })
  lands :
      (g : SessionWriteGuard) (id : String) (origin : Option String)
      → f.writer ≡ some g
      → g.settled ≡ false
      → Step f (record f { present = stored id origin f.present })
  lands_late :
      (id : String) (origin : Option String)
      → f.abandoned ≡ true
      → Step f (record f { present = stored id origin f.present })
  confirms :
      (g g' : SessionWriteGuard)
      → f.writer ≡ some g
      → finish f.destroyed g ≡ (ok tt, g')
      → Step f (record f { writer = some g' })
  refuses :
      (g g' : SessionWriteGuard) (e : Error)
      → f.writer ≡ some g
      → finish f.destroyed g ≡ (err e, g')
      → Step f (record f { writer = some (require_cleanup g') })
  compensates :
      (g : SessionWriteGuard) (id : String)
      → f.writer ≡ some g
      → Step f (record f { present = without id f.present; writer = some (confirm_removed g) })
  drops_write :
      (g : SessionWriteGuard)
      → f.writer ≡ some g
      → Step f (record f {
        lock = drop_write g f.lock;
        writer = none;
        abandoned = f.abandoned || not g.settled;
      })
  takes_delete :
      (d : SessionDeleteGuard) (id : String) (w : WriteState)
      → delete f.lock ≡ (ready (ok d), w)
      → Step f (record f { destroyed = true; lock = w; deleter = holding (record d { id = id }) })
  removes :
      (d : SessionDeleteGuard)
      → f.deleter ≡ holding d
      → Step f (record f { present = without d.id f.present; deleter = removed d })
  reports :
      (d : SessionDeleteGuard)
      → f.deleter ≡ removed d
      → Step f (record f {
        lock = drop_delete f.lock;
        deleter = idle;
        deleted = λ j. str_eq d.id j || f.deleted j;
      })
  cancels_delete :
      f.deleter ≢ idle → Step f (record f { lock = drop_delete f.lock; deleter = idle })
  vanishes : (id : String) → Step f (record f { present = without id f.present })

pub data Reach (f : Family) : Family → Type 0 where
  here : Reach f f
  next : {g h : Family} → Reach f g → Step g h → Reach f h

-- A family that nobody writes or deletes, with any records.
unfoldable pub start : (String → Bool) → Family
unfolding unlocked
start present = record {
  lock = unlocked;
  destroyed = false;
  writer = none;
  deleter = idle;
  present = present;
  abandoned = false;
  deleted = λ j. false;
}

abbrev pub is_idle : Deleter → Bool
is_idle idle = true
is_idle _ = false

abbrev is_removed : String → Deleter → Bool
is_removed k (removed d) = str_eq d.id k
is_removed k idle = false
is_removed k (holding d) = false

abbrev marks_doubt : Option SessionWriteGuard → Bool
marks_doubt none = true
marks_doubt (some g) = g.uncertain_on_drop

-- What holds of the family and of the record of `k`.
record Inv (k : String) (f : Family) : Type 0 where
  writing : is_some f.writer ≡ true → (f.lock.locked ≡ true) × (is_idle f.deleter ≡ true)
  deleting :
      is_idle f.deleter ≡ false
      → (f.lock.locked ≡ true) × (f.lock.uncertain ≡ false) × (f.destroyed ≡ true)
  marking : marks_doubt f.writer ≡ true
  doubted : f.abandoned ≡ true → f.lock.uncertain ≡ true
  gone : is_removed k f.deleter ≡ true → f.present k ≡ false
  settled :
      f.deleted k ≡ true
      → (f.present k ≡ false)
        × (f.lock.uncertain ≡ false)
        × (f.destroyed ≡ true)
        × (is_some f.writer ≡ false)

start-Inv : (k : String) (present : String → Bool) → Inv k (start present)
unfolding start
start-Inv k present = record {
  writing = λ h. cc;
  deleting = λ h. cc;
  marking = refl;
  doubted = λ h. cc;
  gone = λ h. cc;
  settled = λ h. cc;
}

Step-Inv : {f g : Family} (k : String) → Step f g → Inv k f → Inv k g
unfolding write delete finish require_cleanup confirm_removed drop_write drop_delete
Step-Inv k marks v = ground arith
Step-Inv k (takes_write receipt g w e) v = ground arith
Step-Inv k (lands g id origin e s) v = ground arith
Step-Inv k (lands_late id origin e) v = ground arith
Step-Inv k (confirms g g' e x) v = ground arith
Step-Inv k (refuses g g' x e y) v = ground arith
Step-Inv k (compensates g id e) v = ground arith
Step-Inv k (drops_write g e) v = ground arith
Step-Inv k (takes_delete d id w e) v = ground arith
Step-Inv k (removes d e) v = ground arith
Step-Inv k (reports d e) v = ground arith
Step-Inv k (cancels_delete e) v = ground arith
Step-Inv k (vanishes id) v = ground arith

Reach-Inv : {f g : Family} (k : String) → Inv k f → Reach f g → Inv k g
Reach-Inv k v here = v
Reach-Inv k v (next r st) = Step-Inv k st (Reach-Inv k v r)

-- Once a deletion that holds a guard for an identity has reported success, the backend has no record
-- of that identity, whatever writes, rotations, late writes, cancellations and further deletions of
-- the family come before and after; provided that the creating writes and the deletions hold the
-- guards that they take, and that the backend carries out no write after its guard was settled.
-- Other records of the family may stay, as when a superseded clone deletes its own old identity.
pub deletion_is_final :
    (present : String → Bool) (f : Family) (k : String)
    → Reach (start present) f
    → f.deleted k ≡ true
    → f.present k ≡ false
deletion_is_final present f k r h = ((Reach-Inv k (start-Inv k present) r).settled h).0

-- A write guard and a deletion guard are never alive together, and while either is alive the lock
-- is held, so that no other guard is given out.
pub guards_exclude :
    (present : String → Bool) (f : Family) (receipt : Option ℕ)
    → Reach (start present) f
    → (is_some f.writer || not (is_idle f.deleter)) ≡ true
    → (not (is_some f.writer && not (is_idle f.deleter)) ≡ true)
      × (write f.destroyed receipt true f.lock ≡ (pending, f.lock))
      × (delete f.lock ≡ (pending, f.lock))
unfolding write delete
guards_exclude present f receipt r h =
    let v = Reach-Inv "" (start-Inv "" present) r in ground (arith, v.writing, v.deleting)
