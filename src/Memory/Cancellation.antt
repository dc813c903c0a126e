-- ===== src/Memory/Cancellation.antt =====
-- src/memory_store.rs: what a future of `store_session` or `destroy_session` leaves behind that is
-- dropped while it awaits a lock. The records are not touched before both locks are held.
use saysion.Prelude.{
  String, ◌≡◌, refl, ap, ◌∙◌, true, false, Option, List, [], ◌∷◌, arith, Result, ok, err,
  session_conflict,
}
use saysion.Lifecycle.{Poll, pending, ready, SessionWriteGuard}
use saysion.Session.Revision.{SaveRevision, is_dirty}
use saysion.Session.State.{Lineage, Session}
use saysion.Session.Identity.{persistence_attempt, mark_persisted}
use saysion.Session.Persist.{
  persistence_snapshot, begin_backend_write, check_write, begin_delete, deletion_target,
  release_delete, abandon_revision,
}
use saysion.Session.Actions.{
  Action, inserts, removes, destroys, resets, captures, acknowledges, drops, attempts, persists,
  act, act_all,
}
use saysion.Backend.Failures.{granted_delete}
use saysion.Memory.State.{MemoryState}
use saysion.Memory.Store.{Schedule, abort_write, destroy_session}

-- `begin_backend_write(..).await`, and `self.inner.write().await`
pub data Await : Type 0 where
  family_lock store_lock : Await

-- A future that awaits the store's lock holds the token and the guard, which are dropped with it.
-- One whose write lock is not given does not get there.
unfoldable pub cancelled_locked :
    List Action → SaveRevision → Poll (Result SessionWriteGuard) → Lineage → Lineage
unfolding abandon_revision abort_write act_all
cancelled_locked others r pending l = abandon_revision r l
cancelled_locked others r (ready (err e)) l = abandon_revision r l
cancelled_locked others r (ready (ok g)) l = abort_write r g (act_all others l)

-- From the answer of `persistence_attempt` on.
unfoldable pub cancelled_save : Await → Schedule → Session → Option String → Lineage → Lineage
unfolding persistence_snapshot begin_backend_write abandon_revision cancelled_locked act_all
cancelled_save family_lock sched s attempt l =
    let (snap, r, l₁) = persistence_snapshot l s in
    abandon_revision r (act_all sched.before_lock l₁)
cancelled_save store_lock sched s attempt l =
    let (snap, r, l₁) = persistence_snapshot l s in
    let (lock, l₂) = begin_backend_write (act_all sched.before_lock l₁) s attempt false in
    cancelled_locked sched.before_state r lock l₂

-- The destruction is requested before either lock is awaited.
unfoldable pub cancelled_destroy : Session → Lineage → Lineage
unfolding begin_delete release_delete
cancelled_destroy s l =
    let (answer, l') = begin_delete l s in
    elim answer [ pending ↦ l' | ready (err e) ↦ l' | ready (ok g) ↦ release_delete l' ]

act-lifecycle : (a : Action) (l : Lineage) → (act a l).lifecycle ≡ l.lifecycle
unfolding act
act-lifecycle (inserts key value) l = refl
act-lifecycle (removes key) l = refl
act-lifecycle destroys l = refl
act-lifecycle resets l = refl
act-lifecycle captures l = refl
act-lifecycle (acknowledges r) l = refl
act-lifecycle (drops r) l = refl
act-lifecycle (attempts s) l = unfold persistence_attempt in ground arith
act-lifecycle (persists s) l = unfold mark_persisted in ground arith

act_all-lifecycle : (as_ : List Action) (l : Lineage) → (act_all as_ l).lifecycle ≡ l.lifecycle
unfolding act_all
act_all-lifecycle [] l = refl
act_all-lifecycle (a ∷ as_) l = act_all-lifecycle as_ (act a l) ∙ act-lifecycle a l

-- What an answer of the write lock has done to a family.
abbrev Taken : Poll (Result SessionWriteGuard) → Lineage → Lineage → Type 0
Taken pending l l' = l'.lifecycle ≡ l.lifecycle
Taken (ready (err e)) l l' = l'.lifecycle ≡ l.lifecycle
Taken (ready (ok g)) l l' =
    (g.uncertain_on_drop ≡ false)
    × (l.lifecycle.locked ≡ false)
    × (l'.lifecycle ≡ record l.lifecycle { locked = true })

begin_backend_write-Taken :
    (l : Lineage) (s : Session) (attempt : Option String) (lock : Poll (Result SessionWriteGuard))
    → (begin_backend_write l s attempt false).0 ≡ lock
    → Taken lock l (begin_backend_write l s attempt false).1
unfolding begin_backend_write check_write
begin_backend_write-Taken l s attempt pending h = ground (arith, h)
begin_backend_write-Taken l s attempt (ready (err e)) h = ground (arith, h)
begin_backend_write-Taken l s attempt (ready (ok g)) h =
    (ground (arith, h), ground (arith, h), ground (arith, h))

cancelled_locked_lem :
    (others : List Action) (r : SaveRevision) (lock : Poll (Result SessionWriteGuard))
    (l l' : Lineage)
    → Taken lock l l'
    → ((cancelled_locked others r lock l').lifecycle ≡ l.lifecycle)
      × (is_dirty (cancelled_locked others r lock l').data_ ≡ true)
unfolding cancelled_locked is_dirty
cancelled_locked_lem others r pending l l' e = (e, refl)
cancelled_locked_lem others r (ready (err x)) l l' e = (e, refl)
cancelled_locked_lem others r (ready (ok g)) l l' (certain, free, e) =
    unfold abort_write in (ground (arith, certain, free, e, act_all-lifecycle others l'), refl)

-- A cancelled save leaves the lock and its doubts as they were, and the data dirty.
pub cancelled_save_lem :
    (await : Await) (sched : Schedule) (s : Session) (attempt : Option String) (l : Lineage)
    → let m = cancelled_save await sched s attempt l in
      (m.lifecycle ≡ l.lifecycle) × (is_dirty m.data_ ≡ true)
unfolding cancelled_save
cancelled_save_lem family_lock sched s attempt l =
    unfold is_dirty in (act_all-lifecycle sched.before_lock (persistence_snapshot l s).2, refl)
cancelled_save_lem store_lock sched s attempt l =
    let waiting = act_all sched.before_lock (persistence_snapshot l s).2 in
    let lock = begin_backend_write waiting s attempt false in
    let (a, b) =
      cancelled_locked_lem sched.before_state (persistence_snapshot l s).1 lock.0 waiting lock.1
        (begin_backend_write-Taken waiting s attempt lock.0 refl) in
    (a ∙ act_all-lifecycle sched.before_lock (persistence_snapshot l s).2, b)

-- A cancelled deletion leaves them too, and no handle may save.
cancelled_destroy_lem :
    (s h : Session) (l : Lineage) (st : MemoryState)
    → let m = cancelled_destroy s l in
      ((destroy_session s m st).0 ≡ (destroy_session s l st).0)
      × ((destroy_session s m st).2 ≡ (destroy_session s l st).2)
      × ((persistence_attempt m h).0 ≡ err session_conflict)
unfolding cancelled_destroy
cancelled_destroy_lem s h l st =
    unfold destroy_session begin_delete deletion_target persistence_attempt in ground arith

-- On a family with no live guard and no uncertain write: if the future of a save is dropped while it
-- awaits the lock of the family or of the store, the data is left dirty, and each deletion of the
-- family that follows is given its guard, for no record was written. If the future of a deletion is
-- dropped at either lock, a second deletion answers and removes what the first one would have, and
-- meanwhile every save of the family is refused.
pub cancelled_calls_leave_no_doubt :
    (await : Await) (sched : Schedule) (s h : Session) (attempt : Option String) (l : Lineage)
    (st : MemoryState)
    → l.lifecycle.locked ≡ false
    → l.lifecycle.uncertain ≡ false
    → let m = cancelled_save await sched s attempt l in
      let n = cancelled_destroy s l in
      (is_dirty m.data_ ≡ true)
      × ((begin_delete m h).0 ≡ ready (ok (record { id = deletion_target m h })))
      × ((destroy_session s n st).0 ≡ (destroy_session s l st).0)
      × ((destroy_session s n st).2 ≡ (destroy_session s l st).2)
      × ((persistence_attempt n h).0 ≡ err session_conflict)
cancelled_calls_leave_no_doubt await sched s h attempt l st free sure =
    let (same, dirty) = cancelled_save_lem await sched s attempt l in
    let m = cancelled_save await sched s attempt l in
    let given =
      granted_delete m h (ap (λ w. w.locked) same ∙ free) (ap (λ w. w.uncertain) same ∙ sure) in
    let (again, left, refused) = cancelled_destroy_lem s h l st in
    (dirty, given, again, left, refused)
