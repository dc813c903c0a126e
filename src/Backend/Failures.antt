-- ===== src/Backend/Failures.antt =====
-- Saves that a backend refuses, that a destruction overtakes or that are cancelled, in each store with
-- a backend.
use saysion.Prelude.{
  String, Bool, ◌≡◌, true, false, ◌⊎◌, inl, inr, arith, Error, session_conflict, uncertain_write,
  Result, ok, err, Result-cases,
}
use saysion.Lifecycle.{ready, SessionWriteGuard}
use saysion.Session.Revision.{SaveRevision, is_dirty}
use saysion.Session.State.{Lineage, Session}
use saysion.Session.Persist.{begin_delete, deletion_target}
use saysion.Session.Actions.{act_all}
use saysion.Memory.Store.{abort_write}
use saysion.Backend.{
  Schedule, Outcome, undo_record, finish_record, write_record, cancelled_write, cancelled_undo,
}

refused_delete :
    (l : Lineage) (h : Session)
    → l.lifecycle.locked ≡ false
    → l.lifecycle.uncertain ≡ true
    → (begin_delete l h).0 ≡ ready (err uncertain_write)
unfolding begin_delete
refused_delete l h a b = ground arith

pub granted_delete :
    (l : Lineage) (h : Session)
    → l.lifecycle.locked ≡ false
    → l.lifecycle.uncertain ≡ false
    → (begin_delete l h).0 ≡ ready (ok (record { id = deletion_target l h }))
unfolding begin_delete deletion_target
granted_delete l h a b = ground arith

module _ {D : Type 0} (delete : String → D → Result (Unit {0}) × D)
    (save : D → Result (Unit {0}) × D) (sched : Schedule) (s : Session) (r : SaveRevision)
    (g : SessionWriteGuard) (l : Lineage) (d : D) (creates : g.uncertain_on_drop ≡ true) where
  -- If a backend does not confirm a write that may create a record, the save fails with its error,
  -- the data is left dirty, and each deletion of the family that follows is refused instead of
  -- claiming success, since the write may yet be carried out.
  pub failed_write_is_uncertain :
      (open_ : g.settled ≡ false) (e : Error) (h : Session)
      → (save d).0 ≡ err e
      → let w = write_record delete sched s save r g l d in
        (w.answer ≡ ready (err e))
        × (is_dirty w.lineage.data_ ≡ true)
        × ((begin_delete w.lineage h).0 ≡ ready (err uncertain_write))
  failed_write_is_uncertain open_ e h bad =
      let (a, b, c, k) = fields in
      (a, b, refused_delete (write_record delete sched s save r g l d).lineage h c k)
    where
      fields :
          let w = write_record delete sched s save r g l d in
          (w.answer ≡ ready (err e))
          × (is_dirty w.lineage.data_ ≡ true)
          × (w.lineage.lifecycle.locked ≡ false)
          × (w.lineage.lifecycle.uncertain ≡ true)
      fields = unfold write_record abort_write is_dirty in ground (arith, bad)

  -- If the future of a save that may create a record is dropped while it awaits the backend, be it
  -- the write or the removal of a record that a destruction overtook, and whatever part of
  -- that the backend carries out, the data is left dirty, the lock is free, and each deletion of the family that
  -- follows is refused instead of claiming success.
  pub cancelled_save_is_uncertain :
      (open_ : g.settled ≡ false) (carried : D → D) (carried_out : Bool) (h : Session)
      → let a = (cancelled_write delete sched s carried r g l d).0 in
        let b = (cancelled_undo delete sched s carried_out r g l d).0 in
        (is_dirty a.data_ ≡ true)
        × (a.lifecycle.locked ≡ false)
        × ((begin_delete a h).0 ≡ ready (err uncertain_write))
        × (is_dirty b.data_ ≡ true)
        × (b.lifecycle.locked ≡ false)
        × ((begin_delete b h).0 ≡ ready (err uncertain_write))
  cancelled_save_is_uncertain open_ carried carried_out h =
      let a = (cancelled_write delete sched s carried r g l d).0 in
      let b = (cancelled_undo delete sched s carried_out r g l d).0 in
      let (x, y, z) = writing in
      let (x', y', z') = undoing in (x, y, refused_delete a h y z, x', y', refused_delete b h y' z')
    where
      writing :
          let a = (cancelled_write delete sched s carried r g l d).0 in
          (is_dirty a.data_ ≡ true) × (a.lifecycle.locked ≡ false) × (a.lifecycle.uncertain ≡ true)
      writing = unfold cancelled_write abort_write is_dirty in ground arith

      undoing :
          let b = (cancelled_undo delete sched s carried_out r g l d).0 in
          (is_dirty b.data_ ≡ true) × (b.lifecycle.locked ≡ false) × (b.lifecycle.uncertain ≡ true)
      undoing = unfold cancelled_undo abort_write is_dirty in ground arith

  -- If another handle destroys the session while its record is written, the save fails and the
  -- record is deleted again. If the backend confirms that, a waiting deletion goes on; if not, the
  -- save fails with the error of the backend, and each deletion that follows is refused.
  pub overtaken_write_is_undone :
      (h : Session)
      → (save d).0 ≡ ok tt
      → (act_all sched.before_finish l).destroy ≡ true
      → (act_all sched.before_finish l).lifecycle.uncertain ≡ false
      → let w = write_record delete sched s save r g l d in
        let removed = delete s.id (save d).1 in
        (w.rows ≡ removed.1)
        × ((removed.0 ≡ ok tt)
              × (w.answer ≡ ready (err session_conflict))
              × ((begin_delete w.lineage h).0
                  ≡ ready (ok (record { id = deletion_target w.lineage h })))
            ⊎ ((e : Error) × (removed.0 ≡ err e)
                × (w.answer ≡ ready (err e))
                × ((begin_delete w.lineage h).0 ≡ ready (err uncertain_write))))
  overtaken_write_is_undone h good dead sure = elim (Result-cases removed.0) [
    | inl (e, bad) ↦
        let (a, b, c, k) = failed e bad in (a, inr (e, bad, b, refused_delete w.lineage h c k))
    | inr (_, done) ↦
        let (a, b, c, k) = undone done in (a, inl (done, b, granted_delete w.lineage h c k))
  ]
    where
      w : Outcome D
      w = write_record delete sched s save r g l d

      removed : Result (Unit {0}) × D
      removed = delete s.id (save d).1

      failed :
          (e : Error)
          → removed.0 ≡ err e
          → (w.rows ≡ removed.1)
            × (w.answer ≡ ready (err e))
            × (w.lineage.lifecycle.locked ≡ false)
            × (w.lineage.lifecycle.uncertain ≡ true)
      failed e bad =
          unfold write_record finish_record undo_record abort_write in ground (arith, good, bad)

      undone :
          removed.0 ≡ ok tt
          → (w.rows ≡ removed.1)
            × (w.answer ≡ ready (err session_conflict))
            × (w.lineage.lifecycle.locked ≡ false)
            × (w.lineage.lifecycle.uncertain ≡ false)
      undone done =
          unfold write_record finish_record undo_record abort_write in ground (arith, good, done)
