-- ===== src/Save/Protocol.antt =====
-- The guarded save protocol of src/session_save.rs.
use saysion.Prelude.{◌≡◌, true, false, none, arith, session_conflict, uncertain_write, ok, err}
use saysion.Lifecycle.{ready, SessionWriteGuard, matches}
use saysion.Session.Revision.{is_dirty, acknowledge}
use saysion.Session.State.{Lineage, Session}
use saysion.Session.Identity.{mark_persisted}
use saysion.Session.Persist.{begin_delete, deletion_target}
use saysion.Save.{SessionSave, begin_write, complete_with_guard, confirm_removed, complete}

-- A token begins one guarded write: a second call is refused and changes nothing. From the first
-- call on, the unguarded completion issues no cookie, leaves the persisted identity, and leaves the
-- data dirty.
pub begin_write_once :
    (v : SessionSave) (l m n : Lineage)
    → let v' = (begin_write v l).1 in
      ((begin_write v' m).0 ≡ ready (err session_conflict))
      × ((begin_write v' m).2 ≡ m)
      × ((complete v' n).0 ≡ none)
      × ((complete v' n).1.persisted_id ≡ n.persisted_id)
      × (is_dirty (complete v' n).1.data_ ≡ true)
begin_write_once v l m n = later (begin_write v l).1 started
  where
    started : (begin_write v l).1.write_started ≡ true
    started = unfold begin_write in ground arith

    later :
        (v' : SessionSave)
        → v'.write_started ≡ true
        → ((begin_write v' m).0 ≡ ready (err session_conflict))
          × ((begin_write v' m).2 ≡ m)
          × ((complete v' n).0 ≡ none)
          × ((complete v' n).1.persisted_id ≡ n.persisted_id)
          × (is_dirty (complete v' n).1.data_ ≡ true)
    later v' h = unfold begin_write complete is_dirty in ground arith

-- A guard that another token took completes nothing: the call is refused, the persisted identity
-- stays, the data is left dirty, and the guard's lock is released.
pub foreign_guard_completes_nothing :
    (v : SessionSave) (g : SessionWriteGuard) (l : Lineage)
    → matches v.write_receipt g ≡ false
    → ((complete_with_guard v g l).0 ≡ err session_conflict)
      × ((complete_with_guard v g l).1.persisted_id ≡ l.persisted_id)
      × (is_dirty (complete_with_guard v g l).1.data_ ≡ true)
      × ((complete_with_guard v g l).1.lifecycle.locked ≡ false)
unfolding complete_with_guard is_dirty
foreign_guard_completes_nothing v g l h = ground arith

-- A token's own guard, on a family that was not destroyed, completes the save: the cookie of the
-- session is issued, its identity is persisted unless it was overtaken, the data is acknowledged
-- unless saves overlapped, and the lock is released without a doubt about the write.
pub complete_with_guard_confirms :
    (v : SessionSave) (g : SessionWriteGuard) (l : Lineage)
    → matches v.write_receipt g ≡ true
    → l.destroy ≡ false
    → ((complete_with_guard v g l).0 ≡ ok v.source.cookie_value)
      × ((complete_with_guard v g l).1.persisted_id ≡ (mark_persisted l v.source).persisted_id)
      × ((complete_with_guard v g l).1.data_ ≡ acknowledge v.revision l.data_)
      × ((complete_with_guard v g l).1.lifecycle.locked ≡ false)
      × ((complete_with_guard v g l).1.lifecycle.uncertain ≡ l.lifecycle.uncertain)
unfolding complete_with_guard
complete_with_guard_confirms v g l h d = ground arith

-- If the family was destroyed during a write that may have created a record, completing it is
-- refused, persists and acknowledges nothing, and leaves the outcome uncertain: each deletion that
-- follows is refused instead of claiming success.
pub destroyed_completion_is_uncertain :
    (v : SessionSave) (g : SessionWriteGuard) (l : Lineage) (h : Session)
    → matches v.write_receipt g ≡ true
    → g.uncertain_on_drop ≡ true
    → l.destroy ≡ true
    → let l' = (complete_with_guard v g l).1 in
      ((complete_with_guard v g l).0 ≡ err session_conflict)
      × (l'.persisted_id ≡ l.persisted_id)
      × (is_dirty l'.data_ ≡ true)
      × ((begin_delete l' h).0 ≡ ready (err uncertain_write))
destroyed_completion_is_uncertain v g l h m u d =
    let (a, b, c, k, w) = fields in (a, b, c, refused (complete_with_guard v g l).1 k w)
  where
    fields :
        ((complete_with_guard v g l).0 ≡ err session_conflict)
        × ((complete_with_guard v g l).1.persisted_id ≡ l.persisted_id)
        × (is_dirty (complete_with_guard v g l).1.data_ ≡ true)
        × ((complete_with_guard v g l).1.lifecycle.locked ≡ false)
        × ((complete_with_guard v g l).1.lifecycle.uncertain ≡ true)
    fields = unfold complete_with_guard is_dirty in ground arith

    refused :
        (m : Lineage)
        → m.lifecycle.locked ≡ false
        → m.lifecycle.uncertain ≡ true
        → (begin_delete m h).0 ≡ ready (err uncertain_write)
    refused m a b = unfold begin_delete in ground arith

-- Confirming instead that the written record was removed releases the lock with no doubt added, so
-- that a waiting deletion goes on; and it neither persists an identity nor acknowledges data.
pub confirm_removed_releases :
    (v : SessionSave) (g : SessionWriteGuard) (l : Lineage) (h : Session)
    → matches v.write_receipt g ≡ true
    → l.lifecycle.uncertain ≡ false
    → let l' = (confirm_removed v g l).1 in
      (l'.persisted_id ≡ l.persisted_id)
      × (is_dirty l'.data_ ≡ true)
      × ((begin_delete l' h).0 ≡ ready (ok (record { id = deletion_target l' h })))
confirm_removed_releases v g l h m u =
    let (b, c, k, w) = fields in (b, c, granted (confirm_removed v g l).1 k w)
  where
    fields :
        ((confirm_removed v g l).1.persisted_id ≡ l.persisted_id)
        × (is_dirty (confirm_removed v g l).1.data_ ≡ true)
        × ((confirm_removed v g l).1.lifecycle.locked ≡ false)
        × ((confirm_removed v g l).1.lifecycle.uncertain ≡ false)
    fields = unfold confirm_removed is_dirty in ground arith

    granted :
        (m : Lineage)
        → m.lifecycle.locked ≡ false
        → m.lifecycle.uncertain ≡ false
        → (begin_delete m h).0 ≡ ready (ok (record { id = deletion_target m h }))
    granted m a b = unfold begin_delete deletion_target in ground arith
