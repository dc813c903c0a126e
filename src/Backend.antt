-- ===== src/Backend.antt =====
-- What the stores of src/sqlx_store.rs, src/redis_store.rs and src/mongodb_store.rs do around their
-- own writes: the lock of the clone family, the write, and the settlement of its guard. The state of
-- the backend is a type `D`; a save and a deletion say what they answer and what they leave.
pub mod Rows
pub mod Saves
pub mod Failures
pub mod Loads
pub mod Deletes
pub mod Progress
use saysion.Prelude.{
  ℕ, String, Bool, true, false, Option, none, some, List, Error, session_conflict, Result, ok, err,
  ◌>>=◌, if◌then◌else◌,
}
use saysion.Lifecycle.{
  Poll, pending, ready, SessionWriteGuard, finish, require_cleanup, confirm_removed,
}
use saysion.Session.Revision.{SaveRevision}
use saysion.Session.State.{Lineage, Session, Owned, is_destroyed, into_cookie_value}
use saysion.Session.Cookies.{External, id_from_cookie_value}
use saysion.Session.Persist.{
  persistence_snapshot, begin_backend_write, begin_delete, release_delete, abandon_revision,
  validate_loaded,
}
use saysion.Session.Actions.{Action, act_all}
use saysion.Memory.Store.{abort_write, confirm_write}

-- What other handles do to the shared fields while a save awaits its lock, while it awaits the
-- backend, and before it acknowledges.
pub record Schedule : Type 0 where
  pub before_lock : List Action
  pub before_finish : List Action
  pub after_finish : List Action

pub record Outcome (D : Type 0) : Type 0 where
  pub answer : Poll (Result (Option String))
  pub lineage : Lineage
  pub rows : D

module _ {D : Type 0} (delete : String → D → Result (Unit {0}) × D) (sched : Schedule)
    (s : Session) where
  -- The removal of a record that was written after another handle asked for destruction.
  unfoldable pub undo_record : Error → SaveRevision → SessionWriteGuard → Lineage → D → Outcome D
  unfolding require_cleanup confirm_removed abort_write
  undo_record e r g l d =
      let (removed, d') = delete s.id d in
      elim removed [
        | err x ↦ record {
          answer = ready (err x);
          lineage = abort_write r (require_cleanup g) l;
          rows = d';
        }
        | ok _ ↦ record {
          answer = ready (err e);
          lineage = abort_write r (confirm_removed (require_cleanup g)) l;
          rows = d';
        }
      ]

  -- The part of `store_session` from the settlement on.
  unfoldable pub finish_record : SaveRevision → SessionWriteGuard → Lineage → D → Outcome D
  unfolding finish undo_record confirm_write into_cookie_value
  finish_record r g l d =
      let (settled, g') = finish l.destroy g in
      elim settled [
        | err e ↦ undo_record e r g' l d
        | ok _ ↦ record {
          answer = ready (ok (into_cookie_value s));
          lineage = confirm_write sched.after_finish s r g' l;
          rows = d;
        }
      ]

  -- The part of `store_session` that holds the write guard. An early return drops the token and the
  -- guard.
  unfoldable pub write_record :
      (D → Result (Unit {0}) × D) → SaveRevision → SessionWriteGuard → Lineage → D → Outcome D
  unfolding abort_write finish_record act_all
  write_record save r g l d =
      let l' = act_all sched.before_finish l in
      let (saved, d') = save d in
      elim saved [
        | err e ↦ record { answer = ready (err e); lineage = abort_write r g l'; rows = d' }
        | ok _ ↦ finish_record r g l' d'
      ]

  -- What a future of `store_session` that is dropped while it awaits its write leaves behind, where
  -- `carried` is what the backend carries out of the write: nothing, all of it, or its first part
  -- alone, as when a rotation on MongoDB is dropped between the deletion of the source and the
  -- insertion.
  unfoldable pub cancelled_write :
      (D → D) → SaveRevision → SessionWriteGuard → Lineage → D → Lineage × D
  unfolding abort_write act_all
  cancelled_write carried r g l d = (abort_write r g (act_all sched.before_finish l), carried d)

  -- The same, while it awaits the removal of its own record.
  unfoldable pub cancelled_undo :
      Bool → SaveRevision → SessionWriteGuard → Lineage → D → Lineage × D
  unfolding finish require_cleanup abort_write
  cancelled_undo carried_out r g l d = (
    abort_write r (require_cleanup (finish l.destroy g).1) l,
    if carried_out then (delete s.id d).1 else d,
  )

-- The part of `store_session` from the answer of the write lock on.
unfoldable pub locked_record :
    {D : Type 0}
    → (SaveRevision → SessionWriteGuard → Lineage → D → Outcome D)
    → SaveRevision
    → Poll (Result SessionWriteGuard)
    → Lineage
    → D
    → Outcome D
unfolding abandon_revision
locked_record write r pending l d = record { answer = pending; lineage = l; rows = d }
locked_record write r (ready (err e)) l d = record {
  answer = ready (err e);
  lineage = abandon_revision r l;
  rows = d;
}
locked_record write r (ready (ok g)) l d = write r g l d

module _ {D : Type 0} (sched : Schedule) (s : Session) where
  -- The part of `store_session` from the serialized snapshot on.
  unfoldable pub serialized_record :
      Option String
      → (String → SaveRevision → SessionWriteGuard → Lineage → D → Outcome D)
      → SaveRevision
      → Result String
      → Lineage
      → D
      → Outcome D
  unfolding abandon_revision begin_backend_write locked_record act_all
  serialized_record origin write r (err e) l d = record {
    answer = ready (err e);
    lineage = abandon_revision r l;
    rows = d;
  }
  serialized_record origin write r (ok json) l d =
      let (lock, l') = begin_backend_write (act_all sched.before_lock l) s origin true in
      locked_record (write json) r lock l' d

-- The part of `store_session` from the answer of `persistence_attempt` on, where a store refuses a
-- destroyed session at once. `to_string` is `serde_json::to_string`.
unfoldable pub attempted_record :
    {D : Type 0}
    → (Owned → Result String)
    → Schedule
    → Session
    → (Option String → String → SaveRevision → SessionWriteGuard → Lineage → D → Outcome D)
    → Result (Option String)
    → Lineage
    → D
    → Outcome D
unfolding is_destroyed persistence_snapshot serialized_record
attempted_record to_string sched s write (err e) l d = record {
  answer = ready (err e);
  lineage = l;
  rows = d;
}
attempted_record to_string sched s write (ok origin) l d =
    if is_destroyed l
    then record { answer = ready (err session_conflict); lineage = l; rows = d }
    else let (snap, r, l') = persistence_snapshot l s in
      serialized_record sched s origin (write origin) r (to_string snap) l' d

-- `destroy_session`. A deletion that fails drops its guard too.
unfoldable pub destroy_record :
    {D : Type 0}
    → (String → D → Result (Unit {0}) × D)
    → Session
    → Lineage
    → D
    → Poll (Result (Unit {0})) × Lineage × D
unfolding begin_delete release_delete
destroy_record delete s l d =
    let (answer, l') = begin_delete l s in
    elim answer [
      | pending ↦ (pending, l', d)
      | ready (err e) ↦ (ready (err e), l', d)
      | ready (ok g) ↦ let (removed, d') = delete g.id d in (ready removed, release_delete l', d')
    ]

-- `load_session`, with the backend's answer to the lookup of an identity. `from_str` is
-- `serde_json::from_str`, of a record that no handle shares.
unfoldable pub load_record :
    External
    → (String → Result Owned)
    → ℕ
    → (String → Result (Option String))
    → String
    → Result (Option Owned)
unfolding id_from_cookie_value validate_loaded
load_record x from_str now fetch cookie_value = do
  id ← id_from_cookie_value x cookie_value
  row ← fetch id
  elim row [
    | none ↦ ok none
    | some json ↦ do o ← from_str json; validate_loaded x now false cookie_value o
  ]
