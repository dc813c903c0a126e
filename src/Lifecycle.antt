-- ===== src/Lifecycle.antt =====
-- src/session_lifecycle.rs: the asynchronous lock that writes and deletions of one clone family
-- take, and the guards that hold it.
pub mod Deletion
use saysion.Prelude.{
  ℕ, String, Bool, true, false, not, ◌&&◌, ◌||◌, Option, none, some, Error, session_conflict,
  uncertain_write, Result, ok, err, ◌==◌, if◌then◌else◌,
}

-- What an `.await` on the lock finds when it is polled.
pub data Poll {ℓ} (A : Type ℓ) : Type ℓ where
  pending : Poll A
  ready : A → Poll A

-- `WriteState` behind its mutex. `locked` says that a guard is alive.
pub record WriteState : Type 0 where
  pub uncertain : Bool
  pub locked : Bool

unfoldable pub unlocked : WriteState
unlocked = record { uncertain = false; locked = false }

-- A receipt is known by the address of its `Arc<()>`. The `destroyed` pointer is the family's
-- flag, which the functions take at its current value.
pub record SessionWriteGuard : Type 0 where
  pub receipt : Option ℕ
  pub uncertain_on_drop : Bool
  pub settled : Bool

pub record SessionDeleteGuard : Type 0 where
  pub id : String

unfoldable pub write :
    Bool → Option ℕ → Bool → WriteState → Poll (Result SessionWriteGuard) × WriteState
write destroyed receipt uncertain_on_drop w =
    if w.locked
    then (pending, w)
    else if w.uncertain
    then (ready (err uncertain_write), w)
    else if destroyed
    then (ready (err session_conflict), w)
    else (
      ready (
          ok
            (record { receipt = receipt; uncertain_on_drop = uncertain_on_drop; settled = false })),
      record w { locked = true },
    )

unfoldable pub delete : WriteState → Poll (Result SessionDeleteGuard) × WriteState
delete w =
    if w.locked
    then (pending, w)
    else if w.uncertain
    then (ready (err uncertain_write), w)
    else (ready (ok (record { id = "" })), record w { locked = true })

-- The flag of the family, at its current value.
unfoldable pub is_destroyed : Bool → SessionWriteGuard → Bool
is_destroyed destroyed g = destroyed

unfoldable pub matches : ℕ → SessionWriteGuard → Bool
matches receipt g = elim g.receipt [ none ↦ false | some own ↦ own == receipt ]

-- The guard is settled on both outcomes.
unfoldable pub finish : Bool → SessionWriteGuard → Result (Unit {0}) × SessionWriteGuard
finish destroyed g =
    (if destroyed then err session_conflict else ok tt, record g { settled = true })

unfoldable pub require_cleanup : SessionWriteGuard → SessionWriteGuard
require_cleanup g = record g { settled = false }

unfoldable pub confirm_removed : SessionWriteGuard → SessionWriteGuard
confirm_removed g = record g { settled = true }

-- `Drop for SessionWriteGuard`, and of the mutex guard inside it.
unfoldable pub drop_write : SessionWriteGuard → WriteState → WriteState
drop_write g w = record {
  uncertain = if not g.settled && g.uncertain_on_drop then true else w.uncertain;
  locked = false;
}

-- Dropping a `SessionDeleteGuard` drops the mutex guard inside it.
unfoldable pub drop_delete : WriteState → WriteState
drop_delete w = record w { locked = false }
