-- ===== src/Tests/Saves.antt =====
-- The lock of a clone family and the save tokens.
use saysion.Prelude.{
  String, Bool, str_eq, ◌||◌, ◌≡◌, refl, true, false, none, some, err, session_conflict,
  uncertain_write,
}
use saysion.Lifecycle
use saysion.Lifecycle.{
  Poll, pending, ready, WriteState, SessionWriteGuard, SessionDeleteGuard, write, delete,
}
use saysion.Lifecycle.Deletion
use saysion.Lifecycle.Deletion.{
  Family, Step, Reach, here, next, start, stored, without, holding, idle, removed,
}
use saysion.Session.Revision.{is_dirty}
use saysion.Session.State.{Lineage}
use saysion.Session.Persist.{begin_delete}
use saysion.Save.{SessionSave, complete_with_guard}
use saysion.Save.Protocol
use saysion.Tests.Fixtures.{program, values, unlocked, family, newcomer, visitor}

abbrev held : WriteState
held = record { uncertain = false; locked = true }

abbrev open_guard : SessionWriteGuard
open_guard = record { receipt = some 5; uncertain_on_drop = true; settled = false }

abbrev nothing : String → Bool
nothing j = false

abbrev first : String → Bool
first = stored "old" none nothing

abbrev old_guard : SessionDeleteGuard
old_guard = record { id = "old" }

-- A rotation takes the lock and reaches the backend, is refused by a destruction and compensated; its
-- source, which an earlier save made, is gone as well; then the record of the source is deleted.
abbrev writing : Family
writing = record (start first) { lock = held; writer = some open_guard }

abbrev written : Family
written = record writing { present = stored "new" (some "old") writing.present }

abbrev undone : Family
undone = record written {
  present = without "new" written.present;
  writer = some (record open_guard { settled = true });
}

abbrev released : Family
released = record undone { lock = unlocked; writer = none }

abbrev deleting : Family
deleting = record released { destroyed = true; lock = held; deleter = holding old_guard }

abbrev gone : Family
gone = record deleting { present = without "old" deleting.present; deleter = removed old_guard }

abbrev reported : Family
reported = record gone {
  lock = unlocked;
  deleter = idle;
  deleted = λ j. str_eq "old" j || gone.deleted j;
}

write_history : Reach (start first) written
unfolding program start Lifecycle.unlocked
write_history =
    next (next here (Step.takes_write (some 5) open_guard held refl))
      (Step.lands open_guard "new" (some "old") refl refl)

delete_history : Reach (start first) reported
unfolding program start Lifecycle.unlocked
delete_history =
    next
      (next
        (next
          (next (next write_history (Step.compensates open_guard "new" refl))
            (Step.drops_write (record open_guard { settled = true }) refl))
          (Step.takes_delete (record { id = "" }) "old" held refl))
        (Step.removes old_guard refl))
      (Step.reports old_guard refl)

deletion_is_final_example : reported.present "old" ≡ false
unfolding start str_eq
deletion_is_final_example = Deletion.deletion_is_final first reported "old" delete_history refl

-- A save of a new session, with the receipt 5.
abbrev token : SessionSave
token = record {
  source = newcomer "new";
  snapshot = record { id = "new"; expiry = some 100; values = values };
  revision = record { revision = 3 };
  origin = none;
  write_receipt = 5;
  write_started = false;
}

abbrev destroyed_family : Lineage
destroyed_family = record (family none) { destroy = true }

destroyed_completion_is_uncertain_example :
    let l' = (complete_with_guard token open_guard destroyed_family).1 in
    ((complete_with_guard token open_guard destroyed_family).0 ≡ err session_conflict)
    × (l'.persisted_id ≡ none)
    × (is_dirty l'.data_ ≡ true)
    × ((begin_delete l' (visitor "new")).0 ≡ ready (err uncertain_write))
unfolding program
destroyed_completion_is_uncertain_example =
    Protocol.destroyed_completion_is_uncertain token open_guard destroyed_family (visitor "new")
      refl refl refl
