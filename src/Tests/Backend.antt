-- ===== src/Tests/Backend.antt =====
-- The part that the stores share, on a backend that is a map of texts.
use saysion.Prelude.{
  String, ◌≡◌, refl, true, false, ◌⊎◌, none, [], ◌∷◌, Error, Result, ok, err, session_conflict,
  uncertain_write, backend,
}
use saysion.Maps
use saysion.Maps.{Map}
use saysion.Lifecycle.{ready, SessionWriteGuard}
use saysion.Session.Revision.{is_dirty}
use saysion.Session.State.{Lineage}
use saysion.Session.Persist.{begin_delete, deletion_target}
use saysion.Session.Actions.{destroys}
use saysion.Backend.{Schedule, write_record, cancelled_write, cancelled_undo}
use saysion.Backend.Failures
use saysion.Tests.Fixtures.{program, family, newcomer, visitor}

abbrev Rows : Type 0
Rows = Map String

abbrev delete : String → Rows → Result (Unit {0}) × Rows
delete id rows = (ok tt, Maps.remove id rows)

abbrev save : String → Rows → Result (Unit {0}) × Rows
save id rows = (ok tt, Maps.insert id "json" rows)

abbrev alone : Schedule
alone = record { before_lock = []; before_finish = []; after_finish = [] }

-- Another handle destroys the session while its record is written.
abbrev overtaken : Schedule
overtaken = record alone { before_finish = destroys ∷ [] }

abbrev creating : SessionWriteGuard
creating = record { receipt = none; uncertain_on_drop = true; settled = false }

abbrev locked : Lineage
locked = record (family none) { lifecycle = record { uncertain = false; locked = true } }

-- A database that is out of reach.
abbrev offline : Rows → Result (Unit {0}) × Rows
offline rows = (err backend, rows)

failed_write_is_uncertain_example :
    let w =
      write_record delete alone
        (newcomer "new")
        offline
        (record { revision = 3 })
        creating
        locked
        [] in
    (w.answer ≡ ready (err backend))
    × (is_dirty w.lineage.data_ ≡ true)
    × ((begin_delete w.lineage (visitor "new")).0 ≡ ready (err uncertain_write))
unfolding program
failed_write_is_uncertain_example =
    Failures.failed_write_is_uncertain delete offline alone (newcomer "new")
      (record { revision = 3 }) creating locked [] refl refl backend (visitor "new") refl

overtaken_write_is_undone_example :
    let w =
      write_record delete overtaken
        (newcomer "new")
        (save "new")
        (record { revision = 3 })
        creating
        locked
        [] in
    let removed = delete "new" (save "new" []).1 in
    (w.rows ≡ removed.1)
    × (((removed.0 ≡ ok tt)
          × (w.answer ≡ ready (err session_conflict))
          × ((begin_delete w.lineage (visitor "new")).0
              ≡ ready (ok (record { id = deletion_target w.lineage (visitor "new") }))))
        ⊎ ((e : Error) × (removed.0 ≡ err e)
            × (w.answer ≡ ready (err e))
            × ((begin_delete w.lineage (visitor "new")).0 ≡ ready (err uncertain_write))))
unfolding program
overtaken_write_is_undone_example =
    Failures.overtaken_write_is_undone delete (save "new") overtaken (newcomer "new")
      (record { revision = 3 }) creating locked [] refl (visitor "new") refl refl refl

cancelled_save_is_uncertain_example :
    let a =
      (cancelled_write delete alone
        (newcomer "new")
        (λ d. (save "new" d).1)
        (record { revision = 3 })
        creating
        locked
        []).0 in
    let b =
      (cancelled_undo delete alone
        (newcomer "new")
        true
        (record { revision = 3 })
        creating
        locked
        []).0 in
    (is_dirty a.data_ ≡ true)
    × (a.lifecycle.locked ≡ false)
    × ((begin_delete a (visitor "new")).0 ≡ ready (err uncertain_write))
    × (is_dirty b.data_ ≡ true)
    × (b.lifecycle.locked ≡ false)
    × ((begin_delete b (visitor "new")).0 ≡ ready (err uncertain_write))
unfolding program
cancelled_save_is_uncertain_example =
    Failures.cancelled_save_is_uncertain delete (save "new") alone (newcomer "new")
      (record { revision = 3 }) creating locked [] refl refl (λ d. (save "new" d).1) true
      (visitor "new")
