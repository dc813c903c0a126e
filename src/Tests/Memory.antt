-- ===== src/Tests/Memory.antt =====
-- The records of the memory store: saves, loads, deletions, cleanup.
use saysion.Prelude.{
  List, ℕ, ◌+◌, ◌≤◌, String, ◌≡◌, ◌∙◌, refl, true, false, Option, none, some, [], ◌∷◌, ◌⊎◌, arith,
  ok, err, session_conflict, str_eq, if◌then◌else◌,
}
use saysion.Maps
use saysion.Lifecycle.{ready}
use saysion.Session.State.{Lineage, Session, Owned, data_changed, insert_raw, set_expiry}
use saysion.Session.Revision.{is_dirty}
use saysion.Session.Cookies.{fresh_session}
use saysion.Session.Persist.{deletion_target, begin_delete}
use saysion.Session.Actions.{destroys, inserts, act_all}
use saysion.Memory.State
use saysion.Memory.State.{MemoryState}
use saysion.Memory.Store.{
  Schedule, current_origin, store_session, destroy_session, load_session, count,
}
use saysion.Memory.Store
use saysion.Memory.Cleanup.{cleanup_batch, remove_chunks}
use saysion.Memory.Index.{IsConsistent, empty-IsConsistent, insert-IsConsistent, get-remove_state}
use saysion.Memory.Batches
use saysion.Memory.Batches.{is_stale}
use saysion.Memory.Saves.{replaced, claimed, lock_answer}
use saysion.Memory.Expiry
use saysion.Memory.Expiry.{alone}
use saysion.Memory.Outcomes
use saysion.Memory.Outcomes.{saved_record}
use saysion.Memory.Revocation
use saysion.Memory.Loads
use saysion.Memory.Refinement
use saysion.Memory.View.{Call, store, destroy, clear, clean, load, Steps, view, call_all}
use saysion.Memory.Cancellation
use saysion.Memory.Cancellation.{store_lock, cancelled_save, cancelled_destroy}
use saysion.Session.Identity.{persistence_attempt}
use saysion.Memory.Client
use saysion.Memory.Client.{Life, created, inserted, extended, saved}
use saysion.Tests.Fixtures.{
  program, crates, id44, letters, key64, values, family, newcomer, visitor, stored, full, quiet,
  bare,
}

-- Another handle edits the data while the save waits for the store's lock.
abbrev busy : Schedule
busy = record quiet { before_state = inserts "user" "9" ∷ [] }

abbrev overtaken : Schedule
overtaken = record quiet { before_finish = destroys ∷ [] }

full-IsConsistent : IsConsistent full
full-IsConsistent =
    insert-IsConsistent "live" (stored "live" 100)
      (State.insert "old" (stored "old" 10) State.empty).1
      (insert-IsConsistent "old" (stored "old" 10) State.empty empty-IsConsistent)

-- A session whose record is that of another identity.
abbrev rotated : Session
rotated = record (newcomer "new") { rotation_from = some "live" }

store_session_replaces_example :
    let l = family (some "live") in
    (attempt : Option String) × (origin : Option String) × ((persistence_attempt l rotated).0
      ≡ ok attempt)
    × (current_origin
          (act_all busy.before_state (lock_answer busy rotated attempt (claimed l rotated)).1)
          rotated
          attempt
        ≡ ok origin)
    × ((j : String)
        → Maps.get j (store_session busy rotated l full).state.records
          ≡ replaced "new" origin (saved_record l rotated) j (Maps.get j full.records))
    × ((origin ≡ none) × (Maps.get "new" full.records ≡ none)
        ⊎ ((source : String) × (origin ≡ some source)
            × (Maps.contains_key source full.records ≡ true)))
    × (some "cookie" ≡ rotated.cookie_value)
unfolding program
store_session_replaces_example =
    Outcomes.store_session_replaces busy rotated (family (some "live")) full (some "cookie") refl

load-store_example :
    (o : Owned) × (load_session crates 50
        (letters 88)
        (store_session busy (newcomer id44) (family none) full).state
      ≡ ok (some o))
    × (o.session.id ≡ id44)
    × (o.session.expiry ≡ some 100)
    × (o.lineage.data_.values ≡ values)
    × (data_changed o.lineage o.session ≡ false)
unfolding program
load-store_example =
    Loads.load-store crates busy (newcomer id44) (family none) full (some "cookie") 50 (letters 88)
      refl refl refl

destroy_session_revokes_example :
    ((destroy_session (visitor "live") (family (some "live")) full).0 ≡ ready (ok tt))
    × ((j : String)
        → Maps.get j (destroy_session (visitor "live") (family (some "live")) full).2.records ≡ (
            if str_eq (deletion_target (family (some "live")) (visitor "live")) j
            then none
            else Maps.get j full.records))
    × ((store_session quiet
          (newcomer "live")
          (act_all
            (inserts "a" "b" ∷ [])
            (destroy_session (visitor "live") (family (some "live")) full).1)
          bare).answer
        ≡ ready (err session_conflict))
    × ((store_session quiet
          (newcomer "live")
          (act_all
            (inserts "a" "b" ∷ [])
            (destroy_session (visitor "live") (family (some "live")) full).1)
          bare).state
        ≡ bare)
destroy_session_revokes_example =
    Revocation.destroy_session_revokes (visitor "live") (newcomer "live") (family (some "live"))
      full bare (inserts "a" "b" ∷ []) quiet refl refl

destroyed_save_leaves_no_record_example :
    Maps.get "new" (store_session overtaken (newcomer "new") (family none) full).state.records
    ≡ none
unfolding program
destroyed_save_leaves_no_record_example =
    Revocation.destroyed_save_leaves_no_record overtaken (newcomer "new") (family none) full refl
      refl

store_session-IsConsistent_example :
    IsConsistent (store_session busy (newcomer "new") (family none) full).state
store_session-IsConsistent_example =
    Outcomes.store_session-IsConsistent busy (newcomer "new") (family none) full full-IsConsistent

cleanup_batch_removes_expired_example :
    (n : ℕ) × (st' : MemoryState) × (cleanup_batch 50 alone 1000 full ≡ ok (n, st'))
    × IsConsistent st'
    × (n + count st' ≡ count full)
    × (n ≤ 1000)
    × ((j : String)
        → (Maps.get j st'.records ≡ Maps.get j full.records)
          ⊎ ((is_stale 50 (Maps.get j full.records) ≡ true) × (Maps.get j st'.records ≡ none)))
cleanup_batch_removes_expired_example =
    Expiry.cleanup_batch_removes_expired 50 1000 full full-IsConsistent (omega arith) (omega arith)

abbrev cleaned : MemoryState
cleaned = record { records = ("live", stored "live" 100) ∷ []; expiries = (100, "live") ∷ [] }

cleanup_batch_complete_example : is_stale 50 (Maps.get "old" cleaned.records) ≡ false
unfolding program
cleanup_batch_complete_example =
    Expiry.cleanup_batch_complete 50 1000 1 full cleaned full-IsConsistent refl (omega arith) "old"

-- Before the first chunk, another task takes the store's other record away.
abbrev other_task : ℕ → MemoryState → MemoryState
other_task n st = (State.remove "old" st).1

stays :
    (n : ℕ) (s : MemoryState)
    → Maps.get "live" s.records ≡ some (stored "live" 100)
    → Maps.get "live" (other_task n s).records ≡ some (stored "live" 100)
unfolding str_eq
stays n s h = get-remove_state "old" "live" s ∙ h

live_record_survives_example :
    Maps.get "live" (remove_chunks 50 other_task 2 0 ("old" ∷ "live" ∷ []) full).1.records
    ≡ some (stored "live" 100)
unfolding program
live_record_survives_example =
    Batches.live_record_survives 50 other_task 2 0 ("old" ∷ "live" ∷ []) "live" (stored "live" 100)
      full refl stays refl

-- A client that has created, filled, saved and extended its session.
abbrev created_session : Owned
created_session = fresh_session crates (letters 88) id44

abbrev filled : Lineage
filled = insert_raw "user" "1" created_session.lineage

abbrev first_save : Store.Outcome
first_save = store_session quiet created_session.session filled bare

abbrev longer : Session
longer = set_expiry 200 created_session.session

client : Life crates longer first_save.lineage first_save.state
unfolding program
client = extended 200 created_session.session first_save.lineage first_save.state (
    saved created_session.session filled bare (
      inserted "user" "1" created_session.session created_session.lineage bare
        (created key64 created_session bare refl refl)))

client_makes_progress_example :
    let after = store_session quiet longer first_save.lineage first_save.state in
    let deleted = destroy_session longer first_save.lineage first_save.state in
    (after.answer ≡ ready (ok longer.cookie_value))
    × ((o : Owned) × (Maps.get longer.id after.state.records ≡ some o)
        × (o.session.id ≡ longer.id)
        × (o.session.expiry ≡ longer.expiry)
        × (o.lineage.data_.values ≡ first_save.lineage.data_.values))
    × (is_dirty after.lineage.data_ ≡ false)
    × (deleted.0 ≡ ready (ok tt))
    × (Maps.get longer.id deleted.2.records ≡ none)
    × (Maps.get (deletion_target first_save.lineage longer) deleted.2.records ≡ none)
client_makes_progress_example =
    Client.client_makes_progress crates longer first_save.lineage first_save.state client

cancelled_calls_leave_no_doubt_example :
    let m = cancelled_save store_lock busy (newcomer id44) none (family none) in
    let n = cancelled_destroy (newcomer id44) (family none) in
    (is_dirty m.data_ ≡ true)
    × ((begin_delete m (visitor id44)).0
        ≡ ready (ok (record { id = deletion_target m (visitor id44) })))
    × ((destroy_session (newcomer id44) n full).0
        ≡ (destroy_session (newcomer id44) (family none) full).0)
    × ((destroy_session (newcomer id44) n full).2
        ≡ (destroy_session (newcomer id44) (family none) full).2)
    × ((persistence_attempt n (visitor id44)).0 ≡ err session_conflict)
cancelled_calls_leave_no_doubt_example =
    Cancellation.cancelled_calls_leave_no_doubt store_lock busy (newcomer id44) (visitor id44) none
      (family none) full refl refl

-- A rotation, a load, a chunk of a cleanup, a deletion and a clearing.
abbrev calls : List Call
calls =
    store busy rotated (family (some "live"))
    ∷ load crates 50 (letters 88)
    ∷ clean 50 ("old" ∷ "new" ∷ [])
    ∷ destroy (visitor "new") (family (some "new"))
    ∷ clear
    ∷ []

memory_refines_view_example :
    Steps (view full) (call_all calls full).0 (view (call_all calls full).1)
memory_refines_view_example = Refinement.memory_refines_view calls full
