-- ===== src/Memory/Answers.antt =====
-- How `store_session` of src/memory_store.rs ends, on every branch.
use saysion.Prelude.{
  String, ◌≡◌, refl, Bool, true, false, ◌⊎◌, inl, inr, Option, arith, session_conflict, Result, ok,
  err, Bool-cases, Result-cases,
}
use saysion.Lifecycle.{Poll, pending, ready, SessionWriteGuard}
use saysion.Session.State.{Lineage, Session, Owned}
use saysion.Session.Revision.{SaveRevision}
use saysion.Session.Identity.{persistence_attempt}
use saysion.Session.Persist.{snapshot, capture_revision}
use saysion.Session.Actions.{act_all}
use saysion.Memory.State.{MemoryState, remove}
use saysion.Memory.Store.{
  Schedule, Outcome, commit_records, finish_records, write_records, locked_records,
  attempted_records, store_session,
}
use saysion.Memory.Saves.{Committed, commit_records-eq-ok, claimed, lock_answer}

abbrev pub is_accepted : Poll (Result (Option String)) → Bool
is_accepted pending = false
is_accepted (ready (err e)) = false
is_accepted (ready (ok cookie)) = true

-- A save that a destruction overtook: its commit is made, and its record is taken out again.
pub record TakenBack (sched : Schedule) (s : Session) (attempt : Option String) (snap : Owned)
    (l : Lineage) (st : MemoryState) (o : Outcome) : Type 0 where
  pub between : MemoryState
  pub committed : Committed (act_all sched.before_state l) s attempt snap st between
  pub dead : (act_all sched.before_finish (act_all sched.before_state l)).destroy ≡ true
  pub failed : o.answer ≡ ready (err session_conflict)
  pub left : o.state ≡ (remove s.id between).1

-- A save that succeeded, that left the records as they were, or that was taken back.
abbrev pub Ended :
    Schedule → Session → Option String → Owned → Lineage → MemoryState → Outcome → Type 0
Ended sched s attempt snap l st o =
    (is_accepted o.answer ≡ true)
    ⊎ ((is_accepted o.answer ≡ false) × (o.state ≡ st))
    ⊎ TakenBack sched s attempt snap l st o

module _ (sched : Schedule) (s : Session) (attempt : Option String) (snap : Owned)
    (r : SaveRevision) (st : MemoryState) where
  write_records-Ended :
      (g : SessionWriteGuard) (l : Lineage)
      → Ended sched s attempt snap l st (write_records sched s attempt snap r g l st)
  unfolding write_records finish_records
  write_records-Ended g l =
      let m = act_all sched.before_state l in
      elim (Result-cases (commit_records m s attempt snap st)) [
        | inl (e, bad) ↦ inr (inl (ground (arith, bad), ground (arith, bad)))
        | inr (st', good) ↦ elim (Bool-cases (act_all sched.before_finish m).destroy) [
          | inl dead ↦ inr (
              inr (record {
                between = st';
                committed = commit_records-eq-ok m s attempt snap st st' good;
                dead = dead;
                failed = ground (arith, good, dead);
                left = ground (arith, good, dead);
              }))
          | inr live ↦ inl (ground (arith, good, live))
        ]
      ]

  locked_records-Ended :
      (lock : Poll (Result SessionWriteGuard)) (l : Lineage)
      → Ended sched s attempt snap l st (locked_records sched s attempt snap r lock l st)
  unfolding locked_records
  locked_records-Ended pending l = inr (inl (refl, refl))
  locked_records-Ended (ready (err e)) l = inr (inl (refl, refl))
  locked_records-Ended (ready (ok g)) l = write_records-Ended g l

-- A save without an attempt leaves the records, and any other one ends in one of the three ways.
pub store_session-Ended :
    (sched : Schedule) (s : Session) (l : Lineage) (st : MemoryState)
    → let o = store_session sched s l st in
      ((is_accepted o.answer ≡ false) × (o.state ≡ st))
      ⊎ ((attempt : Option String) × ((persistence_attempt l s).0 ≡ ok attempt)
          × Ended sched s attempt
              (snapshot (claimed l s) s)
              (lock_answer sched s attempt (claimed l s)).1
              st
              o)
unfolding store_session attempted_records
store_session-Ended sched s l st = go (persistence_attempt l s).0 refl
  where
    go :
        (a : Result (Option String))
        → (persistence_attempt l s).0 ≡ a
        → let o = attempted_records sched s a (claimed l s) st in
          ((is_accepted o.answer ≡ false) × (o.state ≡ st))
          ⊎ ((attempt : Option String) × ((persistence_attempt l s).0 ≡ ok attempt)
              × Ended sched s attempt
                  (snapshot (claimed l s) s)
                  (lock_answer sched s attempt (claimed l s)).1
                  st
                  o)
    go (err e) q = inl (refl, refl)
    go (ok attempt) q = inr (
      attempt,
      q,
      locked_records-Ended sched s attempt (snapshot (claimed l s) s)
          (capture_revision (claimed l s)).0 st (lock_answer sched s attempt (claimed l s)).0
          (lock_answer sched s attempt (claimed l s)).1,
    )
