-- ===== src/Memory/Outcomes.antt =====
-- The records after `store_session` of src/memory_store.rs, on every branch.
use saysion.Prelude.{
  String, ◌≡◌, ◌≢◌, refl, true, not, ◌||◌, ◌⊎◌, Option, none, some, arith, opt_eq, str_eq_iff,
  Bool-cases, inl, inr, Result, ok, err, Result-cases,
}
use saysion.Maps
use saysion.Lifecycle.{Poll, pending, ready, SessionWriteGuard}
use saysion.Session.State.{Lineage, Session, Owned}
use saysion.Session.Revision.{SaveRevision}
use saysion.Session.Identity.{persistence_attempt}
use saysion.Session.Persist.{snapshot, persistence_snapshot, mark_loaded}
use saysion.Session.Actions.{act_all}
use saysion.Memory.State.{MemoryState, remove}
use saysion.Memory.Index.{IsConsistent, get-remove_state, remove-IsConsistent}
use saysion.Memory.Store.{
  Schedule, current_origin, has_source, commit_records, finish_records, write_records,
  locked_records, attempted_records, store_session,
}
use saysion.Memory.Saves.{
  replaced, Committed, commit_records-eq-ok, get-committed, committed-IsConsistent,
  store_session-eq-ok, claimed, lock_answer,
}

-- What holds of the records that a save finds, of those that its commit makes, and of those with
-- its own record taken out again, holds of those that it leaves.
module _ {κ} (P : MemoryState → Type κ) (sched : Schedule) (s : Session) (st : MemoryState)
    (unchanged : P st)
    (saved : (l : Lineage) (attempt : Option String) (snap : Owned) (st' : MemoryState)
      → Committed l s attempt snap st st'
      → P st' × P (remove s.id st').1) where
  write_induction :
      (attempt : Option String) (snap : Owned) (r : SaveRevision) (g : SessionWriteGuard)
      (l : Lineage)
      → P (write_records sched s attempt snap r g l st).state
  unfolding write_records
  write_induction attempt snap r g l =
      elim (Result-cases (commit_records (act_all sched.before_state l) s attempt snap st)) [
        | inl (e, bad) ↦ rw (bad, write_records) unchanged
        | inr (st', good) ↦ rw (good, write_records) (settle st' good)
      ]
    where
      settle :
          (st' : MemoryState)
          → commit_records (act_all sched.before_state l) s attempt snap st ≡ ok st'
          → P (finish_records sched s r g (act_all sched.before_state l) st').state
      settle st' good =
          let both =
            saved (act_all sched.before_state l) attempt snap st'
              (commit_records-eq-ok (act_all sched.before_state l) s attempt snap st st' good) in
          elim (Bool-cases (act_all sched.before_finish (act_all sched.before_state l)).destroy) [
            | inl dead ↦ rw (dead, finish_records) both.1
            | inr live ↦ rw (live, finish_records) both.0
          ]

  lock_induction :
      (attempt : Option String) (snap : Owned) (r : SaveRevision)
      (lock : Poll (Result SessionWriteGuard)) (l : Lineage)
      → P (locked_records sched s attempt snap r lock l st).state
  unfolding locked_records
  lock_induction attempt snap r pending l = unchanged
  lock_induction attempt snap r (ready (err e)) l = unchanged
  lock_induction attempt snap r (ready (ok g)) l = write_induction attempt snap r g l

  attempt_induction :
      (attempt : Result (Option String)) (l : Lineage)
      → P (attempted_records sched s attempt l st).state
  unfolding attempted_records
  attempt_induction (err e) l = unchanged
  attempt_induction (ok attempt) l =
      lock_induction attempt (snapshot l s) (persistence_snapshot l s).1
        (lock_answer sched s attempt l).0 (lock_answer sched s attempt l).1

  pub store_induction : (l : Lineage) → P (store_session sched s l st).state
  unfolding store_session
  store_induction l = attempt_induction (persistence_attempt l s).0 (claimed l s)

-- Every save keeps the index consistent, whatever the answer and whatever other handles do
-- meanwhile.
pub store_session-IsConsistent :
    (sched : Schedule) (s : Session) (l : Lineage) (st : MemoryState)
    → IsConsistent st
    → IsConsistent (store_session sched s l st).state
store_session-IsConsistent sched s l st v =
    store_induction IsConsistent sched s st v
      (λ l' attempt snap st' c. (
        committed-IsConsistent l' s attempt snap st st' c v,
        remove-IsConsistent s.id st' (committed-IsConsistent l' s attempt snap st st' c v),
      ))
      l

-- The record that a successful save writes: the identity, the expiry and the values as they were
-- when the save captured them.
abbrev pub saved_record : Lineage → Session → Owned
saved_record l s = mark_loaded (snapshot (claimed l s) s)

-- A save that succeeds puts its captured record under its identity and, when the identity that it
-- replaces, as its attempt claimed it and as it is read again once the store is locked, is another
-- one, takes that source away; every other record is left as it is. A save that replaces no identity
-- found no record of its own, and any other save found the record of its source.
pub store_session_replaces :
    (sched : Schedule) (s : Session) (l : Lineage) (st : MemoryState) (cookie : Option String)
    → (store_session sched s l st).answer ≡ ready (ok cookie)
    → (attempt : Option String) × (origin : Option String) × ((persistence_attempt l s).0
        ≡ ok attempt)
      × (current_origin
            (act_all sched.before_state (lock_answer sched s attempt (claimed l s)).1)
            s
            attempt
          ≡ ok origin)
      × ((j : String)
          → Maps.get j (store_session sched s l st).state.records
            ≡ replaced s.id origin (saved_record l s) j (Maps.get j st.records))
      × ((origin ≡ none) × (Maps.get s.id st.records ≡ none)
          ⊎ ((source : String) × (origin ≡ some source)
              × (Maps.contains_key source st.records ≡ true)))
      × (cookie ≡ s.cookie_value)
store_session_replaces sched s l st cookie h =
    let (attempt, granted, d) = store_session-eq-ok sched s l st cookie h in
    let c = d.committed in
    (
      attempt,
      c.origin,
      granted,
      c.reread,
      λ j. get-committed _ s attempt _ st _ c j,
      found c.origin c.source c.no_collision,
      d.issued,
    )
  where
    found :
        (origin : Option String)
        → has_source origin st ≡ true
        → (opt_eq origin (some s.id) || not (Maps.contains_key s.id st.records)) ≡ true
        → (origin ≡ none) × (Maps.get s.id st.records ≡ none)
          ⊎ ((source : String) × (origin ≡ some source)
              × (Maps.contains_key source st.records ≡ true))
    found none a b = inl (refl, unfold Maps.contains_key in ground (arith, b))
    found (some o) a b = inr (o, refl, unfold has_source in a)

-- A save, whatever its answer, changes no record but its own and its source's, which it can only
-- remove: it neither writes nor brings back a record of another identity.
pub store_session_foreign :
    (sched : Schedule) (s : Session) (l : Lineage) (st : MemoryState) (j : String)
    → s.id ≢ j
    → (Maps.get j (store_session sched s l st).state.records ≡ Maps.get j st.records)
      ⊎ (Maps.get j (store_session sched s l st).state.records ≡ none)
store_session_foreign sched s l st j ne =
    store_induction
      (λ st'. (Maps.get j st'.records ≡ Maps.get j st.records) ⊎ (Maps.get j st'.records ≡ none))
      sched s st (inl refl)
      (λ l' attempt snap st' c. ground (
        arith,
        get-committed l' s attempt snap st st' c j,
        get-remove_state s.id j st',
        str_eq_iff s.id j,
      ))
      l
