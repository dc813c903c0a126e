-- ===== src/Memory/Refinement.antt =====
-- src/memory_store.rs implements the abstract store of records: the view of a state forgets the order
-- of the records and the index of expiries.
use saysion.Prelude.{
  ℕ, String, ◌≡◌, refl, sym, ap, subst, fun_ext, true, false, not, ◌||◌, inl, inr, Option, none,
  some, List, [], ◌∷◌, arith, Result, ok, err, opt_eq, str_eq, if◌then◌else◌, Result-cases, ◌>>=◌,
  ◌∙◌, session_conflict,
}
use saysion.Maps
use saysion.Session.State.{Lineage, Session, Owned, is_expired}
use saysion.Session.Cookies.{External, id_from_cookie_value}
use saysion.Lifecycle.{Poll, pending, ready, SessionDeleteGuard}
use saysion.Session.Identity.{persistence_attempt}
use saysion.Session.Persist.{begin_delete, snapshot, validate_loaded, deletion_target}
use saysion.Memory.State.{MemoryState, remove}
use saysion.Memory.Index.{get-remove_state}
use saysion.Memory.Store.{
  Schedule, Outcome, has_source, store_session, destroy_session, clear_store, load_session,
  find_live,
}
use saysion.Memory.Cleanup.{remove_batch}
use saysion.Memory.Batches.{has_expired_lem, get-remove_batch, remove_batch-le}
use saysion.Memory.Saves.{Committed, get-committed, store_session-eq-ok, claimed, lock_answer}
use saysion.Memory.Answers.{is_accepted, TakenBack, store_session-Ended}
use saysion.Memory.View.{
  View, view, Call, Answer, store, destroy, clear, clean, load, saved, destroyed, cleared, cleaned,
  loaded, call, call_all, MaySave, at_commit, load_view, Step, stores, refuses, takes_back, deletes,
  spares, clears, cleans, loads, Steps, here, next,
}

committed-MaySave :
    (l : Lineage) (s : Session) (attempt : Option String) (snap : Owned) (st st' : MemoryState)
    (c : Committed l s attempt snap st st')
    → MaySave (view st) s.id c.origin
committed-MaySave l s attempt snap st st' c = found c.origin c.source c.no_collision
  where
    found :
        (origin : Option String)
        → has_source origin st ≡ true
        → (opt_eq origin (some s.id) || not (Maps.contains_key s.id st.records)) ≡ true
        → MaySave (view st) s.id origin
    found none a b = unfold Maps.contains_key in ground (arith, b)
    found (some o) a b =
        (unfold has_source Maps.contains_key in a, unfold Maps.contains_key in ground (arith, b))

-- A step to a view that agrees with the one of the abstract store at each record.
step_to :
    (m n n' : View) (c : Call) (a b : Answer)
    → Step m c a n
    → b ≡ a
    → ((j : String) → n' j ≡ n j)
    → Step m c b n'
step_to m n n' c a b st e same =
    subst (λ x. Step m c x n') (sym e) (subst (λ x. Step m c a x) (sym (fun_ext same)) st)

module _ (sched : Schedule) (s : Session) (l : Lineage) (st : MemoryState) where
  abbrev o : Outcome
  o = store_session sched s l st

  accepted-Step :
      (cookie : Option String)
      → o.answer ≡ ready (ok cookie)
      → Step (view st) (store sched s l) (saved o.answer) (view o.state)
  accepted-Step cookie h =
      let (attempt, granted, d) = store_session-eq-ok sched s l st cookie h in
      let c = d.committed in
      let snap = snapshot (claimed l s) s in
      let m = at_commit sched s attempt l in
      step_to (view st) _ (view o.state) (store sched s l) (saved (ready (ok s.cookie_value)))
        (saved o.answer)
        (stores sched s l attempt c.origin (granted, c.reread)
          (committed-MaySave m s attempt snap st o.state c))
        (ap saved (h ∙ ap (λ x. ready (ok x)) d.issued))
        (get-committed m s attempt snap st o.state c)

  taken_back-Step :
      (attempt : Option String)
      → (persistence_attempt l s).0 ≡ ok attempt
      → TakenBack sched s attempt
          (snapshot (claimed l s) s)
          (lock_answer sched s attempt (claimed l s)).1
          st
          o
      → Step (view st) (store sched s l) (saved o.answer) (view o.state)
  taken_back-Step attempt granted t =
      let c = t.committed in
      let snap = snapshot (claimed l s) s in
      let m = at_commit sched s attempt l in
      step_to (view st) _ (view o.state) (store sched s l) (saved (ready (err session_conflict)))
        (saved o.answer)
        (takes_back sched s l attempt c.origin (granted, c.reread)
          (committed-MaySave m s attempt snap st t.between c) t.dead)
        (ap saved t.failed) (λ j. ap (λ e. view e j) t.left ∙ gone j)
    where
      gone :
          (j : String)
          → view (remove s.id t.between).1 j ≡ (
              if str_eq s.id j
              then none
              else if opt_eq t.committed.origin (some j)
              then none
              else view st j)
      gone j = ground (
        arith,
        get-remove_state s.id j t.between,
        get-committed (at_commit sched s attempt l) s attempt (snapshot (claimed l s) s) st
            t.between t.committed j,
      )

  refused-Step :
      is_accepted o.answer ≡ false
      → o.state ≡ st
      → Step (view st) (store sched s l) (saved o.answer) (view o.state)
  refused-Step h same =
      step_to (view st) (view st) (view o.state) (store sched s l) (saved o.answer) (saved o.answer)
        (refuses sched s l o.answer h) refl (λ j. ap (λ e. view e j) same)

  store-Step : Step (view st) (store sched s l) (saved o.answer) (view o.state)
  store-Step = elim (store_session-Ended sched s l st) [
    | inl (h, same) ↦ refused-Step h same
    | inr (attempt, granted, inl h) ↦
        let (cookie, e) = accepted o.answer h in accepted-Step cookie e
    | inr (attempt, granted, inr (inl (h, same))) ↦ refused-Step h same
    | inr (attempt, granted, inr (inr t)) ↦ taken_back-Step attempt granted t
  ]
    where
      accepted :
          (a : Poll (Result (Option String)))
          → is_accepted a ≡ true
          → (cookie : Option String) × (a ≡ ready (ok cookie))
      accepted pending h = cc
      accepted (ready (err e)) h = cc
      accepted (ready (ok cookie)) h = (cookie, refl)

destroy-Step :
    (s : Session) (l : Lineage) (st : MemoryState)
    → let (answer, _, after) = destroy_session s l st in
      Step (view st) (destroy s l) (destroyed answer) (view after)
unfolding destroy_session
destroy-Step s l st = by_answer (begin_delete l s).0 refl
  where
    by_answer :
        (a : Poll (Result SessionDeleteGuard))
        → (begin_delete l s).0 ≡ a
        → let (answer, _, after) = destroy_session s l st in
          Step (view st) (destroy s l) (destroyed answer) (view after)
    by_answer pending e = rw (destroy_session, e) (spares s l pending (λ q. cc))
    by_answer (ready (err x)) e = rw (destroy_session, e) (spares s l (ready (err x)) (λ q. cc))
    by_answer (ready (ok g)) e =
        let target : g.id ≡ deletion_target l s =
          unfold begin_delete deletion_target in ground (arith, e) in
        rw (destroy_session, e)
          (step_to (view st) _ (view (remove g.id st).1) (destroy s l) (destroyed (ready (ok tt)))
            (destroyed (ready (ok tt))) (deletes s l) refl
            (λ j. ground (arith, target, get-remove_state g.id j st)))

load_session-view :
    (x : External) (now : ℕ) (cookie : String) (st : MemoryState)
    → load_session x now cookie st ≡ load_view x now cookie (view st)
unfolding load_session load_view
load_session-view x now cookie st = elim (Result-cases (id_from_cookie_value x cookie)) [
  | inl (e, bad) ↦ rw (bad, ◌>>=◌) refl
  | inr (id, good) ↦ rw (good, ◌>>=◌) (by_record id)
]
  where
    by_record :
        (id : String)
        → (elim (find_live x now id st) [
          | none ↦ ok none
          | some o ↦ validate_loaded x now false cookie o
        ])
          ≡ (elim (Maps.get id st.records) [
            | none ↦ ok none
            | some o ↦
                if is_expired now o.session
                then ok none
                else validate_loaded x now false cookie (snapshot o.lineage o.session)
          ])
    by_record id = unfold find_live in ground arith

-- Each call to the memory store is a step of the abstract store, with the same answer.
call-Step : (c : Call) (st : MemoryState) → Step (view st) c (call c st).0 (view (call c st).1)
unfolding call
call-Step (store sched s l) st = store-Step sched s l st
call-Step (destroy s l) st = destroy-Step s l st
call-Step clear st =
    step_to (view st) (λ j. none) (view (clear_store st)) clear cleared cleared clears refl
      (λ j. unfold clear_store Maps.get in refl)
call-Step (clean now ids) st =
    let n = (remove_batch now ids st).0 in
    step_to (view st) _ (view (remove_batch now ids st).1) (clean now ids) (cleaned n) (cleaned n)
      (cleans now ids n (remove_batch-le now ids st)) refl
      (λ j. ground (arith, get-remove_batch now ids j st, has_expired_lem now j st))
call-Step (load x now cookie) st =
    step_to (view st) (view st) (view st) (load x now cookie)
      (loaded (load_view x now cookie (view st))) (loaded (load_session x now cookie st))
      (loads x now cookie) (ap loaded (load_session-view x now cookie st)) (λ j. refl)

-- The memory store refines an abstract store of records, call by call and answer by answer: a
-- save that issues its cookie puts the record that it captured, found its source or, as a first
-- save, no record of its own, takes the source away if that is another identity, and overwrites
-- no third record; a save that a destruction overtook takes its record back, and its source is
-- gone as well; any other save, and a deletion that is not granted, changes nothing; a deletion
-- that is granted removes the record of its target alone, a chunk of a cleanup exactly those of
-- its candidates that are expired, and a clearing all; and a load answers what the view tells. So
-- it is for every sequence of calls, of any sessions, that other handles act on while a save
-- waits.
pub memory_refines_view :
    (cs : List Call) (st : MemoryState)
    → Steps (view st) (call_all cs st).0 (view (call_all cs st).1)
unfolding call_all
memory_refines_view [] st = here (view st)
memory_refines_view (c ∷ cs) st =
    next (view st) (view (call c st).1) (view (call_all cs (call c st).1).1) c (call c st).0
      (call_all cs (call c st).1).0 (call-Step c st) (memory_refines_view cs (call c st).1)
