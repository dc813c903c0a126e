-- ===== src/Memory/Contract.antt =====
-- The memory store as an implementation of the trait of src/session_store.rs.
use saysion.Prelude.{
  ℕ, String, ◌≡◌, sym, not, opt_eq, ◌⊎◌, refl, subst, ap, ◌∙◌, Bool, true, false, ◌||◌, opt_eq_iff,
  Option, none, some, List, [], ◌∷◌, arith, Result, ok, err, is_some, str_eq_refl, inl, inr,
  Result-cases,
}
use saysion.Maps
use saysion.Lifecycle.{Poll, pending, ready, SessionWriteGuard}
use saysion.Session.Revision.{SaveRevision, is_dirty}
use saysion.Session.State.{Lineage, Session, Owned, data_changed, new_lineage}
use saysion.Session.Cookies.{External}
use saysion.Session.Identity.{persistence_attempt, persistence_origin}
use saysion.Session.Progress.{origin_kept}
use saysion.Session.Persist.{
  recheck_origin, check_write, begin_backend_write, begin_delete, persistence_snapshot,
  capture_revision, snapshot, deletion_target, mark_loaded,
}
use saysion.Session.Actions.{
  Action, inserts, removes, destroys, resets, captures, acknowledges, drops, attempts, persists,
  act, act_all,
}
use saysion.Contract.{SessionStore, IsRevoking, Found, first_found, source_found, is_some-saved}
use saysion.Memory.Loads.{loaded_family}
use saysion.Memory.State.{MemoryState}
use saysion.Memory.Store.{
  Schedule, current_origin, has_source, locked_records, attempted_records, store_session,
  destroy_session, clear_store, load_session,
}
use saysion.Memory.Progress.{quiet}
use saysion.Memory.Revocation.{destroy_session_revokes}
use saysion.Memory.Saves.{claimed, lock_answer, store_session-eq-ok, get-committed}

-- Whether a save is completed among the actions.
abbrev is_persists : Action → Bool
is_persists (persists s) = true
is_persists (inserts key value) = false
is_persists (removes key) = false
is_persists destroys = false
is_persists resets = false
is_persists captures = false
is_persists (acknowledges r) = false
is_persists (drops r) = false
is_persists (attempts s) = false

abbrev pub has_persists : List Action → Bool
has_persists [] = false
has_persists (a ∷ as_) = is_persists a || has_persists as_

act-persisted :
    (a : Action) (l : Lineage) → is_persists a ≡ false → (act a l).persisted_id ≡ l.persisted_id
unfolding act
act-persisted (inserts key value) l h = refl
act-persisted (removes key) l h = refl
act-persisted destroys l h = refl
act-persisted resets l h = refl
act-persisted captures l h = refl
act-persisted (acknowledges r) l h = refl
act-persisted (drops r) l h = refl
act-persisted (attempts s) l h = unfold persistence_attempt in ground arith
act-persisted (persists s) l h = cc

act_all-persisted :
    (as_ : List Action) (l : Lineage)
    → has_persists as_ ≡ false
    → (act_all as_ l).persisted_id ≡ l.persisted_id
unfolding act_all
act_all-persisted [] l h = refl
act_all-persisted (a ∷ as_) l h =
    act_all-persisted as_ (act a l) (ground (arith, h)) ∙ act-persisted a l (ground (arith, h))

-- A write lock that is given has found the origin of the attempt.
checked_origin :
    (l : Lineage) (s : Session) (source : String) (g : SessionWriteGuard)
    → (begin_backend_write l s (some source) false).0 ≡ ready (ok g)
    → persistence_origin (begin_backend_write l s (some source) false).1 s ≡ ok (some source)
unfolding begin_backend_write check_write recheck_origin
checked_origin l s source g h = elim (Result-cases (persistence_origin l s)) [
  | inl (e, bad) ↦ absurd (unfold persistence_origin in ground (arith, bad, h))
  | inr (o, good) ↦ unfold persistence_origin in ground (arith, good, h, opt_eq_iff o (some source))
]

lock_given :
    (sched : Schedule) (s : Session) (attempt : Option String) (snap : Owned) (r : SaveRevision)
    (lock : Poll (Result SessionWriteGuard)) (l : Lineage) (st : MemoryState)
    (cookie : Option String)
    → (locked_records sched s attempt snap r lock l st).answer ≡ ready (ok cookie)
    → (g : SessionWriteGuard) × (lock ≡ ready (ok g))
unfolding locked_records
lock_given sched s attempt snap r pending l st cookie h = cc
lock_given sched s attempt snap r (ready (err e)) l st cookie h = cc
lock_given sched s attempt snap r (ready (ok g)) l st cookie h = (g, refl)

attempted_given :
    (sched : Schedule) (s : Session) (source : String) (l : Lineage) (st : MemoryState)
    (cookie : Option String) (a : Result (Option String))
    → a ≡ ok (some source)
    → (attempted_records sched s a l st).answer ≡ ready (ok cookie)
    → (g : SessionWriteGuard) × ((lock_answer sched s (some source) l).0 ≡ ready (ok g))
unfolding attempted_records
attempted_given sched s source l st cookie (err e) known h = cc
attempted_given sched s source l st cookie (ok none) known h = cc
attempted_given sched s source l st cookie (ok (some o)) known h =
    let (g, e) =
      lock_given sched s (some o) (snapshot l s) (capture_revision l).0
        (lock_answer sched s (some o) l).0 (lock_answer sched s (some o) l).1 st cookie h in
    (g, subst (λ o. (lock_answer sched s (some o) l).0 ≡ ready (ok g)) (same known) e)
  where
    same : ok (some o) ≡ ok (some source) → o ≡ source
    same k = cc

module _ (sched : Schedule) (s : Session) (l : Lineage) (st : MemoryState) (cookie : Option String)
    (h : (store_session sched s l st).answer ≡ ready (ok cookie)) where
  -- The origin that a save reads again is the one that its attempt claimed, unless another handle
  -- completes a save meanwhile.
  kept_origin :
      has_persists sched.before_state ≡ false
      → let (attempt, _, d) = store_session-eq-ok sched s l st cookie h in
        d.committed.origin ≡ attempt
  kept_origin still =
      let (attempt, e, d) = store_session-eq-ok sched s l st cookie h in
      reread attempt d.committed.origin e d.committed.reread
    where
      reread :
          (attempt origin : Option String)
          → (persistence_attempt l s).0 ≡ ok attempt
          → current_origin
              (act_all sched.before_state (lock_answer sched s attempt (claimed l s)).1)
              s
              attempt
            ≡ ok origin
          → origin ≡ attempt
      reread none origin known k = unfold current_origin in ground (arith, k)
      reread (some source) origin known k =
          let (g, given) =
            attempted_given sched s source (claimed l s) st cookie (persistence_attempt l s).0 known
              (unfold store_session in h) in
          let held = (lock_answer sched s (some source) (claimed l s)).1 in
          let checked =
            checked_origin (act_all sched.before_lock (persistence_snapshot (claimed l s) s).2) s
              source g given in
          let again =
            origin_kept held (act_all sched.before_state held) s (some source)
              (act_all-persisted sched.before_state held still) checked (λ k. cc) in
          unfold current_origin in ground (arith, k, again)

  -- What a save found and left.
  found_records :
      has_persists sched.before_state ≡ false
      → Found
          (λ id. Maps.get id st.records)
          (λ id. Maps.get id (store_session sched s l st).state.records)
          s.id
          (persistence_attempt l s).0
  found_records still =
      let (attempt, e, d) = store_session-eq-ok sched s l st cookie h in
      let c = d.committed in
      let same = kept_origin still in
      (
        c.origin,
        e ∙ ap ok (sym same),
        there c.origin c.source c.no_collision,
        λ j.
            ap is_some (
              get-committed
                (act_all sched.before_state (lock_answer sched s attempt (claimed l s)).1) s attempt
                (snapshot (claimed l s) s) st (store_session sched s l st).state c j)
            ∙ is_some-saved c.origin s.id (mark_loaded (snapshot (claimed l s) s)) j
                (Maps.get j st.records),
      )
    where
      there :
          (origin : Option String)
          → has_source origin st ≡ true
          → (opt_eq origin (some s.id) || not (Maps.contains_key s.id st.records)) ≡ true
          → (origin ≡ none) × (Maps.get s.id st.records ≡ none)
            ⊎ ((source : String) × (origin ≡ some source)
                × (is_some (Maps.get source st.records) ≡ true))
      there none a b = inl (refl, unfold Maps.contains_key in ground (arith, b))
      there (some o) a b = inr (o, refl, unfold has_source Maps.contains_key in a)

destroys_record :
    (s : Session) (l : Lineage) (st : MemoryState)
    → (destroy_session s l st).0 ≡ ready (ok tt)
    → Maps.contains_key (deletion_target l s) (destroy_session s l st).2.records ≡ false
unfolding Maps.contains_key
destroys_record s l st h =
    let free : l.lifecycle.locked ≡ false =
      unfold destroy_session begin_delete in ground (arith, h) in
    let sure : l.lifecycle.uncertain ≡ false =
      unfold destroy_session begin_delete in ground (arith, h) in
    let (_, effect, _, _) = destroy_session_revokes s s l st st [] quiet free sure in
    let absent : Maps.get (deletion_target l s) (destroy_session s l st).2.records ≡ none =
      effect (deletion_target l s) ∙ ground (arith, str_eq_refl (deletion_target l s)) in
    ap is_some absent

module _ (x : External) (sched : Schedule) (now : ℕ) where
  unfoldable pub memory_store : SessionStore MemoryState
  unfolding load_session store_session destroy_session clear_store
  memory_store = record {
    load_session = load_session x now;
    store_session = λ s l st.
        let saved = store_session sched s l st in
        record { answer = saved.answer; lineage = saved.lineage; rows = saved.state };
    destroy_session = destroy_session;
    clear_store = λ st. (ready (ok tt), clear_store st);
  }

  loaded_record :
      (cookie : String) (st : MemoryState) (o : Owned)
      → load_session x now cookie st ≡ ok (some o)
      → (is_some (Maps.get o.session.id st.records) ≡ true)
        × (persistence_origin o.lineage o.session ≡ ok (some o.session.id))
        × (data_changed o.lineage o.session ≡ false)
  unfolding persistence_origin data_changed is_dirty new_lineage
  loaded_record cookie st o h =
      let (r, here, e) = loaded_family x now cookie st o h in
      (
        ap (λ p. is_some (Maps.get p.session.id st.records)) e ∙ ap is_some here,
        rw e (ground (arith, str_eq_refl r.session.id)),
        rw e refl,
      )

  pub memory-IsRevoking :
      has_persists sched.before_state ≡ false
      → IsRevoking memory_store (λ id st. Maps.contains_key id st.records)
  unfolding memory_store Maps.contains_key
  memory-IsRevoking still = record {
    creates = λ s l st cookie first h.
        first_found (λ id. Maps.get id st.records)
          (λ id. Maps.get id (store_session sched s l st).state.records) s.id
          (persistence_attempt l s).0 first (found_records sched s l st (some cookie) h still);
    updates = λ s l st cookie source known h.
        source_found (λ id. Maps.get id st.records)
          (λ id. Maps.get id (store_session sched s l st).state.records) s.id
          (persistence_attempt l s).0 source known
          (found_records sched s l st (some cookie) h still);
    stores = λ s l st cookie h.
        let (origin, known, _, left) = found_records sched s l st (some cookie) h still in
        (origin, known, left);
    loads = loaded_record;
    destroys = λ s l st h. destroys_record s l st h;
    clears = λ id st h. unfold Maps.contains_key Maps.get in refl;
  }
