-- ===== src/Memory/Revocation.antt =====
-- Destruction in src/memory_store.rs: a destroyed session is not saved, and a save that destruction
-- overtakes leaves no record.
use saysion.Prelude.{
  String, ◌≡◌, ◌≢◌, refl, ap, Bool, true, false, ◌||◌, Option, none, List, [], ◌∷◌, arith, str_eq,
  str_eq_refl, if◌then◌else◌, Bool-cases, inl, inr, session_conflict, Result, ok, err, Result-cases,
}
use saysion.Maps
use saysion.Lifecycle.{Poll, pending, ready, SessionWriteGuard}
use saysion.Session.State.{Lineage, Session, Owned}
use saysion.Session.Revision.{SaveRevision}
use saysion.Session.Identity.{persistence_attempt, mark_persisted}
use saysion.Session.Persist.{
  snapshot, persistence_snapshot, begin_backend_write, recheck_origin, deletion_target,
}
use saysion.Session.Actions.{
  Action, inserts, removes, destroys, resets, captures, acknowledges, drops, attempts, persists,
  act, act_all,
}
use saysion.Memory.State.{MemoryState, remove}
use saysion.Memory.Index.{get-remove_state}
use saysion.Memory.Store.{
  Schedule, commit_records, finish_records, write_records, locked_records, attempted_records,
  store_session, destroy_session,
}
use saysion.Memory.Saves.{store_session-eq-ok, claimed, lock_answer}

act-destroy : (a : Action) (l : Lineage) → l.destroy ≡ true → (act a l).destroy ≡ true
unfolding act
act-destroy (inserts key value) l h = h
act-destroy (removes key) l h = h
act-destroy destroys l h = refl
act-destroy resets l h = h
act-destroy captures l h = h
act-destroy (acknowledges r) l h = h
act-destroy (drops r) l h = h
act-destroy (attempts s) l h = unfold persistence_attempt in ground arith
act-destroy (persists s) l h = unfold mark_persisted in ground arith

-- No action of another handle takes a destruction back.
pub act_all-destroy :
    (as_ : List Action) (l : Lineage) → l.destroy ≡ true → (act_all as_ l).destroy ≡ true
unfolding act_all
act_all-destroy [] l h = h
act_all-destroy (a ∷ as_) l h = act_all-destroy as_ (act a l) (act-destroy a l h)

abbrev pub is_destroys : Action → Bool
is_destroys destroys = true
is_destroys _ = false

abbrev pub has_destroys : List Action → Bool
has_destroys [] = false
has_destroys (a ∷ as_) = is_destroys a || has_destroys as_

act-destroys : (a : Action) (l : Lineage) → is_destroys a ≡ true → (act a l).destroy ≡ true
unfolding act
act-destroys destroys l h = refl
act-destroys _ l h = cc

act_all-destroys :
    (as_ : List Action) (l : Lineage) → has_destroys as_ ≡ true → (act_all as_ l).destroy ≡ true
unfolding act_all
act_all-destroys [] l h = cc
act_all-destroys (a ∷ as_) l h = elim (Bool-cases (is_destroys a)) [
  | inl e ↦ act_all-destroy as_ (act a l) (act-destroys a l e)
  | inr e ↦ act_all-destroys as_ (act a l) (ground arith)
]

begin_backend_write-destroy :
    (l : Lineage) (s : Session) (origin : Option String) (b : Bool)
    → (begin_backend_write l s origin b).1.destroy ≡ l.destroy
unfolding begin_backend_write recheck_origin
begin_backend_write-destroy l s origin b = ground arith

-- Taking the write lock leaves the flag alone.
lock_answer-destroy :
    (sched : Schedule) (s : Session) (attempt : Option String) (l : Lineage)
    → (lock_answer sched s attempt l).1.destroy
      ≡ (act_all sched.before_lock (persistence_snapshot l s).2).destroy
lock_answer-destroy sched s attempt l =
    begin_backend_write-destroy (act_all sched.before_lock (persistence_snapshot l s).2) s attempt
      false

-- A save during which another handle destroys the session does not succeed.
pub destroyed_save_fails :
    (sched : Schedule) (s : Session) (l : Lineage) (st : MemoryState) (cookie : Option String)
    → (has_destroys sched.before_lock
        || has_destroys sched.before_state
        || has_destroys sched.before_finish)
      ≡ true
    → (store_session sched s l st).answer ≢ ready (ok cookie)
destroyed_save_fails sched s l st cookie d h =
    let (attempt, e, stored) = store_session-eq-ok sched s l st cookie h in
    let held = (lock_answer sched s attempt (claimed l s)).1 in
    let waiting = (persistence_snapshot (claimed l s) s).2 in
    ground (
      arith,
      stored.kept_alive,
      act_all-destroys sched.before_lock waiting,
      lock_answer-destroy sched s attempt (claimed l s),
      act_all-destroy sched.before_state held,
      act_all-destroys sched.before_state held,
      act_all-destroy sched.before_finish (act_all sched.before_state held),
      act_all-destroys sched.before_finish (act_all sched.before_state held),
    )

write_records-absent :
    (sched : Schedule) (s : Session) (attempt : Option String) (snap : Owned) (r : SaveRevision)
    (g : SessionWriteGuard) (l : Lineage) (st : MemoryState)
    → (act_all sched.before_finish (act_all sched.before_state l)).destroy ≡ true
    → Maps.get s.id st.records ≡ none
    → Maps.get s.id (write_records sched s attempt snap r g l st).state.records ≡ none
unfolding write_records
write_records-absent sched s attempt snap r g l st d h =
    elim (Result-cases (commit_records (act_all sched.before_state l) s attempt snap st)) [
      | inl (e, bad) ↦ rw (bad, write_records) h
      | inr (st', good) ↦
          rw (good, write_records, d, finish_records)
            (rw (get-remove_state s.id s.id st', str_eq_refl s.id))
    ]

locked_records-absent :
    (sched : Schedule) (s : Session) (attempt : Option String) (snap : Owned) (r : SaveRevision)
    (lock : Poll (Result SessionWriteGuard)) (l : Lineage) (st : MemoryState)
    → (act_all sched.before_finish (act_all sched.before_state l)).destroy ≡ true
    → Maps.get s.id st.records ≡ none
    → Maps.get s.id (locked_records sched s attempt snap r lock l st).state.records ≡ none
unfolding locked_records
locked_records-absent sched s attempt snap r pending l st d h = h
locked_records-absent sched s attempt snap r (ready (err e)) l st d h = h
locked_records-absent sched s attempt snap r (ready (ok g)) l st d h =
    write_records-absent sched s attempt snap r g l st d h

attempted_records-absent :
    (sched : Schedule) (s : Session) (attempt : Result (Option String)) (l : Lineage)
    (st : MemoryState)
    → (has_destroys sched.before_lock
        || has_destroys sched.before_state
        || has_destroys sched.before_finish)
      ≡ true
    → Maps.get s.id st.records ≡ none
    → Maps.get s.id (attempted_records sched s attempt l st).state.records ≡ none
unfolding attempted_records
attempted_records-absent sched s (err e) l st d h = h
attempted_records-absent sched s (ok attempt) l st d h =
    locked_records-absent sched s attempt (snapshot l s) (persistence_snapshot l s).1
      (lock_answer sched s attempt l).0 (lock_answer sched s attempt l).1 st dead h
  where
    held : Lineage
    held = (lock_answer sched s attempt l).1

    dead : (act_all sched.before_finish (act_all sched.before_state held)).destroy ≡ true
    dead = ground (
      arith,
      act_all-destroys sched.before_lock (persistence_snapshot l s).2,
      lock_answer-destroy sched s attempt l,
      act_all-destroy sched.before_state held,
      act_all-destroys sched.before_state held,
      act_all-destroy sched.before_finish (act_all sched.before_state held),
      act_all-destroys sched.before_finish (act_all sched.before_state held),
    )

-- A save that creates a record, and that a destruction by another handle overtakes before it
-- finishes, leaves no record of its identity behind.
pub destroyed_save_leaves_no_record :
    (sched : Schedule) (s : Session) (l : Lineage) (st : MemoryState)
    → (has_destroys sched.before_lock
        || has_destroys sched.before_state
        || has_destroys sched.before_finish)
      ≡ true
    → Maps.get s.id st.records ≡ none
    → Maps.get s.id (store_session sched s l st).state.records ≡ none
unfolding store_session
destroyed_save_leaves_no_record sched s l st d h =
    attempted_records-absent sched s (persistence_attempt l s).0 (claimed l s) st d h

-- Every save of a destroyed family is refused before it touches the store.
destroyed_family-store :
    (sched : Schedule) (s : Session) (l : Lineage) (st : MemoryState)
    → l.destroy ≡ true
    → ((store_session sched s l st).answer ≡ ready (err session_conflict))
      × ((store_session sched s l st).state ≡ st)
unfolding store_session
destroyed_family-store sched s l st h =
    let refused : persistence_attempt l s ≡ (err session_conflict, l) =
      unfold persistence_attempt in ground arith in
    (rw (refused, attempted_records), rw (refused, attempted_records))

destroy_session-ready :
    (s : Session) (l : Lineage) (st : MemoryState)
    → l.lifecycle.locked ≡ false
    → l.lifecycle.uncertain ≡ false
    → destroy_session s l st
      ≡ (ready (ok tt), record l { destroy = true }, (remove (deletion_target l s) st).1)
unfolding destroy_session
destroy_session-ready s l st a b = ground arith

-- `destroy_session` on a family with no live guard and no uncertain write succeeds: the record of
-- its deletion target is gone and every other record is as it was; and from then on, whatever
-- happens to the family and to the store, each save by any handle of the family is refused with a
-- conflict and leaves the store as it finds it.
pub destroy_session_revokes :
    (s h : Session) (l : Lineage) (st later : MemoryState) (as_ : List Action) (sched : Schedule)
    → l.lifecycle.locked ≡ false
    → l.lifecycle.uncertain ≡ false
    → ((destroy_session s l st).0 ≡ ready (ok tt))
      × ((j : String)
          → Maps.get j (destroy_session s l st).2.records
            ≡ (if str_eq (deletion_target l s) j then none else Maps.get j st.records))
      × ((store_session sched h (act_all as_ (destroy_session s l st).1) later).answer
          ≡ ready (err session_conflict))
      × ((store_session sched h (act_all as_ (destroy_session s l st).1) later).state ≡ later)
destroy_session_revokes s h l st later as_ sched a b =
    let e = destroy_session-ready s l st a b in
    let refused =
      destroyed_family-store sched h (act_all as_ (record l { destroy = true })) later
        (act_all-destroy as_ (record l { destroy = true }) refl) in
    (
      ap (λ r. r.0) e,
      λ j. rw e (get-remove_state (deletion_target l s) j st),
      rw e refused.0,
      rw e refused.1,
    )
