-- ===== src/Memory/Saves.antt =====
-- What `store_session` of src/memory_store.rs does to the records.
use saysion.Prelude.{
  String, ◌≡◌, refl, ap, true, false, not, ◌||◌, ◌⊎◌, Option, none, some, arith, opt_eq, str_eq,
  str_eq_iff, if◌then◌else◌, Bool-cases, inl, inr, is_some, session_conflict, Result, ok, err,
  ensure, >>=-eq-ok, ensure-true, ensure-not, Result-cases,
}
use saysion.Maps
use saysion.Lifecycle.{Poll, pending, ready, SessionWriteGuard}
use saysion.Session.State.{Lineage, Session, Owned}
use saysion.Session.Revision.{SaveRevision}
use saysion.Session.Identity.{persistence_attempt}
use saysion.Session.Persist.{
  snapshot, capture_revision, persistence_snapshot, begin_backend_write, mark_loaded,
}
use saysion.Session.Actions.{act_all}
use saysion.Memory.State.{MemoryState, insert, remove}
use saysion.Memory.Index.{
  IsConsistent, get-remove_state, get-insert_state, remove-IsConsistent, insert-IsConsistent,
}
use saysion.Memory.Store.{
  Schedule, current_origin, has_source, retire, commit_records, finish_records, write_records,
  locked_records, attempted_records, store_session,
}

-- What a save with the given origin makes of a record: an abstract view of the store, in which a
-- save writes its own record and takes its source away.
abbrev pub replaced : String → Option String → Owned → String → Option Owned → Option Owned
replaced id origin o j old =
    if str_eq id j then some o else if opt_eq origin (some j) then none else old

retire-get :
    (s : Session) (origin : Option String) (st st' : MemoryState) (j : String)
    → retire s origin st ≡ ok st'
    → str_eq s.id j ≡ false
    → Maps.get j st'.records ≡ (if opt_eq origin (some j) then none else Maps.get j st.records)
unfolding retire
retire-get s none st st' j h n = ground arith
retire-get s (some o) st st' j h n =
    ground (arith, get-remove_state o j st, str_eq_iff o s.id, str_eq_iff o j, str_eq_iff s.id j)

-- A save either leaves the other records, or removes its source.
retire_cases :
    (s : Session) (origin : Option String) (st st' : MemoryState)
    → retire s origin st ≡ ok st'
    → ((origin ≡ none) × (st' ≡ st))
      ⊎ ((origin ≡ some s.id) × (st' ≡ st))
      ⊎ ((o : String) × (origin ≡ some o)
          × (str_eq o s.id ≡ false)
          × (is_some (remove o st).0 ≡ true)
          × (st' ≡ (remove o st).1))
unfolding retire
retire_cases s none st st' h = inl (refl, ground arith)
retire_cases s (some o) st st' h = elim (Bool-cases (str_eq o s.id)) [
  | inl same ↦ inr (inl (ap some ((str_eq_iff o s.id).0 same), ground arith))
  | inr other ↦ inr (inr (o, refl, other, ground arith, ground arith))
]

retire-IsConsistent :
    (s : Session) (origin : Option String) (st st' : MemoryState)
    → retire s origin st ≡ ok st'
    → IsConsistent st
    → IsConsistent st'
retire-IsConsistent s origin st st' h v = elim (retire_cases s origin st st' h) [
  | inl (_, e) ↦ rw e v
  | inr (inl (_, e)) ↦ rw e v
  | inr (inr (o, _, _, _, e)) ↦ rw e (remove-IsConsistent o st v)
]

-- What a commit that succeeds has checked, and what it did.
pub record Committed (l : Lineage) (s : Session) (attempt : Option String) (snap : Owned)
    (st st' : MemoryState) : Type 0 where
  pub origin : Option String
  pub middle : MemoryState
  pub reread : current_origin l s attempt ≡ ok origin
  pub alive : l.destroy ≡ false
  pub source : has_source origin st ≡ true
  pub no_collision : (opt_eq origin (some s.id) || not (Maps.contains_key s.id st.records)) ≡ true
  pub retired : retire s origin st ≡ ok middle
  pub inserted : st' ≡ (insert s.id (mark_loaded snap) middle).1

pub commit_records-eq-ok :
    (l : Lineage) (s : Session) (attempt : Option String) (snap : Owned) (st st' : MemoryState)
    → commit_records l s attempt snap st ≡ ok st'
    → Committed l s attempt snap st st'
unfolding commit_records
commit_records-eq-ok l s attempt snap st st' h =
    let (origin, e₁, h₁) = >>=-eq-ok (current_origin l s attempt) _ h in
    let (u₂, e₂, h₂) = >>=-eq-ok (ensure (not l.destroy) session_conflict) _ h₁ in
    let (u₃, e₃, h₃) = >>=-eq-ok (ensure (has_source origin st) session_conflict) _ h₂ in
    let (u₄, e₄, h₄) =
      >>=-eq-ok
        (ensure (opt_eq origin (some s.id) || not (Maps.contains_key s.id st.records))
          session_conflict)
        _ h₃ in
    let (m, e₅, h₅) = >>=-eq-ok (retire s origin st) _ h₄ in
    record {
      origin = origin;
      middle = m;
      reread = e₁;
      alive = ensure-not _ _ e₂;
      source = ensure-true _ _ e₃;
      no_collision = ensure-true _ _ e₄;
      retired = e₅;
      inserted = ground arith;
    }

module _ (l : Lineage) (s : Session) (attempt : Option String) (snap : Owned) (st st' : MemoryState)
    (c : Committed l s attempt snap st st') where
  pub get-committed :
      (j : String)
      → Maps.get j st'.records ≡ replaced s.id c.origin (mark_loaded snap) j (Maps.get j st.records)
  get-committed j = ground (
    arith,
    c.inserted,
    get-insert_state s.id j (mark_loaded snap) c.middle,
    retire-get s c.origin st c.middle j c.retired,
  )

  pub committed-IsConsistent : IsConsistent st → IsConsistent st'
  committed-IsConsistent v = rw c.inserted (
      insert-IsConsistent s.id (mark_loaded snap) c.middle
        (retire-IsConsistent s c.origin st c.middle c.retired v))

finish_records-eq-ok :
    (sched : Schedule) (s : Session) (r : SaveRevision) (g : SessionWriteGuard) (l : Lineage)
    (st : MemoryState) (cookie : Option String)
    → (finish_records sched s r g l st).answer ≡ ready (ok cookie)
    → ((act_all sched.before_finish l).destroy ≡ false)
      × (cookie ≡ s.cookie_value)
      × ((finish_records sched s r g l st).state ≡ st)
unfolding finish_records
finish_records-eq-ok sched s r g l st cookie h =
    elim (Bool-cases (act_all sched.before_finish l).destroy) [
      | inl dead ↦ ground (arith, dead)
      | inr live ↦ (live, ground arith, ground arith)
    ]

-- What a save that succeeds went through once its guard was held, up to the issue of its cookie.
pub record Stored (sched : Schedule) (s : Session) (attempt : Option String) (snap : Owned)
    (l : Lineage) (st st' : MemoryState) (cookie : Option String) : Type 0 where
  pub committed : Committed (act_all sched.before_state l) s attempt snap st st'
  pub kept_alive : (act_all sched.before_finish (act_all sched.before_state l)).destroy ≡ false
  pub issued : cookie ≡ s.cookie_value

write_records-eq-ok :
    (sched : Schedule) (s : Session) (attempt : Option String) (snap : Owned) (r : SaveRevision)
    (g : SessionWriteGuard) (l : Lineage) (st : MemoryState) (cookie : Option String)
    → (write_records sched s attempt snap r g l st).answer ≡ ready (ok cookie)
    → Stored sched s attempt snap l st (write_records sched s attempt snap r g l st).state cookie
unfolding write_records
write_records-eq-ok sched s attempt snap r g l st cookie h =
    elim (Result-cases (commit_records (act_all sched.before_state l) s attempt snap st)) [
      | inl (e, bad) ↦ absurd (ground (arith, bad))
      | inr (st', good) ↦
          let fin =
            finish_records-eq-ok sched s r g (act_all sched.before_state l) st' cookie
              (ground (arith, good)) in
          record {
            committed =
                rw (good, write_records, fin.2)
                  (commit_records-eq-ok (act_all sched.before_state l) s attempt snap st st' good);
            kept_alive = fin.0;
            issued = fin.1;
          }
    ]

locked_records-eq-ok :
    (sched : Schedule) (s : Session) (attempt : Option String) (snap : Owned) (r : SaveRevision)
    (lock : Poll (Result SessionWriteGuard)) (l : Lineage) (st : MemoryState)
    (cookie : Option String)
    → (locked_records sched s attempt snap r lock l st).answer ≡ ready (ok cookie)
    → Stored sched s attempt snap l st
        (locked_records sched s attempt snap r lock l st).state
        cookie
unfolding locked_records
locked_records-eq-ok sched s attempt snap r pending l st cookie h = cc
locked_records-eq-ok sched s attempt snap r (ready (err e)) l st cookie h = cc
locked_records-eq-ok sched s attempt snap r (ready (ok g)) l st cookie h =
    write_records-eq-ok sched s attempt snap r g l st cookie h

-- The answer of the write lock, and the lineage then.
abbrev pub lock_answer :
    Schedule → Session → Option String → Lineage → Poll (Result SessionWriteGuard) × Lineage
lock_answer sched s attempt l =
    begin_backend_write (act_all sched.before_lock (persistence_snapshot l s).2) s attempt false

attempted_records-eq-ok :
    (sched : Schedule) (s : Session) (attempt : Option String) (l : Lineage) (st : MemoryState)
    (cookie : Option String)
    → (attempted_records sched s (ok attempt) l st).answer ≡ ready (ok cookie)
    → Stored sched s attempt
        (snapshot l s)
        (lock_answer sched s attempt l).1
        st
        (attempted_records sched s (ok attempt) l st).state
        cookie
unfolding attempted_records
attempted_records-eq-ok sched s attempt l st cookie h =
    locked_records-eq-ok sched s attempt (snapshot l s) (capture_revision l).0
      (lock_answer sched s attempt l).0 (lock_answer sched s attempt l).1 st cookie h

-- The lineage that a save's attempt leaves, and in which it goes on.
abbrev pub claimed : Lineage → Session → Lineage
claimed l s = (persistence_attempt l s).1

pub store_session-eq-ok :
    (sched : Schedule) (s : Session) (l : Lineage) (st : MemoryState) (cookie : Option String)
    → (store_session sched s l st).answer ≡ ready (ok cookie)
    → (attempt : Option String) × ((persistence_attempt l s).0 ≡ ok attempt)
      × Stored sched s attempt
          (snapshot (claimed l s) s)
          (lock_answer sched s attempt (claimed l s)).1
          st
          (store_session sched s l st).state
          cookie
unfolding store_session
store_session-eq-ok sched s l st cookie h = go (persistence_attempt l s).0 refl h
  where
    go :
        (r : Result (Option String))
        → (persistence_attempt l s).0 ≡ r
        → (attempted_records sched s r (claimed l s) st).answer ≡ ready (ok cookie)
        → (attempt : Option String) × ((persistence_attempt l s).0 ≡ ok attempt)
          × Stored sched s attempt
              (snapshot (claimed l s) s)
              (lock_answer sched s attempt (claimed l s)).1
              st
              (attempted_records sched s r (claimed l s) st).state
              cookie
    go (err e) q k = unfold attempted_records in cc
    go (ok attempt) q k =
        (attempt, q, attempted_records-eq-ok sched s attempt (claimed l s) st cookie k)
