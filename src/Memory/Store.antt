-- ===== src/Memory/Store.antt =====
-- src/memory_store.rs: `SessionStore for MemoryStore`. A save awaits two locks, so that other
-- handles act between its parts; a `Schedule` lists what they do, and the records are those that
-- the save finds when it holds the store's lock.
use saysion.Prelude.{
  ℕ, String, Bool, true, false, not, ◌||◌, Option, none, some, List, session_conflict, Result, ok,
  err, ◌>>=◌, ◌>>◌, ensure, opt_eq, str_eq, is_some, if◌then◌else◌,
}
use saysion.Maps
use saysion.Lifecycle.{Poll, pending, ready, SessionWriteGuard, finish}
use saysion.Session.Revision.{SaveRevision}
use saysion.Session.State.{Lineage, Session, Owned, is_expired, into_cookie_value}
use saysion.Session.Identity.{persistence_attempt, persistence_origin, mark_persisted}
use saysion.Session.Cookies.{External, id_from_cookie_value}
use saysion.Session.Persist.{
  snapshot, persistence_snapshot, begin_backend_write, begin_delete, release_write, release_delete,
  acknowledge_revision, abandon_revision, mark_loaded, validate_loaded,
}
use saysion.Session.Actions.{Action, act_all}
use saysion.Memory.State.{MemoryState, insert, remove, clear}

pub record Schedule : Type 0 where
  pub before_lock : List Action
  pub before_state : List Action
  pub before_finish : List Action
  pub after_finish : List Action

pub record Outcome : Type 0 where
  pub answer : Poll (Result (Option String))
  pub lineage : Lineage
  pub state : MemoryState

-- The origin is read again under the store's lock, if the attempt had one.
unfoldable pub current_origin : Lineage → Session → Option String → Result (Option String)
unfolding persistence_origin
current_origin l s none = ok none
current_origin l s (some origin) = persistence_origin l s

unfoldable pub has_source : Option String → MemoryState → Bool
has_source none st = true
has_source (some source) st = Maps.contains_key source st.records

-- A rotation removes its source.
unfoldable pub retire : Session → Option String → MemoryState → Result MemoryState
unfolding remove
retire s none st = ok st
retire s (some old_id) st =
    if str_eq old_id s.id
    then ok st
    else let (previous, st') = remove old_id st in
      if is_some previous then ok st' else err session_conflict

-- The part of `store_session` under the store's lock, up to the insertion.
unfoldable pub commit_records :
    Lineage → Session → Option String → Owned → MemoryState → Result MemoryState
unfolding current_origin has_source retire insert mark_loaded
commit_records l s attempt snap st = do
  origin ← current_origin l s attempt
  ensure (not l.destroy) session_conflict
  ensure (has_source origin st) session_conflict
  ensure (opt_eq origin (some s.id) || not (Maps.contains_key s.id st.records)) session_conflict
  st' ← retire s origin st
  ok (insert s.id (mark_loaded snap) st').1

-- An early return drops the token and the guard.
unfoldable pub abort_write : SaveRevision → SessionWriteGuard → Lineage → Lineage
unfolding release_write abandon_revision
abort_write r g l = release_write g (abandon_revision r l)

unfoldable pub confirm_write :
    List Action → Session → SaveRevision → SessionWriteGuard → Lineage → Lineage
unfolding mark_persisted acknowledge_revision release_write act_all
confirm_write others s r g l =
    release_write g (acknowledge_revision r (mark_persisted (act_all others l) s) s).0

-- The rest of `store_session` once the insertion is made.
unfoldable pub finish_records :
    Schedule → Session → SaveRevision → SessionWriteGuard → Lineage → MemoryState → Outcome
unfolding finish remove abort_write confirm_write act_all into_cookie_value
finish_records sched s r g l st =
    let l' = act_all sched.before_finish l in
    let (settled, g') = finish l'.destroy g in
    elim settled [
      | err e ↦ record {
        answer = ready (err e);
        lineage = abort_write r g' l';
        state = (remove s.id st).1;
      }
      | ok _ ↦ record {
        answer = ready (ok (into_cookie_value s));
        lineage = confirm_write sched.after_finish s r g' l';
        state = st;
      }
    ]

-- The part of `store_session` that holds the write guard.
unfoldable pub write_records :
    Schedule
    → Session
    → Option String
    → Owned
    → SaveRevision
    → SessionWriteGuard
    → Lineage
    → MemoryState
    → Outcome
unfolding commit_records abort_write finish_records act_all
write_records sched s attempt snap r g l st =
    let l' = act_all sched.before_state l in
    elim (commit_records l' s attempt snap st) [
      | err e ↦ record { answer = ready (err e); lineage = abort_write r g l'; state = st }
      | ok st' ↦ finish_records sched s r g l' st'
    ]

-- The part of `store_session` from the answer of the write lock on.
unfoldable pub locked_records :
    Schedule
    → Session
    → Option String
    → Owned
    → SaveRevision
    → Poll (Result SessionWriteGuard)
    → Lineage
    → MemoryState
    → Outcome
unfolding abandon_revision write_records
locked_records sched s attempt snap r pending l st = record {
  answer = pending;
  lineage = l;
  state = st;
}
locked_records sched s attempt snap r (ready (err e)) l st = record {
  answer = ready (err e);
  lineage = abandon_revision r l;
  state = st;
}
locked_records sched s attempt snap r (ready (ok g)) l st =
    write_records sched s attempt snap r g l st

-- The part of `store_session` from the answer of `persistence_attempt` on.
unfoldable pub attempted_records :
    Schedule → Session → Result (Option String) → Lineage → MemoryState → Outcome
unfolding persistence_snapshot begin_backend_write locked_records act_all
attempted_records sched s (err e) l st = record { answer = ready (err e); lineage = l; state = st }
attempted_records sched s (ok attempt) l st =
    let (snap, r, l₁) = persistence_snapshot l s in
    let (lock, l₂) = begin_backend_write (act_all sched.before_lock l₁) s attempt false in
    locked_records sched s attempt snap r lock l₂ st

unfoldable pub store_session : Schedule → Session → Lineage → MemoryState → Outcome
unfolding persistence_attempt attempted_records
store_session sched s l st =
    let (attempt, l₁) = persistence_attempt l s in attempted_records sched s attempt l₁ st

-- `destroy_session`: the answer is `pending` while a guard of the family is alive.
unfoldable pub destroy_session :
    Session → Lineage → MemoryState → Poll (Result (Unit {0})) × Lineage × MemoryState
unfolding begin_delete release_delete remove
destroy_session s l st =
    let (answer, l') = begin_delete l s in
    elim answer [
      | pending ↦ (pending, l', st)
      | ready (err e) ↦ (ready (err e), l', st)
      | ready (ok g) ↦ (ready (ok tt), release_delete l', (remove g.id st).1)
    ]

unfoldable pub clear_store : MemoryState → MemoryState
unfolding clear
clear_store st = clear st

unfoldable pub count : MemoryState → ℕ
count st = Maps.size st.records

module _ (x : External) where
  -- The lookup of `load_session`: an expired record is not copied.
  unfoldable pub find_live : ℕ → String → MemoryState → Option Owned
  unfolding is_expired snapshot
  find_live now id st = elim (Maps.get id st.records) [
    | none ↦ none
    | some o ↦ if is_expired now o.session then none else some (snapshot o.lineage o.session)
  ]

  -- The snapshot is the only handle of its data when it is validated.
  unfoldable pub load_session : ℕ → String → MemoryState → Result (Option Owned)
  unfolding id_from_cookie_value find_live validate_loaded
  load_session now cookie_value st = do
    id ← id_from_cookie_value x cookie_value
    elim (find_live now id st) [
      | none ↦ ok none
      | some o ↦ validate_loaded x now false cookie_value o
    ]
