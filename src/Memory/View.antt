-- ===== src/Memory/View.antt =====
-- src/memory_store.rs as calls that its clients see the answers of, and an abstract store of records
-- which tells, for each call, what it may answer and what that makes of the records.
use saysion.Prelude.{
  ℕ, ◌≤◌, String, ◌≡◌, ◌≢◌, true, false, ◌&&◌, ◌⊎◌, Option, none, some, List, [], ◌∷◌, Result, ok,
  err, session_conflict, opt_eq, str_eq, is_some, if◌then◌else◌, length, ◌>>=◌,
}
use saysion.Maps
use saysion.Session.State.{Lineage, Session, Owned, is_expired}
use saysion.Session.Cookies.{External, id_from_cookie_value}
use saysion.Lifecycle.{Poll, ready}
use saysion.Session.Identity.{persistence_attempt}
use saysion.Session.Persist.{snapshot, validate_loaded, deletion_target}
use saysion.Session.Actions.{act_all}
use saysion.Memory.State.{MemoryState}
use saysion.Memory.Store.{
  Schedule, current_origin, store_session, destroy_session, clear_store, load_session,
}
use saysion.Memory.Cleanup.{remove_batch}
use saysion.Memory.Batches.{mem, is_stale}
use saysion.Memory.Saves.{replaced, claimed, lock_answer}
use saysion.Memory.Outcomes.{saved_record}
use saysion.Memory.Answers.{is_accepted}

abbrev pub View : Type 0
View = String → Option Owned

abbrev pub view : MemoryState → View
view st = λ j. Maps.get j st.records

-- Each call is one critical section of the store's lock: a cleanup has one for each of its chunks,
-- of candidates that it has looked up before.
pub data Call : Type 0 where
  store : Schedule → Session → Lineage → Call
  destroy : Session → Lineage → Call
  clear : Call
  clean : ℕ → List String → Call
  load : External → ℕ → String → Call

pub data Answer : Type 0 where
  saved : Poll (Result (Option String)) → Answer
  destroyed : Poll (Result (Unit {0})) → Answer
  cleared : Answer
  cleaned : ℕ → Answer
  loaded : Result (Option Owned) → Answer

unfoldable pub call : Call → MemoryState → Answer × MemoryState
call (store sched s l) st =
    (saved (store_session sched s l st).answer, (store_session sched s l st).state)
call (destroy s l) st = (destroyed (destroy_session s l st).0, (destroy_session s l st).2)
call clear st = (cleared, clear_store st)
call (clean now ids) st = (cleaned (remove_batch now ids st).0, (remove_batch now ids st).1)
call (load x now cookie) st = (loaded (load_session x now cookie st), st)

-- The calls with their answers, and the state after them.
unfoldable pub call_all : List Call → MemoryState → List (Call × Answer) × MemoryState
call_all [] st = ([], st)
call_all (c ∷ cs) st = let rest = call_all cs (call c st).1 in ((c, (call c st).0) ∷ rest.0, rest.1)

-- What the documentation of `SessionSave::origin` asks of a store: a first save does not overwrite a
-- record, and any other one finds its source, and does not overwrite another identity.
abbrev pub MaySave : View → String → Option String → Type 0
MaySave m id none = m id ≡ none
MaySave m id (some source) =
    (is_some (m source) ≡ true) × ((str_eq source id ≡ true) ⊎ (m id ≡ none))

-- The family when a save has the lock of the store, and the identity that the save replaces: the
-- one that its attempt claimed, read again then.
abbrev pub at_commit : Schedule → Session → Option String → Lineage → Lineage
at_commit sched s attempt l =
    act_all sched.before_state (lock_answer sched s attempt (claimed l s)).1

abbrev pub Replaces : Schedule → Session → Lineage → Option String → Option String → Type 0
Replaces sched s l attempt origin =
    ((persistence_attempt l s).0 ≡ ok attempt)
    × (current_origin (at_commit sched s attempt l) s attempt ≡ ok origin)

-- A load looks one record up.
unfoldable pub load_view : External → ℕ → String → View → Result (Option Owned)
load_view x now cookie m = id_from_cookie_value x cookie >>= λ id. elim (m id) [
  | none ↦ ok none
  | some o ↦
      if is_expired now o.session
      then ok none
      else validate_loaded x now false cookie (snapshot o.lineage o.session)
]

-- The steps of the abstract store, each of one call with its answer. A save succeeds, is refused and
-- changes nothing, or is taken back: a destruction of its family overtook it, and both its record
-- and its source are gone.
pub data Step (m : View) : Call → Answer → View → Type 0 where
  stores :
      (sched : Schedule) (s : Session) (l : Lineage) (attempt origin : Option String)
      → Replaces sched s l attempt origin
      → MaySave m s.id origin
      → Step m
          (store sched s l)
          (saved (ready (ok s.cookie_value)))
          (λ j. replaced s.id origin (saved_record l s) j (m j))
  refuses :
      (sched : Schedule) (s : Session) (l : Lineage) (answer : Poll (Result (Option String)))
      → is_accepted answer ≡ false
      → Step m (store sched s l) (saved answer) m
  takes_back :
      (sched : Schedule) (s : Session) (l : Lineage) (attempt origin : Option String)
      → Replaces sched s l attempt origin
      → MaySave m s.id origin
      → (act_all sched.before_finish (at_commit sched s attempt l)).destroy ≡ true
      → Step m
          (store sched s l)
          (saved (ready (err session_conflict)))
          (λ j. if str_eq s.id j then none else if opt_eq origin (some j) then none else m j)
  deletes :
      (s : Session) (l : Lineage)
      → Step m
          (destroy s l)
          (destroyed (ready (ok tt)))
          (λ j. if str_eq (deletion_target l s) j then none else m j)
  spares :
      (s : Session) (l : Lineage) (answer : Poll (Result (Unit {0})))
      → answer ≢ ready (ok tt)
      → Step m (destroy s l) (destroyed answer) m
  clears : Step m clear cleared (λ j. none)
  cleans :
      (now : ℕ) (ids : List String) (n : ℕ)
      → n ≤ length ids
      → Step m
          (clean now ids)
          (cleaned n)
          (λ j. if mem j ids && is_stale now (m j) then none else m j)
  loads :
      (x : External) (now : ℕ) (cookie : String)
      → Step m (load x now cookie) (loaded (load_view x now cookie m)) m

pub data Steps : View → List (Call × Answer) → View → Type 0 where
  here : (m : View) → Steps m [] m
  next :
      (m n p : View) (c : Call) (a : Answer) (rest : List (Call × Answer))
      → Step m c a n
      → Steps n rest p
      → Steps m ((c, a) ∷ rest) p
