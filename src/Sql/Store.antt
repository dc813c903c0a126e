-- ===== src/Sql/Store.antt =====
-- src/sqlx_store.rs: what the stores of the three databases share. They differ in the texts of their
-- statements, which `Queries` holds.
use saysion.Prelude.{
  ℕ, zero, suc, ◌/◌, String, not, ◌&&◌, Option, none, some, List, [], ◌∷◌, Error, concat,
  session_conflict, duplicate_key, batch_limit, Result, ok, err, ◌>>=◌, ◌>>◌, ensure, ◌==◌, leb,
  str_eq, if◌then◌else◌,
}
use saysion.Lifecycle.{Poll, ready, SessionWriteGuard}
use saysion.Session.Revision.{SaveRevision}
use saysion.Session.State.{Lineage, Session, Owned}
use saysion.Session.Identity.{persistence_attempt}
use saysion.Session.Cookies.{External}
use saysion.Session.Persist.{persistence_snapshot}
use saysion.Backend.{
  Schedule, Outcome, write_record, serialized_record, destroy_record, load_record,
}
use saysion.Sql.Database.{Bind, Database, text, number}

unfoldable pub default_cleanup_batch_size : ℕ
default_cleanup_batch_size = 1000

unfoldable pub max_cleanup_batch_size : ℕ
max_cleanup_batch_size = 10000

unfoldable pub cleanup_limit : ℕ → Result ℕ
unfolding max_cleanup_batch_size
cleanup_limit limit = do
  ensure (leb 1 limit && leb limit max_cleanup_batch_size) batch_limit
  ok limit

-- A second has 1,000,000,000 nanoseconds, and the origin of time is a whole second.
unfoldable pub unix : ℕ → ℕ
unix time = time / 1000000000

unfoldable pub expiry_unix : Session → Option ℕ
unfolding unix
expiry_unix s = elim s.expiry [ none ↦ none | some expiry ↦ some (unix expiry) ]

unfoldable pub map_insert_error : Error → Error
map_insert_error duplicate_key = session_conflict
map_insert_error e = e

-- What follows an insertion, and a statement that must affect one row.
unfoldable pub inserted : Result ℕ → Result (Unit {0})
unfolding map_insert_error
inserted (err e) = err (map_insert_error e)
inserted (ok n) = ok tt

unfoldable pub affected_one : Result ℕ → Result (Unit {0})
affected_one (err e) = err e
affected_one (ok n) = if not (n == 1) then err session_conflict else ok tt

-- The statements on one table.
pub record Queries : Type 0 where
  pub insert_sql : String
  pub update_sql : String
  pub delete_sql : String
  pub select_sql : String
  pub clear_sql : String
  pub count_sql : String

unfoldable pub take_bytes : ℕ → String → String
take_bytes zero s = String.[]
take_bytes (suc n) String.[] = String.[]
take_bytes (suc n) (String.◌∷◌ c s) = String.◌∷◌ c (take_bytes n s)

-- `hash_hex` is the text of `blake3::hash` in hexadecimal digits.
unfoldable pub expiry_index_name : (String → String) → String → String
unfolding take_bytes
expiry_index_name hash_hex table = concat ("saysion_expiry_" ∷ take_bytes 16 (hash_hex table) ∷ [])

module _ {D T : Type 0} (db : Database D T) (q : Queries) where
  unfoldable pub insert_row : String → Option ℕ → String → D → Result (Unit {0}) × D
  unfolding inserted
  insert_row id expires json d =
      let (answer, d') = db.execute q.insert_sql (text id ∷ number expires ∷ text json ∷ []) d in
      (inserted answer, d')

  unfoldable pub update_row : String → Option ℕ → String → D → Result (Unit {0}) × D
  unfolding affected_one
  update_row id expires json d =
      let (answer, d') = db.execute q.update_sql (number expires ∷ text json ∷ text id ∷ []) d in
      (affected_one answer, d')

  -- The statements of a rotation, in an open transaction.
  unfoldable pub replace_in : String → String → Option ℕ → String → T → Result (Unit {0}) × T
  unfolding affected_one inserted
  replace_in origin id expires json t =
      let (removed, t') = db.execute_in q.delete_sql (text origin ∷ []) t in
      let (added, t'') =
        db.execute_in q.insert_sql (text id ∷ number expires ∷ text json ∷ []) t' in
      elim (affected_one removed) [ err e ↦ (err e, t') | ok _ ↦ (inserted added, t'') ]

  unfoldable pub rotate_row : String → String → Option ℕ → String → D → Result (Unit {0}) × D
  unfolding replace_in
  rotate_row origin id expires json d =
      let (opened, d') = db.begin d in
      elim opened [
        | err e ↦ (err e, d')
        | ok t ↦
            let (replaced, t') = replace_in origin id expires json t in
            elim replaced [ err e ↦ (err e, d') | ok _ ↦ db.commit t' d' ]
      ]

  -- The three ways to write the row.
  unfoldable pub save_row : Option String → String → Option ℕ → String → D → Result (Unit {0}) × D
  unfolding insert_row update_row rotate_row
  save_row none id expires json d = insert_row id expires json d
  save_row (some origin) id expires json d =
      if not (str_eq origin id)
      then rotate_row origin id expires json d
      else update_row id expires json d

  unfoldable pub delete_row : String → D → Result (Unit {0}) × D
  delete_row id d =
      let (removed, d') = db.execute q.delete_sql (text id ∷ []) d in ((do n ← removed; ok tt), d')

  -- The part of `store_session` that holds the write guard.
  unfoldable pub write_row :
      Schedule
      → Session
      → Option String
      → String
      → SaveRevision
      → SessionWriteGuard
      → Lineage
      → D
      → Outcome D
  unfolding save_row delete_row expiry_unix write_record
  write_row sched s origin json r g l d =
      write_record delete_row sched s (save_row origin s.id (expiry_unix s) json) r g l d

  -- The part of `store_session` from the answer of `persistence_attempt` on.
  unfoldable pub attempted_row :
      (Owned → Result String)
      → Schedule
      → Session
      → Result (Option String)
      → Lineage
      → D
      → Outcome D
  unfolding persistence_snapshot serialized_record write_row
  attempted_row to_string sched s (err e) l d = record {
    answer = ready (err e);
    lineage = l;
    rows = d;
  }
  attempted_row to_string sched s (ok origin) l d =
      let (snap, r, l') = persistence_snapshot l s in
      serialized_record sched s origin (write_row sched s origin) r (to_string snap) l' d

  -- `to_string` is `serde_json::to_string`.
  unfoldable pub store_session :
      (Owned → Result String) → Schedule → Session → Lineage → D → Outcome D
  unfolding persistence_attempt attempted_row
  store_session to_string sched s l d =
      let (attempt, l') = persistence_attempt l s in attempted_row to_string sched s attempt l' d

  unfoldable pub destroy_session : Session → Lineage → D → Poll (Result (Unit {0})) × Lineage × D
  unfolding destroy_record delete_row
  destroy_session s l d = destroy_record delete_row s l d

  unfoldable pub clear_store : D → Result (Unit {0}) × D
  clear_store d = let (cleared, d') = db.execute q.clear_sql [] d in ((do n ← cleared; ok tt), d')

  unfoldable pub load_session :
      External → (String → Result Owned) → ℕ → String → D → Result (Option Owned)
  unfolding load_record unix
  load_session x from_str now cookie_value d =
      load_record x from_str now
        (λ id. db.fetch_optional q.select_sql (text id ∷ number (some (unix now)) ∷ []) d)
        cookie_value

  unfoldable pub count : D → Result ℕ
  count d = db.fetch_one q.count_sql d

  -- `cleanup_batch`, with its statement and what is bound to it after a limit is accepted.
  unfoldable pub delete_expired : String → (ℕ → List Bind) → ℕ → D → Result ℕ × D
  unfolding cleanup_limit
  delete_expired sql binds limit d = elim (cleanup_limit limit) [
    | err e ↦ (err e, d)
    | ok n ↦ db.execute sql (binds n) d
  ]
