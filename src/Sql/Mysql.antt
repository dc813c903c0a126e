-- ===== src/Sql/Mysql.antt =====
-- src/sqlx_store.rs: `SqlxMySqlStore`.
use saysion.Prelude.{
  ℕ, String, Option, some, [], ◌∷◌, duplicate_index, Result, ok, err, ◌>>=◌, concat,
}
use saysion.Lifecycle.{Poll}
use saysion.Session.State.{Lineage, Session, Owned}
use saysion.Session.Cookies.{External}
use saysion.Backend.{Schedule, Outcome}
use saysion.Sql.Database.{Database, number}
use saysion.Sql.Store
use saysion.Sql.Store.{Queries, unix, default_cleanup_batch_size, delete_expired, expiry_index_name}

-- The pool of connections, of a type that is a parameter.
pub record SqlxMySqlStore (P : Type 0) : Type 0 where
  pub pool : P
  pub table : String

unfoldable pub new : {P : Type 0} → P → SqlxMySqlStore P
new pool = record { pool = pool; table = "saysion_sessions" }

-- `connect` is `MySqlPool::connect`.
unfoldable pub from_url : {P : Type 0} → (String → Result P) → String → Result (SqlxMySqlStore P)
unfolding new
from_url connect url = do pool ← connect url; ok (new pool)

unfoldable pub with_table : {P : Type 0} → String → SqlxMySqlStore P → SqlxMySqlStore P
with_table table store = record store { table = table }

unfoldable pub insert_sql : String → String
insert_sql table = concat ("INSERT INTO " ∷ table ∷ " (id, expires, session) VALUES (?, ?, ?)" ∷ [])

unfoldable pub update_sql : String → String
update_sql table = concat ("UPDATE " ∷ table ∷ " SET expires = ?, session = ? WHERE id = ?" ∷ [])

unfoldable pub delete_sql : String → String
delete_sql table = concat ("DELETE FROM " ∷ table ∷ " WHERE id = ?" ∷ [])

unfoldable pub select_sql : String → String
select_sql table =
    concat
      ("SELECT session FROM " ∷ table ∷ " WHERE id = ? AND (expires IS NULL OR expires >= ?)" ∷ [])

unfoldable pub clear_sql : String → String
clear_sql table = concat ("DELETE FROM " ∷ table ∷ [])

unfoldable pub count_sql : String → String
count_sql table = concat ("SELECT COUNT(*) FROM " ∷ table ∷ [])

unfoldable pub queries : String → Queries
unfolding insert_sql update_sql delete_sql select_sql clear_sql count_sql
queries table = record {
  insert_sql = insert_sql table;
  update_sql = update_sql table;
  delete_sql = delete_sql table;
  select_sql = select_sql table;
  clear_sql = clear_sql table;
  count_sql = count_sql table;
}

unfoldable pub cleanup_sql : String → String
cleanup_sql table = concat (
    "DELETE FROM " ∷ table
    ∷ " WHERE expires IS NOT NULL AND expires < ? ORDER BY expires, id LIMIT ?" ∷ [])

unfoldable pub create_sql : String → String
create_sql table = concat (
    "CREATE TABLE IF NOT EXISTS " ∷ table
    ∷ " (id VARCHAR(128) PRIMARY KEY NOT NULL, expires BIGINT NULL, session TEXT NOT NULL)" ∷ [])

unfoldable pub index_sql : (String → String) → String → String
unfolding expiry_index_name
index_sql hash_hex table =
    concat
      ("CREATE INDEX " ∷ expiry_index_name hash_hex table ∷ " ON " ∷ table ∷ " (expires, id)" ∷ [])

-- An index that is there already is no error.
unfoldable pub indexed_once : Result ℕ → Result (Unit {0})
indexed_once (err duplicate_index) = ok tt
indexed_once (err e) = err e
indexed_once (ok n) = ok tt

module _ {D T : Type 0} (db : Database D T) (table : String) where
  unfoldable pub store_session :
      (Owned → Result String) → Schedule → Session → Lineage → D → Outcome D
  unfolding queries Store.store_session
  store_session to_string sched s l d = Store.store_session db (queries table) to_string sched s l d

  unfoldable pub load_session :
      External → (String → Result Owned) → ℕ → String → D → Result (Option Owned)
  unfolding queries Store.load_session
  load_session x from_str now cookie_value d =
      Store.load_session db (queries table) x from_str now cookie_value d

  unfoldable pub destroy_session : Session → Lineage → D → Poll (Result (Unit {0})) × Lineage × D
  unfolding queries Store.destroy_session
  destroy_session s l d = Store.destroy_session db (queries table) s l d

  unfoldable pub clear_store : D → Result (Unit {0}) × D
  unfolding queries Store.clear_store
  clear_store d = Store.clear_store db (queries table) d

  unfoldable pub count : D → Result ℕ
  unfolding queries Store.count
  count d = Store.count db (queries table) d

  unfoldable pub cleanup_batch : ℕ → ℕ → D → Result ℕ × D
  unfolding cleanup_sql delete_expired unix
  cleanup_batch now limit d =
      delete_expired db (queries table) (cleanup_sql table)
        (λ n. number (some (unix now)) ∷ number (some n) ∷ []) limit d

  unfoldable pub cleanup : ℕ → D → Result (Unit {0}) × D
  unfolding cleanup_batch default_cleanup_batch_size
  cleanup now d =
      let (removed, d') = cleanup_batch now default_cleanup_batch_size d in
      ((do n ← removed; ok tt), d')

  unfoldable pub migrate : (String → String) → D → Result (Unit {0}) × D
  unfolding create_sql index_sql indexed_once
  migrate hash_hex d =
      let (made, d') = db.execute (create_sql table) [] d in
      let (indexed, d'') = db.execute (index_sql hash_hex table) [] d' in
      elim made [ err e ↦ (err e, d') | ok n ↦ (indexed_once indexed, d'') ]
