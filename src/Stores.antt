-- ===== src/Stores.antt =====
-- The stores of src/memory_store.rs, src/sqlx_store.rs, src/redis_store.rs and src/mongodb_store.rs as implementations of
-- the trait of src/session_store.rs.
use saysion.Prelude.{ℕ, String, Result, ◌≡◌, false, is_some}
use saysion.Maps
use saysion.Redis.{key}
use saysion.Lifecycle.{ready}
use saysion.Session.State.{Owned}
use saysion.Session.Cookies.{External}
use saysion.Backend.{Schedule}
use saysion.Contract.{SessionStore, IsRevoking}
use saysion.Sql.Database.{Database}
use saysion.Sql.Table.{IsTable}
use saysion.Sql.Contract.{sql_store, sql-IsRevoking}
use saysion.Sql.Postgres
use saysion.Sql.Sqlite
use saysion.Sql.Mysql
use saysion.Mongo.Documents.{Collection, IsCollection}
use saysion.Mongo.Contract.{mongo_store, mongo-IsRevoking}
use saysion.Redis.Commands.{Server, IsServer}
use saysion.Redis.Scan.Clears.{IsScanned}
use saysion.Memory.Store
use saysion.Memory.Contract.{has_persists, memory_store, memory-IsRevoking}
use saysion.Redis.Contract.{redis_store, redis-IsRevoking}

module _ (x : External) (to_string : Owned → Result String) (from_str : String → Result Owned)
    (sched : Schedule) (now : ℕ) where
  module _ {D T : Type 0} (db : Database D T) (table : String) where
    unfoldable pub postgres_store : SessionStore D
    unfolding Postgres.load_session Postgres.store_session Postgres.destroy_session
        Postgres.clear_store
    postgres_store = record {
      load_session = Postgres.load_session db table x from_str now;
      store_session = Postgres.store_session db table to_string sched;
      destroy_session = Postgres.destroy_session db table;
      clear_store = λ d. let (cleared, d') = Postgres.clear_store db table d in (ready cleared, d');
    }

    unfoldable pub sqlite_store : SessionStore D
    unfolding Sqlite.load_session Sqlite.store_session Sqlite.destroy_session Sqlite.clear_store
    sqlite_store = record {
      load_session = Sqlite.load_session db table x from_str now;
      store_session = Sqlite.store_session db table to_string sched;
      destroy_session = Sqlite.destroy_session db table;
      clear_store = λ d. let (cleared, d') = Sqlite.clear_store db table d in (ready cleared, d');
    }

    unfoldable pub mysql_store : SessionStore D
    unfolding Mysql.load_session Mysql.store_session Mysql.destroy_session Mysql.clear_store
    mysql_store = record {
      load_session = Mysql.load_session db table x from_str now;
      store_session = Mysql.store_session db table to_string sched;
      destroy_session = Mysql.destroy_session db table;
      clear_store = λ d. let (cleared, d') = Mysql.clear_store db table d in (ready cleared, d');
    }

    postgres-IsRevoking :
        (v : IsTable db (Postgres.queries table))
        → IsRevoking postgres_store (λ id d. is_some (v.row id d))
    unfolding postgres_store sql_store
    postgres-IsRevoking v =
        sql-IsRevoking db (Postgres.queries table) x to_string from_str sched now v

    sqlite-IsRevoking :
        (v : IsTable db (Sqlite.queries table))
        → IsRevoking sqlite_store (λ id d. is_some (v.row id d))
    unfolding sqlite_store sql_store
    sqlite-IsRevoking v = sql-IsRevoking db (Sqlite.queries table) x to_string from_str sched now v

    mysql-IsRevoking :
        (v : IsTable db (Mysql.queries table))
        → IsRevoking mysql_store (λ id d. is_some (v.row id d))
    unfolding mysql_store sql_store
    mysql-IsRevoking v = sql-IsRevoking db (Mysql.queries table) x to_string from_str sched now v

  -- Each store with revocation keeps the contract of `SessionStore`, the memory store if no other
  -- handle completes a save of the session while a save of it awaits the store's lock, and a store
  -- with a backend if that does what SQL or the manual says. A save that issues a cookie created the
  -- record of a fresh session, where there was none, or found the record of its source; it leaves a
  -- record of its identity, none of its source if that is another identity, and every other identity
  -- as it was. A session that is loaded has a record, may replace that one only, and has no unsaved
  -- changes. After a deletion or a clearing that succeeds
  -- there is no record of the target of the deletion, or of any identity.
  pub stores_revoke :
      {P T Q U R V E F : Type 0} (table prefix : String) (fuel : ℕ) (db : Database P T)
      (p : IsTable db (Postgres.queries table)) (lite : Database Q U)
      (q : IsTable lite (Sqlite.queries table)) (my : Database R V)
      (r : IsTable my (Mysql.queries table)) (coll : Collection E) (c : IsCollection coll)
      (server : Server F) (v : IsServer server) (u : IsScanned server v) (others : Store.Schedule)
      (still : has_persists others.before_state ≡ false)
      → IsRevoking (memory_store x others now) (λ id st. Maps.contains_key id st.records)
        × IsRevoking (postgres_store db table) (λ id d. is_some (p.row id d))
        × IsRevoking (sqlite_store lite table) (λ id d. is_some (q.row id d))
        × IsRevoking (mysql_store my table) (λ id d. is_some (r.row id d))
        × IsRevoking
            (mongo_store coll x to_string from_str sched now)
            (λ id d. is_some (c.doc id d))
        × IsRevoking
            (redis_store server prefix x to_string from_str sched now fuel)
            (λ id d. is_some (v.entry (key prefix id) d))
  stores_revoke table prefix fuel db p lite q my r coll c server v u others still = (
    memory-IsRevoking x others now still,
    postgres-IsRevoking db table p,
    sqlite-IsRevoking lite table q,
    mysql-IsRevoking my table r,
    mongo-IsRevoking coll x to_string from_str sched now c,
    redis-IsRevoking server prefix x to_string from_str sched now fuel v u,
  )
