-- ===== src/Tests/Contracts.antt =====
-- The stores with a backend, and their contract, on the backends of the other tests.
use saysion.Prelude.{String, is_some, refl, [], ◌∷◌, Result, ok}
use saysion.Session.State.{Owned}
use saysion.Backend.{Schedule}
use saysion.Contract.{IsRevoking}
use saysion.Memory.Store
use saysion.Memory.Contract.{memory_store}
use saysion.Session.Actions.{inserts}
use saysion.Mongo.Contract.{mongo_store}
use saysion.Redis.Contract.{redis_store}
use saysion.Sql.Postgres
use saysion.Sql.Sqlite
use saysion.Sql.Mysql
use saysion.Stores
use saysion.Stores.{postgres_store, sqlite_store, mysql_store}
use saysion.Tests.Fixtures.{crates, stored, quiet}
use saysion.Tests.Mongo.{coll, coll-IsCollection}
use saysion.Tests.Redis.{server, server-IsServer, server-IsScanned}
use saysion.Tests.Sql.{db, db-IsTable}
use saysion.Maps
use saysion.Redis.{key}

abbrev to_string : Owned → Result String
to_string o = ok "json"

abbrev from_str : String → Result Owned
from_str json = ok (stored "old" 100)

abbrev alone : Schedule
alone = record { before_lock = []; before_finish = []; after_finish = [] }

-- Another handle edits the data while the save waits for the store's lock.
abbrev busy : Store.Schedule
busy = record quiet { before_state = inserts "user" "9" ∷ [] }

stores_revoke_example :
    IsRevoking (memory_store crates busy 50) (λ id st. Maps.contains_key id st.records)
    × IsRevoking
        (postgres_store crates to_string from_str alone 50 (db (Postgres.queries "t")) "t")
        (λ id d. is_some ((db-IsTable (Postgres.queries "t")).row id d))
    × IsRevoking
        (sqlite_store crates to_string from_str alone 50 (db (Sqlite.queries "t")) "t")
        (λ id d. is_some ((db-IsTable (Sqlite.queries "t")).row id d))
    × IsRevoking
        (mysql_store crates to_string from_str alone 50 (db (Mysql.queries "t")) "t")
        (λ id d. is_some ((db-IsTable (Mysql.queries "t")).row id d))
    × IsRevoking
        (mongo_store coll crates to_string from_str alone 50)
        (λ id d. is_some (coll-IsCollection.doc id d))
    × IsRevoking
        (redis_store server "p/" crates to_string from_str alone 50 1)
        (λ id d. is_some (server-IsServer.entry (key "p/" id) d))
stores_revoke_example =
    Stores.stores_revoke crates to_string from_str alone 50 "t" "p/" 1 (db (Postgres.queries "t"))
      (db-IsTable (Postgres.queries "t")) (db (Sqlite.queries "t"))
      (db-IsTable (Sqlite.queries "t")) (db (Mysql.queries "t")) (db-IsTable (Mysql.queries "t"))
      coll coll-IsCollection server server-IsServer server-IsScanned busy refl
