-- ===== src/Tests/Sql.antt =====
-- The SQL store on a database that is a list of rows.
use saysion.Prelude.{
  ℕ, String, ◌≡◌, refl, sym, ap, ◌∙◌, true, false, ◌⊎◌, Option, none, some, List, [], ◌∷◌, arith,
  Result, ok, err, backend, duplicate_key, duplicate_index, batch_limit, str_eq, str_eq_refl,
  is_some, concat, before, if◌then◌else◌,
}
use saysion.Maps
use saysion.Maps.{Map}
use saysion.Session.State.{Session, Owned, data_changed}
use saysion.Session.Identity.{persistence_attempt}
use saysion.Session.Persist.{snapshot}
use saysion.Session.Actions.{destroys}
use saysion.Cookie.Codec.{wire, deserialized}
use saysion.Memory.Saves.{claimed}
use saysion.Sql.Database.{Bind, Database, text, number}
use saysion.Sql.Table.{Row, IsTable, current}
use saysion.Backend.Rows.{saved}
use saysion.Backend.{Schedule}
use saysion.Sql.Postgres
use saysion.Sql.Mysql
use saysion.Sql.Store
use saysion.Sql.Store.{
  cleanup_limit, Queries, expiry_index_name, store_session, load_session, expiry_unix,
}
use saysion.Sql.Outcomes
use saysion.Sql.Loads
use saysion.Sql.Sqlite.Names.{trim, index_target}
use saysion.Sql.Sqlite.Targets
use saysion.Sql.Sqlite.Names
use saysion.Sql.Sqlite.Targets.{Piece, bare, quotation, bracketed, spelled}
use saysion.Tests.Fixtures.{program, crates, id44, letters, values, family, newcomer}

abbrev pub Rows : Type 0
Rows = Map Row

-- The statements on the table "t", by their texts; what is affected is told as SQL does.
abbrev pub insert : String → Row → Rows → Result ℕ × Rows
insert id row rows =
    if is_some (Maps.get id rows)
    then (err duplicate_key, rows)
    else (ok 1, Maps.insert id row rows)

abbrev pub update : String → Row → Rows → Result ℕ × Rows
update id row rows =
    if is_some (Maps.get id rows) then (ok 1, Maps.insert id row rows) else (ok 0, rows)

abbrev pub delete : String → Rows → Result ℕ × Rows
delete id rows = if is_some (Maps.get id rows) then (ok 1, Maps.remove id rows) else (ok 0, rows)

abbrev pub execute : Queries → String → List Bind → Rows → Result ℕ × Rows
execute q query (text id ∷ number expires ∷ text json ∷ []) rows =
    if str_eq query q.insert_sql then insert id (expires, json) rows else (err backend, rows)
execute q query (number expires ∷ text json ∷ text id ∷ []) rows =
    if str_eq query q.update_sql then update id (expires, json) rows else (err backend, rows)
execute q query (text id ∷ []) rows =
    if str_eq query q.delete_sql then delete id rows else (err backend, rows)
execute q query [] rows =
    if str_eq query q.clear_sql then (ok (Maps.size rows), []) else (err backend, rows)
execute q _ _ rows = (err backend, rows)

abbrev pub fetch : List Bind → Rows → Result (Option String)
fetch (text id ∷ number (some now) ∷ []) rows = ok (current now (Maps.get id rows))
fetch _ rows = err backend

abbrev pub db : Queries → Database Rows Rows
db q = record {
  execute = execute q;
  fetch_optional = λ _. fetch;
  fetch_one = λ _ rows. ok (Maps.size rows);
  begin = λ rows. (ok rows, rows);
  execute_in = execute q;
  commit = λ t rows. (ok tt, t);
}

-- The statement is the one that it is compared with.
run : (query : String) (x y z : Result ℕ × Rows) → (if str_eq query query then x else y) ≡ z → x ≡ z
run query x y z h = sym (ap (λ b. if b then x else y) (str_eq_refl query)) ∙ h

inserts :
    (id : String) (row : Row) (n : ℕ) (d d' : Rows)
    → insert id row d ≡ (ok n, d')
    → (Maps.get id d ≡ none)
      × ((j : String) → Maps.get j d' ≡ (if str_eq id j then some row else Maps.get j d))
inserts id row n d d' h = (ground (arith, h), λ j. ground (arith, h, Maps.get-insert id j row d))

updates :
    (id : String) (row : Row) (d d' : Rows)
    → update id row d ≡ (ok 1, d')
    → (is_some (Maps.get id d) ≡ true)
      × ((j : String) → Maps.get j d' ≡ (if str_eq id j then some row else Maps.get j d))
updates id row d d' h = (ground (arith, h), λ j. ground (arith, h, Maps.get-insert id j row d))

deletes :
    (id : String) (d d' : Rows)
    → delete id d ≡ (ok 1, d')
    → (is_some (Maps.get id d) ≡ true)
      × ((j : String) → Maps.get j d' ≡ (if str_eq id j then none else Maps.get j d))
deletes id d d' h = (ground (arith, h), λ j. ground (arith, h, Maps.get-remove id j d))

missing : (id : String) → Maps.get {V = Row} id [] ≡ none
unfolding Maps.get
missing id = refl

pub db-IsTable : (q : Queries) → IsTable (db q) q
db-IsTable q = record {
  row = Maps.get;
  row_in = Maps.get;
  inserts = λ id expires json n d d' h.
      inserts id (expires, json) n d d'
        (run q.insert_sql (insert id (expires, json) d) (err backend, d) (ok n, d') h);
  updates = λ id expires json d d' h.
      updates id (expires, json) d d'
        (run q.update_sql (update id (expires, json) d) (err backend, d) (ok 1, d') h);
  deletes = λ id n d d' h.
      let e = run q.delete_sql (delete id d) (err backend, d) (ok n, d') h in
      ground (arith, e, Maps.get-remove id id d, str_eq_refl id);
  clears = λ id n d d' h.
      let e = run q.clear_sql (ok (Maps.size d), []) (err backend, d) (ok n, d') h in
      ap (λ r. Maps.get id r.1) (sym e) ∙ missing id;
  begins = λ d d' t h j. ground (arith, h);
  deletes_in =
      λ id t t' h. deletes id t t' (run q.delete_sql (delete id t) (err backend, t) (ok 1, t') h);
  inserts_in = λ id expires json n t t' h.
      inserts id (expires, json) n t t'
        (run q.insert_sql (insert id (expires, json) t) (err backend, t) (ok n, t') h);
  commits = λ t d d' h j. ground (arith, h);
  selects = λ id now d answer h. ground (arith, h);
}

abbrev q : Queries
q = Postgres.queries "t"

abbrev to_string : Owned → Result String
to_string o = ok "json"

abbrev from_str : String → Result Owned
from_str json =
    ok (deserialized (wire (snapshot (claimed (family none) (newcomer id44)) (newcomer id44))))

abbrev alone : Schedule
alone = record { before_lock = []; before_finish = []; after_finish = [] }

-- Another handle destroys the session while its row is written.
abbrev overtaken : Schedule
overtaken = record alone { before_finish = destroys ∷ [] }

-- A session whose row is that of another identity, and that row.
abbrev rotated : Session
rotated = record (newcomer "new") { rotation_from = some "old" }

abbrev old : Rows
old = ("old", (none, "{}")) ∷ []

store_session_writes_example :
    (origin : Option String) × (json : String) × ((persistence_attempt
        (family (some "old"))
        rotated).0
      ≡ ok origin)
    × (to_string (snapshot (claimed (family (some "old")) rotated) rotated) ≡ ok json)
    × ((j : String)
        → Maps.get j (store_session (db q) q to_string alone rotated (family (some "old")) old).rows
          ≡ saved origin "new" (expiry_unix rotated, json) j (Maps.get j old))
    × ((origin ≡ none) × (Maps.get "new" old ≡ none)
        ⊎ ((source : String) × (origin ≡ some source) × (is_some (Maps.get source old) ≡ true)))
    × (some "cookie" ≡ rotated.cookie_value)
unfolding program Store.store_session Postgres.queries Postgres.insert_sql Postgres.update_sql
    Postgres.delete_sql Postgres.select_sql Postgres.clear_sql concat db-IsTable
store_session_writes_example =
    Outcomes.store_session_writes (db q) q alone rotated (db-IsTable q) to_string
      (family (some "old")) old (some "cookie") refl

load-store_row_example :
    (o : Owned) × (load_session
        (db q)
        q
        crates
        from_str
        50
        (letters 88)
        (store_session (db q) q to_string alone (newcomer id44) (family none) []).rows
      ≡ ok (some o))
    × (o.session.id ≡ id44)
    × (o.session.expiry ≡ some 100)
    × (o.lineage.data_.values ≡ values)
    × (data_changed o.lineage o.session ≡ false)
unfolding program Store.store_session Postgres.queries Postgres.insert_sql Postgres.update_sql
    Postgres.delete_sql Postgres.select_sql Postgres.clear_sql concat Store.unix
load-store_row_example =
    Loads.load-store_row (db q) q (db-IsTable q) crates to_string from_str alone (newcomer id44)
      (family none) [] (some "cookie") 50 (letters 88) (some "json") refl (λ json h. refl) refl refl
      refl

-- The name `"a.""b"[.].t`.
abbrev pieces : List Piece
pieces = quotation "\"" "a.\"b" ∷ bracketed "." ∷ []

index_target-spelled_example :
    let qualified = before (spelled pieces) ".t" in
    (index_target (λ s. s) qualified ≡ (
      concat (trim (spelled pieces) ∷ "." ∷ expiry_index_name (λ s. s) qualified ∷ []),
      trim "t",
    ))
    × (index_target (λ s. s) (spelled pieces)
        ≡ (expiry_index_name (λ s. s) (spelled pieces), spelled pieces))
index_target-spelled_example = Targets.index_target-spelled (λ s. s) pieces "t" (refl, (refl, tt))

index_target_test :
    index_target (λ s. "0123456789abcdefgh") "\"a.b\" . t"
    ≡ ("\"a.b\".saysion_expiry_0123456789abcdef", "t")
unfolding Names.index_target concat
index_target_test = refl

cleanup_limit_test :
    (cleanup_limit 0 ≡ err batch_limit)
    × (cleanup_limit 10000 ≡ ok 10000)
    × (cleanup_limit 10001 ≡ err batch_limit)
unfolding Store.cleanup_limit
cleanup_limit_test = (refl, refl, refl)

count_sql_test :
    (Postgres.count_sql "t" ≡ "SELECT COUNT(*) FROM t")
    × (Mysql.delete_sql "t" ≡ "DELETE FROM t WHERE id = ?")
unfolding Postgres.count_sql Mysql.delete_sql concat
count_sql_test = (refl, refl)

-- A database where the index is there already.
abbrev indexed : Database Rows Rows
indexed = record (db q) {
  execute = λ query binds rows.
      if str_eq query (Mysql.create_sql "t") then (ok 0, rows) else (err duplicate_index, rows);
}

migrate_again_test : (Mysql.migrate indexed "t" (λ s. s) []).0 ≡ ok tt
unfolding Mysql.migrate str_eq concat
migrate_again_test = refl
