-- ===== src/Sql/Outcomes.antt =====
-- The rows after `store_session` of src/sqlx_store.rs.
use saysion.Prelude.{
  String, ◌≡◌, refl, ap, ◌∙◌, true, ◌⊎◌, Option, none, some, Result, ok, err, is_some,
}
use saysion.Lifecycle.{ready}
use saysion.Session.State.{Lineage, Session, Owned}
use saysion.Session.Identity.{persistence_attempt}
use saysion.Session.Persist.{snapshot, persistence_snapshot}
use saysion.Memory.Saves.{claimed}
use saysion.Backend.{Schedule}
use saysion.Backend.Saves.{write_record-eq-ok, serialized_record-eq-ok}
use saysion.Sql.Database.{Database}
use saysion.Sql.Table.{IsTable, save_row-eq-ok}
use saysion.Backend.Rows.{saved}
use saysion.Sql.Store.{
  Queries, expiry_unix, save_row, delete_row, write_row, attempted_row, store_session,
}

module _ {D T : Type 0} (db : Database D T) (q : Queries) (sched : Schedule) (s : Session) where
  -- What a save that succeeds wrote, and the cookie that it issued.
  pub record Written (to_string : Owned → Result String) (l : Lineage) (d : D)
      (origin : Option String) (d' : D) (cookie : Option String) : Type 0 where
    pub json : String
    pub serialized : to_string (snapshot l s) ≡ ok json
    pub written : (save_row db q origin s.id (expiry_unix s) json d).0 ≡ ok tt
    pub rows : d' ≡ (save_row db q origin s.id (expiry_unix s) json d).1
    pub issued : cookie ≡ s.cookie_value

  pub attempted_row-eq-ok :
      (to_string : Owned → Result String) (attempt : Result (Option String)) (l : Lineage) (d : D)
      (cookie : Option String)
      → (attempted_row db q to_string sched s attempt l d).answer ≡ ready (ok cookie)
      → (origin : Option String) × (attempt ≡ ok origin)
        × Written to_string l d origin
            (attempted_row db q to_string sched s attempt l d).rows
            cookie
  unfolding attempted_row
  attempted_row-eq-ok to_string (err e) l d cookie h = cc
  attempted_row-eq-ok to_string (ok origin) l d cookie h = (
    origin,
    refl,
    serialized_record-eq-ok sched s (Written to_string l d origin) d cookie origin
        (write_row db q sched s origin) (persistence_snapshot l s).1 (to_string (snapshot l s))
        (persistence_snapshot l s).2
        (λ json g m serialized answer.
          let (a, b, c) =
            write_record-eq-ok (delete_row db q) sched s
              (save_row db q origin s.id (expiry_unix s) json) (persistence_snapshot l s).1 g m d
              cookie answer in
          record { json = json; serialized = serialized; written = a; rows = b; issued = c })
        h,
  )

  -- A save that succeeds, on a database whose statements do what SQL says, puts the row of its
  -- identity, with the expiry in whole seconds and the text of its captured snapshot, takes the row
  -- of its source, the identity that its attempt replaces, away if that is another identity, and
  -- leaves every other row as it is. A first save, whose attempt replaces none, found no row of its
  -- identity, and any other save found the row of its source.
  pub store_session_writes :
      (v : IsTable db q) (to_string : Owned → Result String) (l : Lineage) (d : D)
      (cookie : Option String)
      → (store_session db q to_string sched s l d).answer ≡ ready (ok cookie)
      → (origin : Option String) × (json : String) × ((persistence_attempt l s).0 ≡ ok origin)
        × (to_string (snapshot (claimed l s) s) ≡ ok json)
        × ((j : String)
            → v.row j (store_session db q to_string sched s l d).rows
              ≡ saved origin s.id (expiry_unix s, json) j (v.row j d))
        × ((origin ≡ none) × (v.row s.id d ≡ none)
            ⊎ ((source : String) × (origin ≡ some source) × (is_some (v.row source d) ≡ true)))
        × (cookie ≡ s.cookie_value)
  unfolding store_session
  store_session_writes v to_string l d cookie h =
      let (origin, granted, w) =
        attempted_row-eq-ok to_string (persistence_attempt l s).0 (claimed l s) d cookie h in
      let (effect, found) = save_row-eq-ok db q v origin s.id (expiry_unix s) w.json d w.written in
      (origin, w.json, granted, w.serialized, λ j. ap (v.row j) w.rows ∙ effect j, found, w.issued)
