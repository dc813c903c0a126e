-- ===== src/Sql/Contract.antt =====
-- The stores of src/sqlx_store.rs keep the contract of `SessionStore`.
use saysion.Prelude.{
  ℕ, String, ◌≡◌, ap, ◌∙◌, true, false, Option, refl, none, some, [], ◌∷◌, Result, ok, >>=-eq-ok,
  is_some,
}
use saysion.Lifecycle.{ready}
use saysion.Session.State.{Lineage, Session, Owned, data_changed}
use saysion.Session.Identity.{persistence_attempt, persistence_origin}
use saysion.Session.Cookies.{External}
use saysion.Session.Persist.{deletion_target}
use saysion.Backend.{Schedule}
use saysion.Backend.Deletes.{destroy_record-eq-ok}
use saysion.Backend.Loads.{load_record-eq-ok}
use saysion.Contract.{
  SessionStore, IsRevoking, Found, first_found, source_found, settled, is_some-saved,
}
use saysion.Sql.Database.{Database, text, number}
use saysion.Sql.Store
use saysion.Sql.Store.{Queries, expiry_unix, unix, delete_row, store_session}
use saysion.Sql.Table.{IsTable, Row, current}
use saysion.Sql.Outcomes.{store_session_writes}

module _ {D T : Type 0} (db : Database D T) (q : Queries) (x : External)
    (to_string : Owned → Result String) (from_str : String → Result Owned) (sched : Schedule)
    (now : ℕ) where
  unfoldable pub sql_store : SessionStore D
  unfolding Store.load_session Store.store_session Store.destroy_session Store.clear_store
  sql_store = record {
    load_session = Store.load_session db q x from_str now;
    store_session = Store.store_session db q to_string sched;
    destroy_session = Store.destroy_session db q;
    clear_store = λ d. let (cleared, d') = Store.clear_store db q d in (ready cleared, d');
  }

  module _ (v : IsTable db q) where
    found :
        (s : Session) (l : Lineage) (d : D) (cookie : String)
        → (store_session db q to_string sched s l d).answer ≡ ready (ok (some cookie))
        → let after = (store_session db q to_string sched s l d).rows in
          Found (λ id. v.row id d) (λ id. v.row id after) s.id (persistence_attempt l s).0
    found s l d cookie h =
        let (origin, json, known, _, effect, there, _) =
          store_session_writes db q sched s v to_string l d (some cookie) h in
        (
          origin,
          known,
          there,
          λ j.
              ap is_some (effect j) ∙ is_some-saved origin s.id (expiry_unix s, json) j (v.row j d),
        )

    loaded :
        (cookie : String) (d : D) (o : Owned)
        → Store.load_session db q x from_str now cookie d ≡ ok (some o)
        → (is_some (v.row o.session.id d) ≡ true)
          × (persistence_origin o.lineage o.session ≡ ok (some o.session.id))
          × (data_changed o.lineage o.session ≡ false)
    unfolding Store.load_session
    loaded cookie d o h =
        let (json, e, origin, clean) =
          load_record-eq-ok x from_str now
            (λ id. db.fetch_optional q.select_sql (text id ∷ number (some (unix now)) ∷ []) d)
            cookie o h in
        (
          there (v.row o.session.id d) json (v.selects o.session.id (unix now) d (some json) e),
          origin,
          clean,
        )
      where
        there :
            (r : Option Row) (json : String) → some json ≡ current (unix now) r → is_some r ≡ true
        there none json e = cc
        there (some r) json e = refl

    deleted_none :
        (id : String) (d : D)
        → (delete_row db q id d).0 ≡ ok tt
        → v.row id (delete_row db q id d).1 ≡ none
    unfolding delete_row
    deleted_none id d h =
        let x = db.execute q.delete_sql (text id ∷ []) d in
        let (n, e, _) = >>=-eq-ok x.0 (λ n. ok tt) h in v.deletes id n d x.1 (λ i. (e i, x.1))

    cleared_none :
        (id : String) (d : D)
        → (Store.clear_store db q d).0 ≡ ok tt
        → v.row id (Store.clear_store db q d).1 ≡ none
    unfolding Store.clear_store
    cleared_none id d h =
        let x = db.execute q.clear_sql [] d in
        let (n, e, _) = >>=-eq-ok x.0 (λ n. ok tt) h in v.clears id n d x.1 (λ i. (e i, x.1))

    -- Each store of an SQL database keeps the contract of `SessionStore`, if its statements do what
    -- SQL says.
    pub sql-IsRevoking : IsRevoking sql_store (λ id d. is_some (v.row id d))
    unfolding sql_store Store.destroy_session
    sql-IsRevoking = record {
      creates = λ s l d cookie a h.
          first_found (λ id. v.row id d)
            (λ id. v.row id (store_session db q to_string sched s l d).rows) s.id
            (persistence_attempt l s).0 a (found s l d cookie h);
      updates = λ s l d cookie source a h.
          source_found (λ id. v.row id d)
            (λ id. v.row id (store_session db q to_string sched s l d).rows) s.id
            (persistence_attempt l s).0 source a (found s l d cookie h);
      stores = λ s l d cookie h.
          let (origin, known, _, left) = found s l d cookie h in (origin, known, left);
      loads = loaded;
      destroys = λ s l d h.
          let (good, same) = destroy_record-eq-ok (delete_row db q) s l d h in
          ap (λ e. is_some (v.row (deletion_target l s) e)) same
          ∙ ap is_some (deleted_none (deletion_target l s) d good);
      clears = λ id d h. ap is_some (cleared_none id d (settled h));
    }
