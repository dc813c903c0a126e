-- ===== src/Sql/Loads.antt =====
-- `load_session` of src/sqlx_store.rs returns what was stored.
use saysion.Prelude.{
  ℕ, ◌≤◌, String, ◌≡◌, refl, ap, ◌∙◌, false, Option, none, some, [], ◌∷◌, arith, Result, ok, ltb,
  str_eq_refl,
}
use saysion.Lifecycle.{ready}
use saysion.Session.Revision.{with_values, is_dirty}
use saysion.Session.State.{Lineage, Session, Owned, is_expired, new_lineage, data_changed}
use saysion.Session.Identity.{persistence_attempt}
use saysion.Session.Cookies.{External, id_from_cookie_value}
use saysion.Session.Persist.{snapshot}
use saysion.Cookie.Codec.{wire, deserialized}
use saysion.Memory.Saves.{claimed}
use saysion.Memory.Loads.{loaded_session}
use saysion.Backend.{Schedule}
use saysion.Backend.Loads.{load_record-found}
use saysion.Sql.Database.{Database, text, number}
use saysion.Sql.Table.{IsTable, current}
use saysion.Backend.Rows.{saved}
use saysion.Sql.Store.{Queries, unix, expiry_unix, store_session, load_session}
use saysion.Sql.Outcomes.{store_session_writes}

unix_mono : (a b : ℕ) → a ≤ b → unix a ≤ unix b
unfolding unix
unix_mono a b h = omega arith

-- Whole seconds do not hide a row before its session expires.
current_live :
    (now : ℕ) (s : Session) (json : String)
    → is_expired now s ≡ false
    → current (unix now) (some (expiry_unix s, json)) ≡ some json
unfolding is_expired expiry_unix unix
current_live now s json h = of_expiry s.expiry h
  where
    of_expiry :
        (expiry : Option ℕ)
        → elim expiry [ none ↦ false | some e ↦ ltb e now ] ≡ false
        → current (unix now) (some (elim expiry [ none ↦ none | some e ↦ some (unix e) ], json))
          ≡ some json
    of_expiry none h = refl
    of_expiry (some e) h = ground (arith, unix_mono now e (ground (arith, h)))

-- After a save that succeeds, on a database whose statements do what SQL says and whose text is
-- read back as it was written, a cookie of its identity loads, until the saved expiry passes to
-- the nanosecond, the identity, the expiry and the values that the session had when its save
-- captured them; and the loaded session has no unsaved changes.
pub load-store_row :
    {D T : Type 0} (db : Database D T) (q : Queries) (v : IsTable db q) (x : External)
    (to_string : Owned → Result String) (from_str : String → Result Owned) (sched : Schedule)
    (s : Session) (l : Lineage) (d : D) (issued : Option String) (now : ℕ) (cookie : String)
    (answer : Option String)
    → (store_session db q to_string sched s l d).answer ≡ ready (ok issued)
    → ((json : String)
        → to_string (snapshot (claimed l s) s) ≡ ok json
        → from_str json ≡ ok (deserialized (wire (snapshot (claimed l s) s))))
    → id_from_cookie_value x cookie ≡ ok s.id
    → is_expired now s ≡ false
    → db.fetch_optional q.select_sql
        (text s.id ∷ number (some (unix now)) ∷ [])
        (store_session db q to_string sched s l d).rows
      ≡ ok answer
    → (o : Owned) × (load_session db q x from_str now cookie
          (store_session db q to_string sched s l d).rows
        ≡ ok (some o))
      × (o.session.id ≡ s.id)
      × (o.session.expiry ≡ s.expiry)
      × (o.lineage.data_.values ≡ (claimed l s).data_.values)
      × (data_changed o.lineage o.session ≡ false)
unfolding data_changed is_dirty new_lineage with_values load_session persistence_attempt wire
    snapshot deserialized
load-store_row db q v x to_string from_str sched s l d issued now cookie answer h reads c e
      fetched =
    let (origin, json, _, written, effect, _, _) =
      store_session_writes db q sched s v to_string l d issued h in
    let snap = wire (snapshot (claimed l s) s) in
    let rows = (store_session db q to_string sched s l d).rows in
    let found : answer ≡ some json =
      v.selects s.id (unix now) rows answer fetched
      ∙ ap (current (unix now)) (effect s.id ∙ own origin json)
      ∙ current_live now s json e in
    (
      loaded_session s.id s.expiry (claimed l s).data_.values,
      load_record-found x from_str now
          (λ id. db.fetch_optional q.select_sql (text id ∷ number (some (unix now)) ∷ []) rows)
          cookie json (wire (snapshot (claimed l s) s)) c (fetched ∙ ap ok found)
          (reads json written) e,
      refl,
      refl,
      refl,
      refl,
    )
  where
    own :
        (origin : Option String) (json : String)
        → saved origin s.id (expiry_unix s, json) s.id (v.row s.id d) ≡ some (expiry_unix s, json)
    own origin json = rw (str_eq_refl s.id) refl
