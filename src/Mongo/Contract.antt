-- ===== src/Mongo/Contract.antt =====
-- The store of src/mongodb_store.rs keeps the contract of `SessionStore`.
use saysion.Prelude.{
  ℕ, String, ◌≡◌, ap, sym, refl, ◌>>=◌, ◌∙◌, true, false, Option, none, some, Result, ok, >>=-eq-ok,
  is_some,
}
use saysion.Lifecycle.{ready}
use saysion.Session.State.{Lineage, Session, Owned, data_changed}
use saysion.Session.Identity.{persistence_attempt, persistence_origin}
use saysion.Session.Cookies.{External}
use saysion.Session.Persist.{deletion_target}
use saysion.Backend.{Schedule}
use saysion.Backend.Deletes.{destroy_record-eq-ok}
use saysion.Backend.Loads.{load_record-eq-ok}
use saysion.Contract.{
  SessionStore, IsRevoking, Found, first_found, source_found, settled, is_some-saved,
}
use saysion.Mongo
use saysion.Mongo.{save_doc, session_doc, delete_doc, write_doc, store_session}
use saysion.Mongo.Documents.{SessionDoc, Collection, IsCollection}
use saysion.Mongo.Saves.{store_session_puts}

module _ {D : Type 0} (coll : Collection D) (x : External) (to_string : Owned → Result String)
    (from_str : String → Result Owned) (sched : Schedule) (now : ℕ) where
  unfoldable pub mongo_store : SessionStore D
  unfolding Mongo.load_session Mongo.store_session Mongo.destroy_session Mongo.clear_store
  mongo_store = record {
    load_session = Mongo.load_session coll x from_str now;
    store_session = Mongo.store_session coll to_string sched;
    destroy_session = Mongo.destroy_session coll;
    clear_store = λ d. let (cleared, d') = Mongo.clear_store coll d in (ready cleared, d');
  }

  module _ (v : IsCollection coll) where
    found :
        (s : Session) (l : Lineage) (d : D) (cookie : String)
        → (store_session coll to_string sched s l d).answer ≡ ready (ok (some cookie))
        → let after = (store_session coll to_string sched s l d).rows in
          Found (λ id. v.doc id d) (λ id. v.doc id after) s.id (persistence_attempt l s).0
    found s l d cookie h =
        let (origin, json, known, _, effect, there, _) =
          store_session_puts coll v sched s to_string l d (some cookie) h in
        (
          origin,
          known,
          there,
          λ j.
              ap is_some (effect j)
              ∙ is_some-saved origin s.id (session_doc coll s json) j (v.doc j d),
        )

    loaded :
        (cookie : String) (d : D) (o : Owned)
        → Mongo.load_session coll x from_str now cookie d ≡ ok (some o)
        → (is_some (v.doc o.session.id d) ≡ true)
          × (persistence_origin o.lineage o.session ≡ ok (some o.session.id))
          × (data_changed o.lineage o.session ≡ false)
    unfolding Mongo.load_session
    loaded cookie d o h =
        let (json, e, origin, clean) =
          load_record-eq-ok x from_str now
            (λ id. do
              answer ← coll.find_one id d
              ok (elim answer [ none ↦ none | some doc ↦ some doc.session ]))
            cookie o h in
        let (found, f, k) = >>=-eq-ok (coll.find_one o.session.id d) _ e in
        (ap is_some (sym (v.finds o.session.id d found f)) ∙ there found json k, origin, clean)
      where
        there :
            (r : Option SessionDoc) (json : String)
            → ok (elim r [ none ↦ none | some doc ↦ some doc.session ]) ≡ ok (some json)
            → is_some r ≡ true
        there none json e = cc
        there (some r) json e = refl

    deleted_none :
        (id : String) (d : D)
        → (delete_doc coll id d).0 ≡ ok tt
        → v.doc id (delete_doc coll id d).1 ≡ none
    unfolding delete_doc
    deleted_none id d h =
        let (n, e, _) = >>=-eq-ok (coll.delete_one id d).0 (λ n. ok tt) h in (v.deletes id n d e).0

    cleared_none :
        (id : String) (d : D)
        → (Mongo.clear_store coll d).0 ≡ ok tt
        → v.doc id (Mongo.clear_store coll d).1 ≡ none
    unfolding Mongo.clear_store
    cleared_none id d h =
        let (n, e, _) = >>=-eq-ok (coll.delete_many d).0 (λ n. ok tt) h in v.clears id n d e

    -- The MongoDB store keeps the contract of `SessionStore`, if its collection does what the manual
    -- says.
    pub mongo-IsRevoking : IsRevoking mongo_store (λ id d. is_some (v.doc id d))
    unfolding mongo_store Mongo.destroy_session
    mongo-IsRevoking = record {
      creates = λ s l d cookie a h.
          first_found (λ id. v.doc id d)
            (λ id. v.doc id (store_session coll to_string sched s l d).rows) s.id
            (persistence_attempt l s).0 a (found s l d cookie h);
      updates = λ s l d cookie source a h.
          source_found (λ id. v.doc id d)
            (λ id. v.doc id (store_session coll to_string sched s l d).rows) s.id
            (persistence_attempt l s).0 source a (found s l d cookie h);
      stores = λ s l d cookie h.
          let (origin, known, _, left) = found s l d cookie h in (origin, known, left);
      loads = loaded;
      destroys = λ s l d h.
          let (good, same) = destroy_record-eq-ok (delete_doc coll) s l d h in
          ap (λ e. is_some (v.doc (deletion_target l s) e)) same
          ∙ ap is_some (deleted_none (deletion_target l s) d good);
      clears = λ id d h. ap is_some (cleared_none id d (settled h));
    }
