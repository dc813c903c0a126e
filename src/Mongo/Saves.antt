-- ===== src/Mongo/Saves.antt =====
-- The collection after `store_session` of src/mongodb_store.rs, and what `load_session` finds in it.
use saysion.Prelude.{
  ℕ, String, ◌≡◌, refl, sym, ap, ◌∙◌, true, false, ◌⊎◌, inl, inr, Option, none, some, arith, Result,
  ok, ◌>>=◌, is_some, str_eq, str_eq_iff, str_eq_refl, Bool-cases, Result-cases,
}
use saysion.Lifecycle.{ready, SessionWriteGuard}
use saysion.Session.Revision.{SaveRevision, with_values, is_dirty}
use saysion.Session.State.{Lineage, Session, Owned, is_expired, new_lineage, data_changed}
use saysion.Session.Identity.{persistence_attempt}
use saysion.Session.Cookies.{External, id_from_cookie_value}
use saysion.Session.Persist.{snapshot}
use saysion.Cookie.Codec.{wire, deserialized}
use saysion.Memory.Saves.{claimed}
use saysion.Memory.Loads.{loaded_session}
use saysion.Backend.{Schedule}
use saysion.Backend.Loads.{load_record-found}
use saysion.Backend.Rows.{saved}
use saysion.Backend.Saves.{
  write_record-eq-ok, write_record-rows, attempted_record-eq-ok, attempted_record-rows,
}
use saysion.Mongo.Documents.{SessionDoc, Collection, IsCollection}
use saysion.Mongo.{
  some_deleted, rotate_doc, save_doc, delete_doc, session_doc, write_doc, store_session,
  load_session,
}
use saysion.Mongo.Outcomes.{save_doc-eq-ok}

module _ {D : Type 0} (coll : Collection D) (v : IsCollection coll) (sched : Schedule) (s : Session)
    (to_string : Owned → Result String) (l : Lineage) (d : D) where
  -- A save that succeeds puts the document of its identity, with the expiry in milliseconds and the
  -- text of its captured snapshot, takes the document of its source, the identity that its attempt
  -- replaces, away if that is another identity, and leaves every other document as it is. A first
  -- save, whose attempt replaces none, found no document of its identity, and any other save found
  -- the document of its source.
  pub store_session_puts :
      (cookie : Option String)
      → (store_session coll to_string sched s l d).answer ≡ ready (ok cookie)
      → (origin : Option String) × (json : String) × ((persistence_attempt l s).0 ≡ ok origin)
        × (to_string (snapshot (claimed l s) s) ≡ ok json)
        × ((j : String)
            → v.doc j (store_session coll to_string sched s l d).rows
              ≡ saved origin s.id (session_doc coll s json) j (v.doc j d))
        × ((origin ≡ none) × (v.doc s.id d ≡ none)
            ⊎ ((source : String) × (origin ≡ some source) × (is_some (v.doc source d) ≡ true)))
        × (cookie ≡ s.cookie_value)
  unfolding store_session session_doc
  store_session_puts cookie h =
      let (origin, granted, (json, serialized, (written, rows, issued))) =
        attempted_record-eq-ok to_string sched s (write_doc coll sched s) (claimed l s) d Wrote
          cookie (persistence_attempt l s).0 wrote h in
      let (effect, found) = save_doc-eq-ok coll v origin (session_doc coll s json) d written in
      (origin, json, granted, serialized, λ j. ap (v.doc j) rows ∙ effect j, found, issued)
    where
      Wrote : Option String → String → D → Option String → Type 0
      Wrote origin json d' c =
          let save = save_doc coll origin (session_doc coll s json) d in
          (save.0 ≡ ok tt) × (d' ≡ save.1) × (c ≡ s.cookie_value)

      wrote :
          (origin : Option String) (json : String) (r : SaveRevision) (g : SessionWriteGuard)
          (m : Lineage)
          → (write_doc coll sched s origin json r g m d).answer ≡ ready (ok cookie)
          → Wrote origin json (write_doc coll sched s origin json r g m d).rows cookie
      wrote origin json r g m answer =
          write_record-eq-ok (delete_doc coll) sched s
            (save_doc coll origin (session_doc coll s json)) r g m d cookie answer

  -- A save under a new identity revokes its source first: if the collection answers the deletion of
  -- the source, then after the save the source has no document, whatever the insertion, the clean-up
  -- and the save itself answer, or else the save has left the collection as it was.
  pub rotation_revokes_first :
      (source : String) (n : ℕ)
      → (persistence_attempt l s).0 ≡ ok (some source)
      → str_eq source s.id ≡ false
      → (coll.delete_one source d).0 ≡ ok n
      → let after = (store_session coll to_string sched s l d).rows in
        (after ≡ d) ⊎ (v.doc source after ≡ none)
  unfolding store_session write_doc
  rotation_revokes_first source n attempt other answered =
      attempted_record-rows to_string sched s (write_doc coll sched s) (persistence_attempt l s).1 d
        Revoked (persistence_attempt l s).0 (inl refl)
        (λ origin o json r g m. inr (revoked origin json r g m (sym o ∙ attempt)))
    where
      Revoked : D → Type 0
      Revoked e = (e ≡ d) ⊎ (v.doc source e ≡ none)

      gone : v.doc source (coll.delete_one source d).1 ≡ none
      gone = (v.deletes source n d answered).0

      apart : str_eq s.id source ≡ false
      apart = elim (Bool-cases (str_eq s.id source)) [
        | inl same ↦
            absurd (ground (arith, other, sym ((str_eq_iff s.id source).0 same), str_eq_refl s.id))
        | inr x ↦ x
      ]

      rotated :
          (new : SessionDoc)
          → str_eq new.id source ≡ false
          → v.doc source (rotate_doc coll source new d).1 ≡ none
      rotated new x = elim (Result-cases (some_deleted (coll.delete_one source d).0)) [
        | inl (e, bad) ↦ ap (v.doc source) (unfold rotate_doc in ground (arith, bad)) ∙ gone
        | inr (_, good) ↦
            ap (v.doc source) (unfold rotate_doc in ground (arith, good))
            ∙ (v.inserts_only new source (coll.delete_one source d).1 x ∙ gone)
      ]

      unwrapped : {a b : String} → ok (some a) ≡ ok (some b) → a ≡ b
      unwrapped e = cc

      same_store :
          (new : SessionDoc)
          → str_eq source new.id ≡ false
          → (save_doc coll (some source) new d).1 ≡ (rotate_doc coll source new d).1
      same_store new x = unfold save_doc in ground (arith, x)

      saves :
          (json : String) (old_id : String)
          → old_id ≡ source
          → v.doc source (save_doc coll (some old_id) (session_doc coll s json) d).1 ≡ none
      saves json old_id e =
          ap (λ i. v.doc source (save_doc coll (some i) (session_doc coll s json) d).1) e
          ∙ (ap (v.doc source) (same_store (session_doc coll s json) (unfold session_doc in other))
              ∙ rotated (session_doc coll s json) (unfold session_doc in apart))

      revoked :
          (origin : Option String) (json : String) (r : SaveRevision) (g : SessionWriteGuard)
          (m : Lineage)
          → ok origin ≡ ok (some source)
          → v.doc source (write_doc coll sched s origin json r g m d).rows ≡ none
      revoked none json r g m o = cc
      revoked (some old_id) json r g m o =
          write_record-rows (delete_doc coll) sched s (λ e. v.doc source e ≡ none)
            (save_doc coll (some old_id) (session_doc coll s json)) r g m d
            (saves json old_id (unwrapped o))
            (λ e q.
              ap (v.doc source) (unfold delete_doc in refl)
              ∙ (v.deletes_only s.id source e apart ∙ q))

-- After a save that succeeds, on a collection that does what the manual says and whose text is read
-- back as it was written, a cookie of its identity loads, while its session is not expired and
-- MongoDB has not removed the document, the identity, the expiry and the values that the session
-- had when its save captured them; and the loaded session has no unsaved changes.
pub load-store_doc :
    {D : Type 0} (coll : Collection D) (v : IsCollection coll) (x : External)
    (to_string : Owned → Result String) (from_str : String → Result Owned) (sched : Schedule)
    (s : Session) (l : Lineage) (d : D) (issued : Option String) (now : ℕ) (cookie : String)
    (found : Option SessionDoc)
    → (store_session coll to_string sched s l d).answer ≡ ready (ok issued)
    → ((json : String)
        → to_string (snapshot (claimed l s) s) ≡ ok json
        → from_str json ≡ ok (deserialized (wire (snapshot (claimed l s) s))))
    → id_from_cookie_value x cookie ≡ ok s.id
    → is_expired now s ≡ false
    → coll.find_one s.id (store_session coll to_string sched s l d).rows ≡ ok found
    → (o : Owned) × (load_session coll x from_str now cookie
          (store_session coll to_string sched s l d).rows
        ≡ ok (some o))
      × (o.session.id ≡ s.id)
      × (o.session.expiry ≡ s.expiry)
      × (o.lineage.data_.values ≡ (claimed l s).data_.values)
      × (data_changed o.lineage o.session ≡ false)
unfolding data_changed is_dirty new_lineage with_values load_session persistence_attempt wire
    snapshot deserialized session_doc
load-store_doc coll v x to_string from_str sched s l d issued now cookie found h reads c e fetched =
    let (origin, json, _, written, effect, _, _) =
      store_session_puts coll v sched s to_string l d issued h in
    let after = (store_session coll to_string sched s l d).rows in
    let present : found ≡ some (session_doc coll s json) =
      v.finds s.id after found fetched ∙ (effect s.id ∙ own origin json) in
    (
      loaded_session s.id s.expiry (claimed l s).data_.values,
      load_record-found x from_str now
          (λ id. do
            answer ← coll.find_one id after
            ok (elim answer [ none ↦ none | some doc ↦ some doc.session ]))
          cookie json (wire (snapshot (claimed l s) s)) c
          (ap
            (λ (r : Result (Option SessionDoc)).
              r >>= (λ answer. ok (elim answer [ none ↦ none | some doc ↦ some doc.session ])))
            (fetched ∙ ap ok present))
          (reads json written) e,
      refl,
      refl,
      refl,
      refl,
    )
  where
    own :
        (origin : Option String) (json : String)
        → saved origin s.id (session_doc coll s json) s.id (v.doc s.id d)
          ≡ some (session_doc coll s json)
    own origin json = rw (str_eq_refl s.id) refl
