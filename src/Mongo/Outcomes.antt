-- ===== src/Mongo/Outcomes.antt =====
-- The documents after `store_session` of src/mongodb_store.rs.
use saysion.Prelude.{
  ℕ, String, ◌≡◌, ◌≢◌, refl, ap, ◌∙◌, Bool, true, false, not, ◌⊎◌, inl, inr, Option, none, some,
  arith, Result, ok, err, is_some, str_eq, str_eq_iff, if◌then◌else◌,
}
use saysion.Backend.Rows.{deleted, put, saved, put-from, deleted-from, put-saved}
use saysion.Mongo.Documents.{SessionDoc, Collection, IsCollection}
use saysion.Mongo.{some_deleted, one_matched, rotate_doc, replace_doc, save_doc}

some_deleted-eq-ok : (r : Result ℕ) → some_deleted r ≡ ok tt → (n : ℕ) × (r ≡ ok n) × (n ≢ 0)
unfolding some_deleted
some_deleted-eq-ok (err e) h = cc
some_deleted-eq-ok (ok n) h = (n, refl, λ z. ground (arith, h, z))

one_matched-eq-ok : (r : Result ℕ) → one_matched r ≡ ok tt → r ≡ ok 1
unfolding one_matched
one_matched-eq-ok (err e) h = cc
one_matched-eq-ok (ok n) h = ground arith

module _ {D : Type 0} (coll : Collection D) (v : IsCollection coll) where
  insert_one-eq-ok :
      (new : SessionDoc) (d : D)
      → (coll.insert_one new d).0 ≡ ok tt
      → (v.doc new.id d ≡ none)
        × ((j : String) → v.doc j (coll.insert_one new d).1 ≡ put new.id new j (v.doc j d))
  insert_one-eq-ok new d h =
      let (fresh, here) = v.inserts new d h in
      (
        fresh,
        put-from (λ j. v.doc j d) (λ j. v.doc j (coll.insert_one new d).1) new.id
            (λ j. v.inserts_only new j d) new here,
      )

  rotate_doc-eq-ok :
      (old_id : String) (new : SessionDoc) (d : D)
      → (rotate_doc coll old_id new d).0 ≡ ok tt
      → (is_some (v.doc old_id d) ≡ true)
        × ((j : String)
            → v.doc j (rotate_doc coll old_id new d).1
              ≡ put new.id new j (deleted old_id j (v.doc j d)))
  unfolding rotate_doc
  rotate_doc-eq-ok old_id new d h = by_deletion (some_deleted x.0) refl h
    where
      x : Result ℕ × D
      x = coll.delete_one old_id d

      by_deletion :
          (r : Result (Unit {0}))
          → some_deleted x.0 ≡ r
          → let whole : Result (Unit {0}) × D = elim r [
            | err e ↦ (err e, x.1)
            | ok _ ↦ coll.insert_one new x.1
          ] in
            whole.0 ≡ ok tt
            → (is_some (v.doc old_id d) ≡ true)
              × ((j : String) → v.doc j whole.1 ≡ put new.id new j (deleted old_id j (v.doc j d)))
      by_deletion (err e) f h = cc
      by_deletion (ok _) f h =
          let (n, found, more) = some_deleted-eq-ok x.0 f in
          let (gone, source) = v.deletes old_id n d found in
          let (fresh, effect) = insert_one-eq-ok new x.1 h in
          (
            source more,
            λ j.
                effect j
                ∙ ap (put new.id new j) (
                    deleted-from (λ i. v.doc i d) (λ i. v.doc i x.1) old_id
                      (λ i. v.deletes_only old_id i d) gone j),
          )

  replace_doc-eq-ok :
      (new : SessionDoc) (d : D)
      → (replace_doc coll new d).0 ≡ ok tt
      → (is_some (v.doc new.id d) ≡ true)
        × ((j : String) → v.doc j (replace_doc coll new d).1 ≡ put new.id new j (v.doc j d))
  unfolding replace_doc
  replace_doc-eq-ok new d h =
      let (found, here) =
        v.replaces new.id new d (one_matched-eq-ok (coll.replace_one new.id new d).0 h) in
      (
        found,
        put-from (λ j. v.doc j d) (λ j. v.doc j (coll.replace_one new.id new d).1) new.id
            (λ j. v.replaces_only new.id new j d) new here,
      )

  known_doc-eq-ok :
      (old_id : String) (new : SessionDoc) (d : D) (same : Bool)
      → str_eq old_id new.id ≡ same
      → let whole : Result (Unit {0}) × D =
          if not same then rotate_doc coll old_id new d else replace_doc coll new d in
        whole.0 ≡ ok tt
        → ((j : String) → v.doc j whole.1 ≡ saved (some old_id) new.id new j (v.doc j d))
          × (is_some (v.doc old_id d) ≡ true)
  known_doc-eq-ok old_id new d false e h =
      let (source, effect) = rotate_doc-eq-ok old_id new d h in (effect, source)
  known_doc-eq-ok old_id new d true e h =
      let (source, effect) = replace_doc-eq-ok new d h in
      let same = (str_eq_iff old_id new.id).0 e in
      (
        λ j. effect j ∙ put-saved old_id new.id new j (v.doc j d) same,
        ap (λ i. is_some (v.doc i d)) same ∙ source,
      )

  -- The documents after `save_doc` succeeded, and what it found before.
  pub save_doc-eq-ok :
      (origin : Option String) (new : SessionDoc) (d : D)
      → (save_doc coll origin new d).0 ≡ ok tt
      → ((j : String)
          → v.doc j (save_doc coll origin new d).1 ≡ saved origin new.id new j (v.doc j d))
        × ((origin ≡ none) × (v.doc new.id d ≡ none)
            ⊎ ((source : String) × (origin ≡ some source) × (is_some (v.doc source d) ≡ true)))
  unfolding save_doc
  save_doc-eq-ok none new d h =
      let (fresh, effect) = insert_one-eq-ok new d h in (effect, inl (refl, fresh))
  save_doc-eq-ok (some old_id) new d h =
      let (effect, source) = known_doc-eq-ok old_id new d (str_eq old_id new.id) refl h in
      (effect, inr (old_id, refl, source))
