-- ===== src/Backend/Loads.antt =====
-- `load_session` of the stores with a backend, on a record that was stored.
use saysion.Prelude.{
  ℕ, String, ◌≡◌, refl, sym, ap, ◌∙◌, false, Option, some, Result, ok, ◌>>=◌, str_eq_refl,
  >>=-eq-ok, Option-cases, inl, inr, arith,
}
use saysion.Session.Loaded.{validate_loaded_sound}
use saysion.Session.Revision.{with_values}
use saysion.Session.State.{Owned, is_expired, new_lineage, data_changed}
use saysion.Session.Identity.{persistence_origin}
use saysion.Session.Cookies.{External, id_from_cookie_value}
use saysion.Session.Persist.{SessionSnapshot, validate_loaded, loaded_data}
use saysion.Cookie.Codec.{deserialized}
use saysion.Memory.Loads.{loaded_session}
use saysion.Backend.{load_record}

validate_loaded-deserialized :
    (x : External) (now : ℕ) (cookie : String) (snap : SessionSnapshot)
    → id_from_cookie_value x cookie ≡ ok snap.id
    → is_expired now (deserialized snap).session ≡ false
    → validate_loaded x now false cookie (deserialized snap)
      ≡ ok (some (loaded_session snap.id snap.expiry snap.values))
unfolding validate_loaded deserialized loaded_data new_lineage with_values
validate_loaded-deserialized x now cookie snap c e = rw (c, ◌>>=◌, str_eq_refl) (rw e refl)

-- A record that is found, and read back as the snapshot that was written, is loaded.
pub load_record-found :
    (x : External) (from_str : String → Result Owned) (now : ℕ)
    (fetch : String → Result (Option String)) (cookie json : String) (snap : SessionSnapshot)
    → id_from_cookie_value x cookie ≡ ok snap.id
    → fetch snap.id ≡ ok (some json)
    → from_str json ≡ ok (deserialized snap)
    → is_expired now (deserialized snap).session ≡ false
    → load_record x from_str now fetch cookie
      ≡ ok (some (loaded_session snap.id snap.expiry snap.values))
unfolding load_record
load_record-found x from_str now fetch cookie json snap c f r e =
    rw (c, load_record, ◌>>=◌, f, r) (validate_loaded-deserialized x now cookie snap c e)

-- A session that is loaded was found under its own identity, may replace the record of that identity
-- only, and has no unsaved changes.
pub load_record-eq-ok :
    (x : External) (from_str : String → Result Owned) (now : ℕ)
    (fetch : String → Result (Option String)) (cookie : String) (o : Owned)
    → load_record x from_str now fetch cookie ≡ ok (some o)
    → (json : String) × (fetch o.session.id ≡ ok (some json))
      × (persistence_origin o.lineage o.session ≡ ok (some o.session.id))
      × (data_changed o.lineage o.session ≡ false)
unfolding load_record
load_record-eq-ok x from_str now fetch cookie o h =
    let (id, c, h₁) = >>=-eq-ok (id_from_cookie_value x cookie) _ h in
    let (row, f, h₂) = >>=-eq-ok (fetch id) _ h₁ in
    elim (Option-cases row) [
      | inl absent ↦ absurd (ground (arith, absent, h₂))
      | inr (json, there) ↦
          let parsed : (from_str json >>= λ r. validate_loaded x now false cookie r) ≡ ok (some o) =
            ground (arith, there, h₂) in
          let (r, _, h₃) = >>=-eq-ok (from_str json) _ parsed in
          let (c', _, _, kept, _, _, clean, origin) =
            validate_loaded_sound x now false cookie r o h₃ in
          (
            json,
            ap fetch (kept ∙ same id r.session.id (sym c ∙ c')) ∙ (f ∙ ap ok there),
            origin ∙ ap (λ i. ok (some i)) (sym kept),
            clean,
          )
    ]
  where
    same : (id own : String) → ok id ≡ ok own → own ≡ id
    same id own e = cc
