-- ===== src/Session/Loaded.antt =====
-- What `Session::validate_loaded` of src/session.rs accepts, and the session that it returns.
use saysion.Prelude.{
  ℕ, String, ◌≡◌, refl, Bool, true, false, some, arith, str_eq, str_eq_iff, id_mismatch, ok,
  >>=-eq-ok, ensure, ensure-true,
}
use saysion.Session.Revision.{SessionData, is_dirty}
use saysion.Session.State.{Owned, is_expired, data_changed}
use saysion.Session.Cookies.{External, id_from_cookie_value}
use saysion.Session.Identity.{persistence_origin}
use saysion.Session.Persist.{validate_loaded, loaded_data}

loaded_data-clean : (b : Bool) (d : SessionData) → is_dirty (loaded_data b d) ≡ false
unfolding loaded_data is_dirty
loaded_data-clean true d = refl
loaded_data-clean false d = ground arith

loaded_data-values : (b : Bool) (d : SessionData) → (loaded_data b d).values ≡ d.values
unfolding loaded_data
loaded_data-values true d = refl
loaded_data-values false d = refl

-- A record that `validate_loaded` accepts bears the identity of the cookie it was fetched with, is
-- not expired and was not destroyed. The session that it returns keeps the record's identity,
-- expiry and values, has no unsaved changes, and may update the record of its identity.
pub validate_loaded_sound :
    (x : External) (now : ℕ) (is_shared : Bool) (cookie : String) (o o' : Owned)
    → validate_loaded x now is_shared cookie o ≡ ok (some o')
    → (id_from_cookie_value x cookie ≡ ok o.session.id)
      × (is_expired now o.session ≡ false)
      × (o.lineage.destroy ≡ false)
      × (o'.session.id ≡ o.session.id)
      × (o'.session.expiry ≡ o.session.expiry)
      × (o'.lineage.data_.values ≡ o.lineage.data_.values)
      × (data_changed o'.lineage o'.session ≡ false)
      × (persistence_origin o'.lineage o'.session ≡ ok (some o.session.id))
unfolding validate_loaded data_changed persistence_origin
validate_loaded_sound x now is_shared cookie o o' h =
    let (id, c, h₁) = >>=-eq-ok (id_from_cookie_value x cookie) _ h in
    let (u, m, h₂) = >>=-eq-ok (ensure (str_eq o.session.id id) id_mismatch) _ h₁ in
    let same = (str_eq_iff o.session.id id).0 (ensure-true _ _ m) in
    ground (
      arith,
      c,
      same,
      h₂,
      loaded_data-clean is_shared o.lineage.data_,
      loaded_data-values is_shared o.lineage.data_,
      str_eq_iff o.session.id o.session.id,
    )
