-- ===== src/Session/Fresh.antt =====
-- Server-side cookies in src/session.rs: which values are accepted, and what a new session has.
use saysion.Prelude.{
  ℕ, String, ◌≡◌, refl, sym, ap, false, none, some, List, arith, ◌↔◌, inl, inr, ok, ◌>>=◌,
  Result-cases, length, ◌∙◌,
}
use saysion.Prelude.{byte_len}
use saysion.Session.Revision.{is_dirty}
use saysion.Session.State.{Lineage, Session, Owned, data_changed}
use saysion.Session.Cookies.{External, id_from_cookie_value, new, fresh_session, regenerate}
use saysion.Session.Identity.{persistence_attempt, rotate}

module _ (x : External) (text : String) where
  accepted :
      (id : String)
      → id_from_cookie_value x text ≡ ok id
      → (bytes : List ℕ) × (byte_len text ≡ 88)
        × (x.base64_decode text ≡ ok bytes)
        × (length bytes ≡ 64)
        × (id ≡ x.base64_encode (x.blake3 bytes))
  unfolding id_from_cookie_value
  accepted id h = elim (Result-cases (x.base64_decode text)) [
    | inl (e, bad) ↦ absurd (ground (arith, bad))
    | inr (bytes, good) ↦
        (bytes, ground (arith, good), good, ground (arith, good), ground (arith, good))
  ]

  accepts :
      (bytes : List ℕ)
      → byte_len text ≡ 88
      → x.base64_decode text ≡ ok bytes
      → length bytes ≡ 64
      → id_from_cookie_value x text ≡ ok (x.base64_encode (x.blake3 bytes))
  unfolding id_from_cookie_value
  accepts bytes a b c = ground arith

-- A server-side cookie is accepted exactly if it has 88 bytes and decodes to 64 bytes, and then its
-- identity is the encoded hash of those.
pub id_from_cookie_value_iff :
    (x : External) (text id : String)
    → (id_from_cookie_value x text ≡ ok id) ↔ (
        (bytes : List ℕ) × (byte_len text ≡ 88)
        × (x.base64_decode text ≡ ok bytes)
        × (length bytes ≡ 64)
        × (id ≡ x.base64_encode (x.blake3 bytes)))
id_from_cookie_value_iff x text id =
    (accepted x text id, λ (bytes, a, b, c, e). accepts x text bytes a b c ∙ ap ok (sym e))

-- With a key of 64 bytes, which encodes to 88 and is decoded again, `Session::new` does not panic:
-- the session's cookie gives its identity, it has no changes to save, and its first attempt may
-- create a record. Nor does regenerating any session with such a key panic: its identity is then
-- that of its new cookie.
pub new_session :
    (x : External) (key : List ℕ) (l : Lineage) (s : Session)
    → length key ≡ 64
    → byte_len (x.base64_encode key) ≡ 88
    → x.base64_decode (x.base64_encode key) ≡ ok key
    → (o : Owned) × (r : Session) × (new x key ≡ ok o)
      × (o.session.cookie_value ≡ some (x.base64_encode key))
      × (id_from_cookie_value x (x.base64_encode key) ≡ ok o.session.id)
      × (data_changed o.lineage o.session ≡ false)
      × ((persistence_attempt o.lineage o.session).0 ≡ ok none)
      × (regenerate x l key s ≡ ok r)
      × (r.cookie_value ≡ some (x.base64_encode key))
      × (id_from_cookie_value x (x.base64_encode key) ≡ ok r.id)
unfolding new regenerate data_changed persistence_attempt is_dirty
new_session x key l s h k d =
    let e = accepts x (x.base64_encode key) key k d h in
    let id = x.base64_encode (x.blake3 key) in
    (
      fresh_session x (x.base64_encode key) id,
      rotate l id (x.base64_encode key) s,
      ap (λ r. r >>= λ i. ok (fresh_session x (x.base64_encode key) i)) e,
      refl,
      e,
      refl,
      refl,
      ap (λ r. r >>= λ i. ok (rotate l i (x.base64_encode key) s)) e,
      refl,
      e,
    )
