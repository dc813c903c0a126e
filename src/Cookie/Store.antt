-- ===== src/Cookie/Store.antt =====
-- src/cookie_store.rs and src/signed_cookie_store.rs: `SessionStore for CookieStore` and for
-- `SignedCookieStore`. Neither has a state, so that destroying and clearing do nothing.
use Prim.Native.String.{◌++◌ as str_append}
use saysion.Prelude.{
  ℕ, ◌-◌, ◌*◌, ◌/◌, String, Bool, false, not, ◌||◌, Option, none, some, List, [], ◌∷◌, ◌++◌,
  weak_key, Result, ok, err, ◌>>=◌, ◌>>◌, ensure, leb, ltb, length, if◌then◌else◌,
}
use saysion.Prelude.{byte_len}
use saysion.Session.Revision.{SaveRevision}
use saysion.Session.State.{Lineage, Session, Owned, is_expired}
use saysion.Session.Cookies.{External}
use saysion.Session.Persist.{
  persistence_snapshot, serialize_bounded, acknowledge_revision, abandon_revision,
}
use saysion.Cookie.Codec.{Codec, wire, deserialized, strip_prefix, split_at_checked, bytes_eq}

unfoldable pub cookie_prefix : String
cookie_prefix = "s1."

-- The bytes of "saysion:signed-cookie:v1:".
unfoldable pub domain : List ℕ
domain =
    115 ∷ 97 ∷ 121 ∷ 115 ∷ 105 ∷ 111 ∷ 110 ∷ 58 ∷ 115 ∷ 105 ∷ 103 ∷ 110 ∷ 101 ∷ 100 ∷ 45 ∷ 99 ∷ 111
    ∷ 111 ∷ 107 ∷ 105 ∷ 101 ∷ 58 ∷ 118 ∷ 49 ∷ 58 ∷ []

unfoldable pub tag_len : ℕ
tag_len = 32

unfoldable pub max_value_len : ℕ
max_value_len = 3800

unfoldable pub max_binary_len : ℕ
unfolding max_value_len cookie_prefix
max_binary_len = (max_value_len - 3) / 4 * 3

-- A key of the HMAC is the bytes it is made from.
pub record SignedCookieStore : Type 0 where
  pub signing_key : List ℕ
  pub fallback_keys : List (List ℕ)

unfoldable pub key : List ℕ → Result (List ℕ)
key bytes = do ensure (leb 32 (length bytes)) weak_key; ok bytes

unfoldable pub new : List ℕ → Result SignedCookieStore
unfolding key
new bytes = do k ← key bytes; ok (record { signing_key = k; fallback_keys = [] })

unfoldable pub with_fallback_key : List ℕ → SignedCookieStore → Result SignedCookieStore
unfolding key
with_fallback_key bytes store = do
  k ← key bytes
  ok (record store { fallback_keys = store.fallback_keys ++ k ∷ [] })

-- `validate`, of a session that was just read.
unfoldable pub validate_owned : ℕ → Owned → Option Owned
unfolding is_expired
validate_owned now o = if is_expired now o.session then none else some o

-- `destroy_session` and `clear_store` of both stores.
unfoldable pub destroy_session : Session → Lineage → Result (Unit {0})
destroy_session s l = ok tt

unfoldable pub clear_store : Result (Unit {0})
clear_store = ok tt

module _ (x : External) (c : Codec) where
  unfoldable pub mac : List ℕ → List ℕ → List ℕ
  unfolding domain
  mac k payload = c.hmac k (domain ++ payload)

  -- `.any(|key| mac(key, payload).verify_slice(tag).is_ok())`
  unfoldable pub any_verifies : List (List ℕ) → List ℕ → List ℕ → Bool
  unfolding mac bytes_eq
  any_verifies [] payload tag = false
  any_verifies (k ∷ keys) payload tag =
      bytes_eq (mac k payload) tag || any_verifies keys payload tag

  -- The part of `load_session` after the authentication: the payload is one session.
  unfoldable pub read_payload : ℕ → List ℕ → Option Owned
  unfolding deserialized validate_owned
  read_payload now payload = elim (c.take_from_bytes payload) [
    | err e ↦ none
    | ok (snap, []) ↦ validate_owned now (deserialized snap)
    | ok (snap, b ∷ rest) ↦ none
  ]

  unfoldable pub read_signed : ℕ → SignedCookieStore → List ℕ → Option Owned
  unfolding split_at_checked any_verifies read_payload tag_len
  read_signed now store bytes = elim (split_at_checked tag_len bytes) [
    | none ↦ none
    | some (tag, payload) ↦
        if not (any_verifies (store.signing_key ∷ store.fallback_keys) payload tag)
        then none
        else read_payload now payload
  ]

  unfoldable pub decode_signed : ℕ → SignedCookieStore → String → Option Owned
  unfolding read_signed
  decode_signed now store encoded = elim (x.base64_decode encoded) [
    | err e ↦ none
    | ok bytes ↦ read_signed now store bytes
  ]

  -- `load_session` of the signed store, which never fails.
  unfoldable pub load_signed : ℕ → SignedCookieStore → String → Option Owned
  unfolding max_value_len strip_prefix cookie_prefix decode_signed
  load_signed now store cookie_value =
      if ltb max_value_len (byte_len cookie_value)
      then none
      else elim (strip_prefix cookie_prefix cookie_value) [
        | none ↦ none
        | some encoded ↦ decode_signed now store encoded
      ]

  unfoldable pub signed_cookie : SignedCookieStore → List ℕ → String
  unfolding mac cookie_prefix
  signed_cookie store payload =
      str_append cookie_prefix (x.base64_encode (mac store.signing_key payload ++ payload))

  -- The part of `store_session` of the signed store from the serialized payload on.
  unfoldable pub finish_signed :
      SignedCookieStore
      → Session
      → Result (List ℕ × SaveRevision)
      → Lineage
      → Result String × Lineage × Session
  unfolding signed_cookie acknowledge_revision
  finish_signed store s (err e) l = (err e, l, s)
  finish_signed store s (ok (payload, r)) l =
      let (l', s') = acknowledge_revision r l s in (ok (signed_cookie store payload), l', s')

  unfoldable pub store_signed :
      SignedCookieStore → Lineage → Session → Result String × Lineage × Session
  unfolding serialize_bounded max_binary_len tag_len finish_signed
  store_signed store l s =
      let (payload, l') = serialize_bounded (c.to_slice (max_binary_len - tag_len)) l s in
      finish_signed store s payload l'

  -- `load_session` of the unsigned store.
  unfoldable pub load_unsigned : ℕ → String → Result (Option Owned)
  unfolding deserialized validate_owned
  load_unsigned now cookie_value = do
    serialized ← x.base64_decode cookie_value
    snap ← c.from_bytes serialized
    ok (validate_owned now (deserialized snap))

  -- The part of `store_session` of the unsigned store from the serialized snapshot on; the token
  -- of a snapshot that is not serialized is dropped.
  unfoldable pub finish_unsigned :
      Session → SaveRevision → Result (List ℕ) → Lineage → Result String × Lineage × Session
  unfolding acknowledge_revision abandon_revision
  finish_unsigned s r (err e) l = (err e, abandon_revision r l, s)
  finish_unsigned s r (ok serialized) l =
      let (l', s') = acknowledge_revision r l s in (ok (x.base64_encode serialized), l', s')

  unfoldable pub store_unsigned : Lineage → Session → Result String × Lineage × Session
  unfolding persistence_snapshot wire finish_unsigned
  store_unsigned l s =
      let (snap, r, l') = persistence_snapshot l s in
      finish_unsigned s r (c.to_stdvec (wire snap)) l'
