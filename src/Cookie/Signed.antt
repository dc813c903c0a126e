-- ===== src/Cookie/Signed.antt =====
-- What the signed cookies of src/signed_cookie_store.rs guarantee.
use Prim.Native.String.{◌++◌ as str_append}
use text.Mathlib.TextLemmas.{nil-append, cons-append}
use saysion.Prelude.{
  ℕ, ◌+◌, ◌*◌, ◌/◌, ◌≤◌, String, ◌≡◌, refl, sym, ap, true, false, ◌⊎◌, inl, inr, some, List, [],
  ◌∷◌, ◌++◌, arith, Error, ok, err, Result-cases, Bool-cases, Option-cases, length, length-append,
  ◌∙◌,
}
use saysion.Prelude.{byte_len}
use saysion.Session.State.{Lineage, Session, Owned, is_expired}
use saysion.Session.Cookies.{External}
use saysion.Session.Persist.{SessionSnapshot, serialize_bounded}
use saysion.Cookie.Codec.{
  Codec, deserialized, strip_prefix, strip_prefix-append, split_at_checked, split-append,
  split_at_checked_parts, bytes_eq, bytes_eq_lem, bytes_eq_refl,
}
use saysion.Cookie.Store.{
  SignedCookieStore, cookie_prefix, tag_len, mac, any_verifies, read_payload, read_signed,
  decode_signed, load_signed, signed_cookie, store_signed,
}

-- One of the keys.
abbrev pub Among : List ℕ → List (List ℕ) → Type 0
Among k [] = ⊥
Among k (j ∷ keys) = (k ≡ j) ⊎ Among k keys

-- What is captured of a session.
abbrev pub captured : Lineage → Session → SessionSnapshot
captured l s = record { id = s.id; expiry = s.expiry; values = l.data_.values }

module _ (x : External) (c : Codec) where
  any_verifies-Among :
      (keys : List (List ℕ)) (payload tag : List ℕ)
      → any_verifies x c keys payload tag ≡ true
      → (k : List ℕ) × Among k keys × (tag ≡ mac x c k payload)
  unfolding any_verifies
  any_verifies-Among [] payload tag h = cc
  any_verifies-Among (k ∷ keys) payload tag h =
      elim (Bool-cases (bytes_eq (mac x c k payload) tag)) [
        | inl e ↦ (k, inl refl, sym (bytes_eq_lem _ _ e))
        | inr e ↦
            let (j, among, same) = any_verifies-Among keys payload tag (ground arith) in
            (j, inr among, same)
      ]

  Among-any_verifies :
      (keys : List (List ℕ)) (k payload : List ℕ)
      → Among k keys
      → any_verifies x c keys payload (mac x c k payload) ≡ true
  unfolding any_verifies
  Among-any_verifies [] k payload h = absurd h
  Among-any_verifies (j ∷ keys) k payload (inl e) = rw (← e, bytes_eq_refl)
  Among-any_verifies (j ∷ keys) k payload (inr h) =
      ground (arith, Among-any_verifies keys k payload h)

  read_signed-some :
      (now : ℕ) (store : SignedCookieStore) (bytes : List ℕ) (o : Owned)
      → read_signed x c now store bytes ≡ some o
      → (k : List ℕ) × (payload : List ℕ) × Among k (store.signing_key ∷ store.fallback_keys)
        × (bytes ≡ mac x c k payload ++ payload)
        × (length (mac x c k payload) ≡ 32)
        × (read_payload x c now payload ≡ some o)
  unfolding read_signed
  read_signed-some now store bytes o h = elim (Option-cases (split_at_checked tag_len bytes)) [
    | inl e ↦ absurd (ground (arith, e))
    | inr ((tag, payload), e) ↦
        let good : any_verifies x c (store.signing_key ∷ store.fallback_keys) payload tag ≡ true =
          ground (arith, e) in
        let (k, among, same) =
          any_verifies-Among (store.signing_key ∷ store.fallback_keys) payload tag good in
        let (whole, long) = split_at_checked_parts tag_len bytes tag payload e in
        (k, payload, among, rw (← same) whole, rw (← same) long, ground (arith, e, good))
  ]

  decode_signed-some :
      (now : ℕ) (store : SignedCookieStore) (encoded : String) (o : Owned)
      → decode_signed x c now store encoded ≡ some o
      → (bytes : List ℕ) × (x.base64_decode encoded ≡ ok bytes)
        × (read_signed x c now store bytes ≡ some o)
  unfolding decode_signed
  decode_signed-some now store encoded o h = elim (Result-cases (x.base64_decode encoded)) [
    | inl (e, bad) ↦ absurd (ground (arith, bad))
    | inr (bytes, good) ↦ (bytes, good, ground (arith, good))
  ]

  load_signed-some :
      (now : ℕ) (store : SignedCookieStore) (cookie : String) (o : Owned)
      → load_signed x c now store cookie ≡ some o
      → (encoded : String) × (byte_len cookie ≤ 3800)
        × (strip_prefix cookie_prefix cookie ≡ some encoded)
        × (decode_signed x c now store encoded ≡ some o)
  unfolding load_signed
  load_signed-some now store cookie o h = elim (Option-cases (strip_prefix cookie_prefix cookie)) [
    | inl e ↦ absurd (ground (arith, e))
    | inr (encoded, e) ↦ (encoded, ground (arith, e), e, ground (arith, e))
  ]

  -- A value that the signed store loads a session from is short enough, begins with the prefix, and
  -- encodes a tag of 32 bytes and a payload of which the tag is the MAC under the signing key or a
  -- fallback key; and the session is read from that payload.
  pub load_signed_authentic :
      (now : ℕ) (store : SignedCookieStore) (cookie : String) (o : Owned)
      → load_signed x c now store cookie ≡ some o
      → (byte_len cookie ≤ 3800)
        × (encoded : String) × (k : List ℕ) × (payload : List ℕ) × (strip_prefix cookie_prefix
              cookie
            ≡ some encoded)
        × Among k (store.signing_key ∷ store.fallback_keys)
        × (x.base64_decode encoded ≡ ok (mac x c k payload ++ payload))
        × (length (mac x c k payload) ≡ 32)
        × (read_payload x c now payload ≡ some o)
  load_signed_authentic now store cookie o h =
      let (encoded, short, e, h₁) = load_signed-some now store cookie o h in
      let (bytes, d, h₂) = decode_signed-some now store encoded o h₁ in
      let (k, payload, among, whole, long, r) = read_signed-some now store bytes o h₂ in
      (short, encoded, k, payload, e, among, d ∙ ap ok whole, long, r)

prefixed_len : (text : String) → byte_len (str_append cookie_prefix text) ≡ 3 + byte_len text
unfolding cookie_prefix byte_len
prefixed_len text = rw (cons-append, cons-append, cons-append, nil-append) (omega arith)

module _ (x : External) (c : Codec) (now : ℕ) (store reader : SignedCookieStore) (l : Lineage)
    (s : Session) (payload : List ℕ) (serialized : c.to_slice 2815 (captured l s) ≡ ok payload)
    (fits : length payload ≤ 2815) (reads : c.take_from_bytes payload ≡ ok (captured l s, []))
    (tagged : length (mac x c store.signing_key payload) ≡ 32)
    (decodes : x.base64_decode (x.base64_encode (mac x c store.signing_key payload ++ payload))
      ≡ ok (mac x c store.signing_key payload ++ payload))
    (encoded_len : byte_len (x.base64_encode (mac x c store.signing_key payload ++ payload))
      ≡ (length (mac x c store.signing_key payload ++ payload) + 2) / 3 * 4)
    (known : Among store.signing_key (reader.signing_key ∷ reader.fallback_keys))
    (live : is_expired now s ≡ false) where
  signed_cookie-short : byte_len (signed_cookie x c store payload) ≤ 3800
  unfolding signed_cookie
  signed_cookie-short = omega (
    arith,
    prefixed_len (x.base64_encode (mac x c store.signing_key payload ++ payload)),
    length-append (mac x c store.signing_key payload) payload,
  )

  read_payload-captured : read_payload x c now payload ≡ some (deserialized (captured l s))
  unfolding read_payload
  read_payload-captured = rw (reads, read_payload) (ground (arith, live))

  read_signed-captured :
      read_signed x c now reader (mac x c store.signing_key payload ++ payload)
      ≡ some (deserialized (captured l s))
  unfolding read_signed
  read_signed-captured =
      rw (split, read_signed)
        (rw (Among-any_verifies x c _ store.signing_key payload known) read_payload-captured)
    where
      split :
          split_at_checked tag_len (mac x c store.signing_key payload ++ payload)
          ≡ some (mac x c store.signing_key payload, payload)
      split =
          ap (λ n. split_at_checked n (mac x c store.signing_key payload ++ payload)) (sym tagged)
          ∙ split-append (mac x c store.signing_key payload) payload

  decode_signed-captured :
      decode_signed x c now reader (x.base64_encode (mac x c store.signing_key payload ++ payload))
      ≡ some (deserialized (captured l s))
  unfolding decode_signed
  decode_signed-captured = rw (decodes, decode_signed) read_signed-captured

  load_signed-captured :
      load_signed x c now reader (signed_cookie x c store payload)
      ≡ some (deserialized (captured l s))
  unfolding load_signed
  load_signed-captured =
      rw (stripped, load_signed) (ground (arith, signed_cookie-short, decode_signed-captured))
    where
      stripped :
          strip_prefix cookie_prefix (signed_cookie x c store payload)
          ≡ some (x.base64_encode (mac x c store.signing_key payload ++ payload))
      stripped =
          unfold signed_cookie in
          strip_prefix-append cookie_prefix
            (x.base64_encode (mac x c store.signing_key payload ++ payload))

  -- A session whose serialized form fits the buffer is stored in a cookie of at most 3,800 bytes,
  -- and each store that signs with that key, or has it as a fallback key, loads from the cookie the
  -- identity, the expiry and the values, until the expiry passes; if the codecs read what they wrote
  -- and their lengths are as documented.
  pub load_signed-store :
      (cookie : String) × ((store_signed x c store l s).0 ≡ ok cookie)
      × (byte_len cookie ≤ 3800)
      × (load_signed x c now reader cookie ≡ some (deserialized (captured l s)))
  load_signed-store =
      (signed_cookie x c store payload, stored, signed_cookie-short, load_signed-captured)
    where
      stored : (store_signed x c store l s).0 ≡ ok (signed_cookie x c store payload)
      stored = unfold store_signed in rw (serialized, store_signed, serialize_bounded)

-- Storing a session that the serializer refuses fails with the serializer's error, and changes
-- nothing: no save is under way afterwards, and the data is marked as changed if it was before.
pub store_signed_failure :
    (x : External) (c : Codec) (store : SignedCookieStore) (l : Lineage) (s : Session) (e : Error)
    → c.to_slice 2815 (captured l s) ≡ err e
    → store_signed x c store l s ≡ (err e, l, s)
unfolding store_signed
store_signed_failure x c store l s e h = rw (h, store_signed, serialize_bounded)
