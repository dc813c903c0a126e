-- ===== src/Tests/Cookies.antt =====
-- The signed cookies.
use Prim.Native.String.{◌++◌ as str_append}
use saysion.Prelude.{
  false, ℕ, ◌≤◌, String, ◌≡◌, refl, inl, inr, none, some, List, [], ◌∷◌, ◌++◌, arith, ok, err,
  invalid_text, length, ltb, byte_len, ◌==◌, if◌then◌else◌,
}
use saysion.Session.State.{Session, data_changed}
use saysion.Session.Cookies.{External}
use saysion.Session.Persist.{SessionSnapshot, snapshot}
use saysion.Cookie.Codec.{Codec, wire, deserialized, strip_prefix}
use saysion.Cookie.Store.{
  SignedCookieStore, mac, read_payload, load_signed, store_signed, load_unsigned, store_unsigned,
}
use saysion.Cookie.Signed
use saysion.Cookie.Unsigned
use saysion.Cookie.Signed.{Among, captured}
use saysion.Tests.Fixtures.{program, crates, letters, replicate, values, family, visitor}

-- The session that the stand-in of postcard writes in three bytes and reads from them.
abbrev written : SessionSnapshot
written = record { id = "live"; expiry = some 100; values = values }

abbrev three : List ℕ
three = 1 ∷ 2 ∷ 3 ∷ []

abbrev signed : List ℕ
signed = replicate 32 7 ++ three

-- A MAC is the first byte of the key, 32 times.
abbrev codec : Codec
codec = record {
  to_slice = λ size. λ snap. if ltb size 3 then err invalid_text else ok three;
  to_stdvec = λ snap. ok three;
  take_from_bytes = λ bytes. if length bytes == 3 then ok (written, []) else err invalid_text;
  from_bytes = λ bytes. if length bytes == 3 then ok written else err invalid_text;
  hmac = λ k. λ payload. elim k [ [] ↦ [] | b ∷ bs ↦ replicate 32 b ];
}

abbrev base64 : External
base64 = record crates {
  base64_decode = λ text. if byte_len text == 48 then ok signed else err invalid_text;
}

abbrev old_store : SignedCookieStore
old_store = record { signing_key = replicate 32 7; fallback_keys = [] }

-- The same after a new key: it reads the cookies of the old one.
abbrev new_store : SignedCookieStore
new_store = record { signing_key = replicate 32 8; fallback_keys = replicate 32 7 ∷ [] }

abbrev user : Session
user = visitor "live"

load_signed-store_example :
    (cookie : String) × ((store_signed base64 codec old_store (family none) user).0 ≡ ok cookie)
    × (byte_len cookie ≤ 3800)
    × (load_signed base64 codec 50 new_store cookie
        ≡ some (deserialized (captured (family none) user)))
unfolding program mac
load_signed-store_example =
    Signed.load_signed-store base64 codec 50 old_store new_store (family none) user three refl
      (omega arith) refl refl refl refl (inr (inl refl)) refl

load_signed_authentic_example :
    (byte_len (str_append "s1." (letters 48)) ≤ 3800)
    × (encoded : String) × (k : List ℕ) × (payload : List ℕ) × (strip_prefix "s1."
          (str_append "s1." (letters 48))
        ≡ some encoded)
    × Among k (replicate 32 8 ∷ replicate 32 7 ∷ [])
    × (base64.base64_decode encoded ≡ ok (mac base64 codec k payload ++ payload))
    × (length (mac base64 codec k payload) ≡ 32)
    × (read_payload base64 codec 50 payload ≡ some (deserialized written))
unfolding program mac load_signed
load_signed_authentic_example =
    Signed.load_signed_authentic base64 codec 50 new_store (str_append "s1." (letters 48))
      (deserialized written) refl

-- Decodes the texts of four bytes.
abbrev short_texts : External
short_texts = record crates {
  base64_decode = λ text. if byte_len text == 4 then ok three else err invalid_text;
}

load_unsigned-store_example :
    (cookie : String) × ((store_unsigned short_texts codec (family none) user).0 ≡ ok cookie)
    × (load_unsigned short_texts codec 50 cookie
        ≡ ok (some (deserialized (wire (snapshot (family none) user)))))
    × (data_changed
          (store_unsigned short_texts codec (family none) user).1
          (store_unsigned short_texts codec (family none) user).2
        ≡ false)
unfolding program wire
load_unsigned-store_example =
    Unsigned.load_unsigned-store short_texts codec 50 (family none) user three refl refl refl refl
      refl
