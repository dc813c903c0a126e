-- ===== src/Cookie/Codec.antt =====
-- The crates that src/cookie_store.rs and src/signed_cookie_store.rs encode with, as parameters,
-- and the functions on texts and bytes that they use.
use Prim.Native.Char.{code}
use Prim.Native.String
use text.Mathlib.TextLemmas.{nil-append, cons-append}
use saysion.Prelude.{
  ℕ, String, ◌≡◌, refl, ap, Bool, true, false, ◌&&◌, Option, none, some, List, [], ◌∷◌, ◌++◌, arith,
  Result, ◌==◌, if◌then◌else◌, length, take, drop, ltb, length-append, length-take,
  take-append-drop,
}
use saysion.Session.State.{Owned, new_lineage}
use saysion.Session.Persist.{SessionSnapshot}

pub record Codec : Type 0 where
  -- `postcard::to_slice` into a buffer of the given size, and `to_stdvec`
  pub to_slice : ℕ → SessionSnapshot → Result (List ℕ)
  pub to_stdvec : SessionSnapshot → Result (List ℕ)
  -- `postcard::take_from_bytes`, with the bytes left, and `from_bytes`
  pub take_from_bytes : List ℕ → Result (SessionSnapshot × List ℕ)
  pub from_bytes : List ℕ → Result SessionSnapshot
  -- HMAC-SHA256 of a message under a key
  pub hmac : List ℕ → List ℕ → List ℕ

-- `Serialize for Session`: the fields that are not skipped.
unfoldable pub wire : Owned → SessionSnapshot
wire o = record { id = o.session.id; expiry = o.session.expiry; values = o.lineage.data_.values }

-- `Deserialize for Session`: the skipped fields have their defaults.
unfoldable pub deserialized : SessionSnapshot → Owned
unfolding new_lineage
deserialized snap = record {
  session = record {
    id = snap.id;
    expiry = snap.expiry;
    cookie_value = none;
    metadata_changed = false;
    rotation_from = none;
    fresh = false;
  };
  lineage = new_lineage snap.values none;
}

-- `str::strip_prefix`
unfoldable pub strip_prefix : String → String → Option String
strip_prefix String.[] text = some text
strip_prefix (String.◌∷◌ c prefix) String.[] = none
strip_prefix (String.◌∷◌ c prefix) (String.◌∷◌ d text) =
    let rest = strip_prefix prefix text in if code c == code d then rest else none

-- `[u8]::split_at_checked`
unfoldable pub split_at_checked : ℕ → List ℕ → Option (List ℕ × List ℕ)
split_at_checked n bytes = if ltb (length bytes) n then none else some (take n bytes, drop n bytes)

-- `Mac::verify_slice`, up to the time that it takes.
unfoldable pub bytes_eq : List ℕ → List ℕ → Bool
bytes_eq [] [] = true
bytes_eq [] (b ∷ bs) = false
bytes_eq (a ∷ as_) [] = false
bytes_eq (a ∷ as_) (b ∷ bs) = a == b && bytes_eq as_ bs

pub bytes_eq_lem : (as_ bs : List ℕ) → bytes_eq as_ bs ≡ true → as_ ≡ bs
unfolding bytes_eq
bytes_eq_lem [] [] h = refl
bytes_eq_lem [] (b ∷ bs) h = cc
bytes_eq_lem (a ∷ as_) [] h = cc
bytes_eq_lem (a ∷ as_) (b ∷ bs) h = ground (arith, bytes_eq_lem as_ bs)

pub bytes_eq_refl : (as_ : List ℕ) → bytes_eq as_ as_ ≡ true
unfolding bytes_eq
bytes_eq_refl [] = refl
bytes_eq_refl (a ∷ as_) = ground (arith, bytes_eq_refl as_)

pub strip_prefix-append :
    (prefix text : String) → strip_prefix prefix (String.◌++◌ prefix text) ≡ some text
unfolding strip_prefix
strip_prefix-append String.[] text = ap some (nil-append text)
strip_prefix-append (String.◌∷◌ c prefix) text =
    rw cons-append (ground (arith, strip_prefix-append prefix text))

take-append : (xs ys : List ℕ) → take (length xs) (xs ++ ys) ≡ xs
take-append [] ys = refl
take-append (x ∷ xs) ys = ground (arith, take-append xs ys)

drop-append : (xs ys : List ℕ) → drop (length xs) (xs ++ ys) ≡ ys
drop-append [] ys = refl
drop-append (x ∷ xs) ys = drop-append xs ys

pub split-append : (xs ys : List ℕ) → split_at_checked (length xs) (xs ++ ys) ≡ some (xs, ys)
unfolding split_at_checked
split-append xs ys = ground (arith, length-append xs ys, take-append xs ys, drop-append xs ys)

-- What `split_at_checked` returns is the two parts.
pub split_at_checked_parts :
    (n : ℕ) (bytes front back : List ℕ)
    → split_at_checked n bytes ≡ some (front, back)
    → (bytes ≡ front ++ back) × (length front ≡ n)
unfolding split_at_checked
split_at_checked_parts n bytes front back h =
    ground (arith, take-append-drop n bytes, length-take n bytes)
