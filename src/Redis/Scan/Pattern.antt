-- ===== src/Redis/Scan/Pattern.antt =====
-- `prefix_pattern` of src/redis_store.rs, which takes a prefix literally.
use Prim.Native.Char.{Char, code}
use saysion.Prelude.{
  ℕ, String, ◌≡◌, ap, ◌||◌, arith, ◌∙◌, Bool, true, false, inl, inr, ◌==◌, starts_with, Bool-cases,
  if◌then◌else◌,
}
use saysion.Redis.{is_special, prefix_pattern}

-- The characters that the manual of Redis gives a meaning in a pattern.
abbrev pub is_wild : ℕ → Bool
is_wild c = (c == b'*' || c == b'?') || (c == b'[' || c == b'\\')

-- What the manual of Redis says of the patterns that occur: a star that ends a pattern matches each
-- text, a backslash takes the next character literally, and a character with no
-- meaning of its own stands for itself.
pub record Glob : Type 0 where
  pub matches : String → String → Bool
  pub star : (s : String) → matches "*" s ≡ true
  pub escaped :
      (c : Char) (pattern : String) (d : Char) (s : String)
      → matches (String.◌∷◌ "\\" (String.◌∷◌ c pattern)) (String.◌∷◌ d s)
        ≡ (if code c == code d then matches pattern s else false)
  pub escaped_end :
      (c : Char) (pattern : String)
      → matches (String.◌∷◌ "\\" (String.◌∷◌ c pattern)) String.[] ≡ false
  pub literal :
      (c : Char) (pattern : String) (d : Char) (s : String)
      → is_wild (code c) ≡ false
      → matches (String.◌∷◌ c pattern) (String.◌∷◌ d s)
        ≡ (if code c == code d then matches pattern s else false)
  pub literal_end :
      (c : Char) (pattern : String)
      → is_wild (code c) ≡ false
      → matches (String.◌∷◌ c pattern) String.[] ≡ false

plain_literal : (c : ℕ) → is_special c ≡ false → is_wild c ≡ false
plain_literal c h = ground (arith, h)

-- The pattern of a prefix matches the keys that start with the prefix, and no others, whatever
-- special characters the prefix holds.
pub prefix_pattern-matches :
    (glob : Glob) (prefix s : String)
    → glob.matches (prefix_pattern prefix) s ≡ starts_with prefix s
unfolding prefix_pattern
prefix_pattern-matches glob String.[] s = glob.star s
prefix_pattern-matches glob (String.◌∷◌ c prefix) String.[] =
    elim (Bool-cases (is_special (code c))) [
      | inl special ↦ rw special (glob.escaped_end c (prefix_pattern prefix))
      | inr plain ↦
          rw plain (glob.literal_end c (prefix_pattern prefix) (plain_literal (code c) plain))
    ]
prefix_pattern-matches glob (String.◌∷◌ c prefix) (String.◌∷◌ d s) =
    let same =
      ap (λ x. if code c == code d then x else false) (prefix_pattern-matches glob prefix s) in
    elim (Bool-cases (is_special (code c))) [
      | inl special ↦ rw special (glob.escaped c (prefix_pattern prefix) d s ∙ same)
      | inr plain ↦
          rw plain
            (glob.literal c (prefix_pattern prefix) d s (plain_literal (code c) plain) ∙ same)
    ]
