-- ===== src/Sql/Sqlite/Targets.antt =====
-- Which names `index_target` of src/sqlx_store.rs takes apart, and where.
use Prim.Native.Char.{Char, code}
use saysion.Prelude.{
  ℕ, String, ◌≡◌, ◌||◌, refl, sym, ap, ◌∙◌, Bool, true, not, ◌&&◌, Option, none, some, List, [],
  ◌∷◌, All, arith, ◌==◌, concat, before, if◌then◌else◌,
}
use saysion.Sql.Store.{expiry_index_name}
use saysion.Sql.Sqlite.Names.{
  plain, quoted, comes_next, advance, after, split_qualified, trim, index_target,
}

-- The marks that SQLite takes for the delimiters of an identifier: the double quote, the single quote
-- and the backtick.
abbrev pub is_delimiter : ℕ → Bool
is_delimiter c = (c == b'"' || c == b'\'') || c == b'`'

-- The parts of a name: a character that stands for itself, an identifier in quotes, in which its
-- delimiter is doubled, and one in brackets.
pub data Piece : Type 0 where
  bare : Char → Piece
  quotation : Char → String → Piece
  bracketed : String → Piece

abbrev pub doubled : Char → String → String
doubled d String.[] = String.[]
doubled d (String.◌∷◌ c s) =
    let rest = doubled d s in
    if code c == code d then String.◌∷◌ c (String.◌∷◌ c rest) else String.◌∷◌ c rest

abbrev pub written : Piece → String
written (bare c) = String.◌∷◌ c String.[]
written (quotation d s) = String.◌∷◌ d (before (doubled d s) (String.◌∷◌ d String.[]))
written (bracketed s) = String.◌∷◌ "[" (before s (String.◌∷◌ "]" String.[]))

abbrev pub spelled : List Piece → String
spelled [] = String.[]
spelled (p ∷ ps) = before (written p) (spelled ps)

abbrev pub lacks : ℕ → String → Bool
lacks b String.[] = true
lacks b (String.◌∷◌ c s) = not (code c == b) && lacks b s

abbrev pub is_proper : Piece → Bool
is_proper (bare c) = not (is_delimiter (code c)) && (not (code c == b'[') && not (code c == b'.'))
is_proper (quotation d s) = is_delimiter (code d)
is_proper (bracketed s) = lacks b']' s

abbrev after_text : String → Option (String × String) → Option (String × String)
after_text String.[] r = r
after_text (String.◌∷◌ c s) r = after c (after_text s r)

before_assoc : (a b c : String) → before (before a b) c ≡ before a (before b c)
before_assoc String.[] b c = refl
before_assoc (String.◌∷◌ x a) b c = ap (String.◌∷◌ x) (before_assoc a b c)

after_text-before :
    (a b : String) (r : Option (String × String))
    → after_text (before a b) r ≡ after_text a (after_text b r)
after_text-before String.[] b r = refl
after_text-before (String.◌∷◌ x a) b r = ap (after x) (after_text-before a b r)

-- The delimiter that ends a quotation may also begin the next one.
split-close :
    (d : Char) (t : String)
    → is_delimiter (code d) ≡ true
    → split_qualified (advance (quoted (code d)) (code d) t) t ≡ split_qualified plain t
unfolding split_qualified comes_next
split-close d String.[] h = ground (arith, h)
split-close d (String.◌∷◌ e t) h = ground (arith, h)

split-quotation :
    (d : Char) (s t : String)
    → is_delimiter (code d) ≡ true
    → split_qualified (quoted (code d)) (before (doubled d s) (String.◌∷◌ d t))
      ≡ after_text (doubled d s) (after d (split_qualified plain t))
unfolding split_qualified
split-quotation d String.[] t h = ap (after d) (split-close d t h)
split-quotation d (String.◌∷◌ c s) t h = ground (arith, split-quotation d s t h)

split-bracketed :
    (s t : String)
    → lacks b']' s ≡ true
    → split_qualified (quoted b']') (before s (String.◌∷◌ "]" t))
      ≡ after_text s (after "]" (split_qualified plain t))
unfolding split_qualified comes_next
split-bracketed String.[] t h = refl
split-bracketed (String.◌∷◌ c s) t h = ground (arith, h, split-bracketed s t)

split-written :
    (p : Piece) (t : String)
    → is_proper p ≡ true
    → split_qualified plain (before (written p) t)
      ≡ after_text (written p) (split_qualified plain t)
unfolding split_qualified comes_next
split-written (bare c) t h = ground (arith, h)
split-written (quotation d s) t h =
    quote-step
    ∙ (ap (after d) (
          ap (λ x. split_qualified (quoted (code d)) x)
            (before_assoc (doubled d s) (String.◌∷◌ d String.[]) t))
        ∙ (ap (after d) (split-quotation d s t h)
            ∙ ap (after d) (
                sym (
                  after_text-before (doubled d s) (String.◌∷◌ d String.[])
                    (split_qualified plain t)))))
  where
    quote-step :
        split_qualified plain (before (written (quotation d s)) t)
        ≡ after d (
            split_qualified
              (quoted (code d))
              (before (before (doubled d s) (String.◌∷◌ d String.[])) t))
    quote-step = ground (arith, h)
split-written (bracketed s) t h = ap (after "[") (
    ap (split_qualified (quoted b']')) (before_assoc s "]" t)
    ∙ (split-bracketed s t h ∙ sym (after_text-before s "]" (split_qualified plain t))))

split-spelled :
    (ps : List Piece) (t : String)
    → All (λ p. is_proper p ≡ true) ps
    → split_qualified plain (before (spelled ps) t)
      ≡ after_text (spelled ps) (split_qualified plain t)
split-spelled [] t h = refl
split-spelled (p ∷ ps) t (h, hs) =
    ap (split_qualified plain) (before_assoc (written p) (spelled ps) t)
    ∙ (split-written p (before (spelled ps) t) h
        ∙ (ap (after_text (written p)) (split-spelled ps t hs)
            ∙ sym (after_text-before (written p) (spelled ps) (split_qualified plain t))))

after_text-some : (a b rest : String) → after_text a (some (b, rest)) ≡ some (before a b, rest)
after_text-some String.[] b rest = refl
after_text-some (String.◌∷◌ c a) b rest = ap (after c) (after_text-some a b rest)

after_text-none : (a : String) → after_text a none ≡ none
after_text-none String.[] = refl
after_text-none (String.◌∷◌ c a) = ap (after c) (after_text-none a)

before-nil : (a : String) → before a String.[] ≡ a
before-nil String.[] = refl
before-nil (String.◌∷◌ c a) = ap (String.◌∷◌ c) (before-nil a)

split-name :
    (ps : List Piece) (rest : String)
    → All (λ p. is_proper p ≡ true) ps
    → split_qualified plain (before (spelled ps) (String.◌∷◌ "." rest)) ≡ some (spelled ps, rest)
unfolding split_qualified
split-name ps rest h =
    split-spelled ps (String.◌∷◌ "." rest) h
    ∙ (after_text-some (spelled ps) String.[] rest
        ∙ ap (λ x. some (x, rest)) (before-nil (spelled ps)))

split-whole :
    (ps : List Piece) → All (λ p. is_proper p ≡ true) ps → split_qualified plain (spelled ps) ≡ none
unfolding split_qualified
split-whole ps h =
    ap (split_qualified plain) (sym (before-nil (spelled ps)))
    ∙ (split-spelled ps String.[] h ∙ after_text-none (spelled ps))

-- A name is taken apart at its first dot that stands outside of quotation marks and brackets,
-- whatever dots, doubled delimiters and other marks the quoted parts before it hold: the part before
-- the dot qualifies the name of the index, and the part after it is the table. A name with no such
-- dot is the table, and its index has no qualifier.
pub index_target-spelled :
    (hash_hex : String → String) (ps : List Piece) (rest : String)
    → All (λ p. is_proper p ≡ true) ps
    → let qualified = before (spelled ps) (String.◌∷◌ "." rest) in
      (index_target hash_hex qualified
        ≡ (concat (trim (spelled ps) ∷ "." ∷ expiry_index_name hash_hex qualified ∷ []), trim rest))
      × (index_target hash_hex (spelled ps) ≡ (expiry_index_name hash_hex (spelled ps), spelled ps))
unfolding index_target
index_target-spelled hash_hex ps rest h =
    (ground (arith, split-name ps rest h), ground (arith, split-whole ps h))
