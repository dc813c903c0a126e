-- ===== src/Backend/Rows.antt =====
-- What a save does to the records of a backend, by their identities.
use saysion.Prelude.{
  String, ◌≡◌, sym, ap, ◌∙◌, false, Option, none, some, arith, opt_eq, str_eq, str_eq_iff,
  Bool-cases, inl, inr, if◌then◌else◌,
}

-- The record of `j` after a deletion and a write of the record of `id`.
abbrev pub deleted : {R : Type 0} → String → String → Option R → Option R
deleted id j row = if str_eq id j then none else row

abbrev pub put : {R : Type 0} → String → R → String → Option R → Option R
put id new j row = if str_eq id j then some new else row

-- What a save that succeeds does to the records: it puts its own, and takes the one of its source
-- away if that is another one.
abbrev pub saved : {R : Type 0} → Option String → String → R → String → Option R → Option R
saved origin id new j row =
    if str_eq id j then some new else if opt_eq origin (some j) then none else row

module _ {R : Type 0} (row row' : String → Option R) (id : String)
    (elsewhere : (j : String) → str_eq id j ≡ false → row' j ≡ row j) where
  pub put-from : (new : R) → row' id ≡ some new → (j : String) → row' j ≡ put id new j (row j)
  put-from new here j = elim (Bool-cases (str_eq id j)) [
    | inl same ↦ ap row' (sym ((str_eq_iff id j).0 same)) ∙ (here ∙ ground (arith, same))
    | inr other ↦ elsewhere j other ∙ ground (arith, other)
  ]

  pub deleted-from : row' id ≡ none → (j : String) → row' j ≡ deleted id j (row j)
  deleted-from here j = elim (Bool-cases (str_eq id j)) [
    | inl same ↦ ap row' (sym ((str_eq_iff id j).0 same)) ∙ (here ∙ ground (arith, same))
    | inr other ↦ elsewhere j other ∙ ground (arith, other)
  ]

-- A replacement keeps the record of its source, which is its own.
pub put-saved :
    {R : Type 0} (origin id : String) (new : R) (j : String) (row : Option R)
    → origin ≡ id
    → put id new j row ≡ saved (some origin) id new j row
put-saved origin id new j row same = rw same (ground arith)
