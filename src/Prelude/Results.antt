-- ===== src/Prelude/Results.antt =====
-- The errors of the crate and results that carry them. Errors of the crates that the source
-- calls are told apart by the crate only.
use Prim.Native.Nat.{ℕ}
use mathlib.Core.Bool.{Bool, true, false, not}
use mathlib.Core.Path.{◌≡◌, refl}
use mathlib.Core.Logic.{◌⊎◌, inl, inr}

pub data Error : Type 0 where
  -- `SessionConflict`, and the same with the context that `uncertain_write` adds
  session_conflict uncertain_write : Error
  -- `base64::DecodeError`
  invalid_length : ℕ → Error
  invalid_text : Error
  -- `anyhow::ensure!`
  id_mismatch weak_key batch_limit : Error
  -- `TryFromIntError`
  out_of_range : Error
  -- what serde_json, postcard and the driver of the backend report; `duplicate_key` is a violation of
  -- a unique key, `duplicate_index` MySQL's error 1061
  serialization backend duplicate_key duplicate_index : Error

pub data Result {ℓ} (A : Type ℓ) : Type ℓ where
  ok : A → Result A
  err : Error → Result A

-- `?`: an error ends the function.
infixl 5 ◌>>=◌ ◌>>◌
abbrev pub ◌>>=◌ {ℓ κ} : {A : Type ℓ} {C : Type κ} → Result A → (A → Result C) → Result C
(err failure) >>= next = err failure
(ok value) >>= next = next value

abbrev pub ◌>>◌ {κ} : {C : Type κ} → Result (Unit {0}) → Result C → Result C
done >> after = done >>= λ _. after

-- Return the error unless the test holds.
abbrev pub ensure : Bool → Error → Result (Unit {0})
ensure false failure = err failure
ensure true failure = ok tt

-- A chain that succeeds has a first step that succeeds.
pub >>=-eq-ok {ℓ κ} :
    {A : Type ℓ} {C : Type κ} (r : Result A) (next : A → Result C) {c : C}
    → (r >>= next) ≡ ok c
    → (a : A) × (r ≡ ok a) × (next a ≡ ok c)
>>=-eq-ok (err failure) next h = cc
>>=-eq-ok (ok value) next h = (value, refl, h)

pub ensure-true : (b : Bool) (e : Error) {u : Unit {0}} → ensure b e ≡ ok u → b ≡ true
ensure-true true e h = refl
ensure-true false e h = cc

pub ensure-not : (b : Bool) (e : Error) {u : Unit {0}} → ensure (not b) e ≡ ok u → b ≡ false
ensure-not true e h = cc
ensure-not false e h = refl

pub Result-cases {ℓ} :
    {A : Type ℓ} (r : Result A) → ((e : Error) × (r ≡ err e)) ⊎ ((a : A) × (r ≡ ok a))
Result-cases (ok a) = inr (a, refl)
Result-cases (err e) = inl (e, refl)
