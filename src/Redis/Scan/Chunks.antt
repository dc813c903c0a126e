-- ===== src/Redis/Scan/Chunks.antt =====
-- The keys that `clear_store` of src/redis_store.rs keeps, and the chunks that it unlinks.
use saysion.Prelude.{
  ℕ, zero, suc, ◌≤◌, ◌-◌, String, ◌≡◌, refl, ap, Bool, true, false, List, [], ◌∷◌, ◌++◌, inl, inr,
  arith, All, starts_with, str_eq, str_eq_iff, Bool-cases, if◌then◌else◌,
}
use saysion.Redis.Scan.{retain, size, fill, chunks}

abbrev pub holds : String → List String → Bool
holds k [] = false
holds k (key ∷ keys) = if str_eq key k then true else holds k keys

abbrev pub joined : List (List String) → List String
joined [] = []
joined (chunk ∷ chunks) = chunk ++ joined chunks

pub holds-retain :
    (k prefix : String) (keys : List String)
    → holds k (retain prefix keys) ≡ (if starts_with prefix k then holds k keys else false)
unfolding retain
holds-retain k prefix [] = ground arith
holds-retain k prefix (key ∷ keys) = elim (Bool-cases (str_eq key k)) [
  | inl same ↦ ground (arith, same, (str_eq_iff key k).0 same, holds-retain k prefix keys)
  | inr other ↦ ground (arith, other, holds-retain k prefix keys)
]

pub holds-++ :
    (k : String) (a b : List String) → holds k (a ++ b) ≡ (if holds k a then true else holds k b)
holds-++ k [] b = refl
holds-++ k (key ∷ a) b = ground (arith, holds-++ k a b)

joined-fill :
    (n room : ℕ) (keys : List String) → (fill n room keys).0 ++ joined (fill n room keys).1 ≡ keys
unfolding fill
joined-fill n room [] = refl
joined-fill n zero (key ∷ keys) = ap (λ x. key ∷ x) (joined-fill n (n - 1) keys)
joined-fill n (suc room) (key ∷ keys) = ap (λ x. key ∷ x) (joined-fill n room keys)

size-fill :
    (n room : ℕ) (keys : List String)
    → 1 ≤ n
    → (size (fill n room keys).0 ≤ room) × All (λ c. size c ≤ n) (fill n room keys).1
unfolding fill size
size-fill n room [] h = (omega arith, tt)
size-fill n zero (key ∷ keys) h =
    let (a, b) = size-fill n (n - 1) keys h in (omega arith, (omega (arith, a, h), b))
size-fill n (suc room) (key ∷ keys) h =
    let (a, b) = size-fill n room keys h in (omega (arith, a), b)

pub joined-chunks : (n : ℕ) (keys : List String) → joined (chunks n keys) ≡ keys
unfolding chunks fill
joined-chunks n [] = refl
joined-chunks n (key ∷ keys) = joined-fill n 0 (key ∷ keys)

pub size-chunks : (n : ℕ) (keys : List String) → 1 ≤ n → All (λ c. size c ≤ n) (chunks n keys)
unfolding chunks
size-chunks n keys h = (size-fill n 0 keys h).1
