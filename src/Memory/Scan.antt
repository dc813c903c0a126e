-- ===== src/Memory/Scan.antt =====
-- The scan of the expiry index in src/memory_store.rs: what it selects.
use saysion.Prelude.{
  ℕ, zero, suc, ◌≤◌, ◌<◌, String, ◌≡◌, refl, true, false, List, [], ◌∷◌, All, arith, ltb,
  str_eq_iff, Option-cases, inl, inr, length,
}
use saysion.Maps
use saysion.Memory.State.{Entry, MemoryState, set_contains, scan}
use saysion.Memory.Index.{IsConsistent, IsOrdered, IsAfter}
use saysion.Memory.Batches.{mem, is_stale}

-- The part of the index that a scan still has to read is a part of the whole.
abbrev pub Within : List Entry → List Entry → Type 0
Within set all =
    (e : ℕ) (i : String) → set_contains (e, i) set ≡ true → set_contains (e, i) all ≡ true

abbrev pub IsNodup : List String → Type 0
IsNodup [] = Unit
IsNodup (i ∷ ids) = (mem i ids ≡ false) × IsNodup ids

abbrev pub AllStale : ℕ → MemoryState → List String → Type 0
AllStale now st = All (λ i. is_stale now (Maps.get i st.records) ≡ true)

module _ (now : ℕ) (st : MemoryState) (v : IsConsistent st) where
  pub stale_of_entry :
      (e : ℕ) (i : String)
      → set_contains (e, i) st.expiries ≡ true
      → is_stale now (Maps.get i st.records) ≡ ltb e now
  stale_of_entry e i h = elim (Option-cases (Maps.get i st.records)) [
    | inl miss ↦ ground (arith, v.indexed e i)
    | inr (o, hit) ↦ ground (arith, v.indexed e i)
  ]

  pub scan-stale :
      (limit : ℕ) (set : List Entry) → Within set st.expiries → AllStale now st (scan now limit set)
  unfolding scan set_contains
  scan-stale zero set w = tt
  scan-stale (suc limit) [] w = tt
  scan-stale (suc limit) ((e, i) ∷ set) w = ground (
    arith,
    scan-stale limit set (λ f j h. w f j (ground arith)),
    stale_of_entry e i (w e i (ground (arith, str_eq_iff i i))),
  )

  pub length-scan-le : (limit : ℕ) (set : List Entry) → length (scan now limit set) ≤ limit
  unfolding scan
  length-scan-le zero set = omega arith
  length-scan-le (suc limit) [] = omega arith
  length-scan-le (suc limit) ((e, i) ∷ set) = ground (arith, length-scan-le limit set)

  pub not_after :
      (e f : ℕ) (i : String) (set : List Entry)
      → IsAfter e set
      → set_contains (f, i) set ≡ true
      → e ≤ f
  unfolding set_contains
  not_after e f i [] a h = cc
  not_after e f i ((g, j) ∷ set) a h = ground (arith, not_after e f i set a.1)

  -- A scan that stops short of its limit has read every expired entry.
  pub scan_complete :
      (limit : ℕ) (set : List Entry) (e : ℕ) (i : String)
      → IsOrdered set
      → length (scan now limit set) < limit
      → set_contains (e, i) set ≡ true
      → e < now
      → mem i (scan now limit set) ≡ true
  unfolding scan set_contains
  scan_complete zero set e i o h c l = absurd (omega arith)
  scan_complete (suc limit) [] e i o h c l = cc
  scan_complete (suc limit) ((f, j) ∷ set) e i (a, n, o) h c l =
      ground (arith, scan_complete limit set e i o, not_after f e i set a, str_eq_iff j i)

  same_expiry :
      (e f : ℕ) (i : String)
      → set_contains (e, i) st.expiries ≡ true
      → set_contains (f, i) st.expiries ≡ true
      → e ≡ f
  same_expiry e f i h k = elim (Option-cases (Maps.get i st.records)) [
    | inl miss ↦ ground (arith, v.indexed e i, v.indexed f i)
    | inr (o, hit) ↦ ground (arith, v.indexed e i, v.indexed f i)
  ]

  -- An identity has one entry, so that no scan returns it twice.
  pub not-mem-scan :
      (limit e : ℕ) (i : String) (set : List Entry)
      → Within set st.expiries
      → set_contains (e, i) st.expiries ≡ true
      → set_contains (e, i) set ≡ false
      → mem i (scan now limit set) ≡ false
  unfolding scan set_contains
  not-mem-scan zero e i set w c n = refl
  not-mem-scan (suc limit) e i [] w c n = refl
  not-mem-scan (suc limit) e i ((f, j) ∷ set) w c n = ground (
    arith,
    not-mem-scan limit e i set (λ g k h. w g k (ground arith)) c,
    same_expiry e f i c,
    w f j (ground (arith, str_eq_iff j j)),
    str_eq_iff j i,
  )

  pub scan-IsNodup :
      (limit : ℕ) (set : List Entry)
      → Within set st.expiries
      → IsOrdered set
      → IsNodup (scan now limit set)
  unfolding scan set_contains
  scan-IsNodup zero set w o = tt
  scan-IsNodup (suc limit) [] w o = tt
  scan-IsNodup (suc limit) ((e, i) ∷ set) w (a, n, o) = ground (
    arith,
    scan-IsNodup limit set (λ f j h. w f j (ground arith)) o,
    not-mem-scan limit e i set (λ f j h. w f j (ground arith))
        (w e i (ground (arith, str_eq_iff i i))) n,
  )
