-- ===== src/Memory/Expiry.antt =====
-- What `cleanup_batch` of src/memory_store.rs removes.
use saysion.Prelude.{
  ℕ, ◌+◌, ◌≤◌, ◌<◌, String, ◌≡◌, refl, ap, true, false, ◌⊎◌, Option, none, some, List, [], ◌∷◌,
  arith, str_eq_iff, Option-cases, inl, inr, length, ok,
}
use saysion.Maps
use saysion.Session.State.{Owned}
use saysion.Memory.State.{MemoryState, scan, expired_candidates}
use saysion.Memory.Index.{IsConsistent}
use saysion.Memory.Store.{count}
use saysion.Memory.Cleanup.{
  remove_expired, remove_batch, remove_expired_candidates, cleanup_batch, max_cleanup_limit,
}
use saysion.Memory.Batches.{
  mem, is_stale, has_expired_lem, get-remove_expired, get-remove_batch, count-remove_batch,
  remove_batch-le, remove_batch-IsConsistent, remove_chunks-eq-batch,
}
use saysion.Memory.Scan.{IsNodup, AllStale, scan-stale, length-scan-le, scan_complete, scan-IsNodup}

AllStale-remove :
    (now : ℕ) (id : String) (ids : List String) (st : MemoryState)
    → mem id ids ≡ false
    → AllStale now st ids
    → AllStale now (remove_expired now id st).1 ids
AllStale-remove now id [] st n a = tt
AllStale-remove now id (i ∷ ids) st n a = (
  ground (arith, get-remove_expired now id i st, str_eq_iff id i, str_eq_iff i id),
  AllStale-remove now id ids st (ground arith) a.1,
)

-- A batch removes each of its candidates, if they are distinct and all expired.
remove_batch_all :
    (now : ℕ) (ids : List String) (st : MemoryState)
    → IsNodup ids
    → AllStale now st ids
    → (remove_batch now ids st).0 ≡ length ids
unfolding remove_batch
remove_batch_all now [] st d a = refl
remove_batch_all now (id ∷ ids) st d a = omega (
  arith,
  remove_batch_all now ids (remove_expired now id st).1 d.1 (AllStale-remove now id ids st d.0 a.1),
  one,
)
  where
    one : (remove_expired now id st).0 ≡ 1
    one = unfold remove_expired in rw (has_expired_lem now id st, a.0)

abbrev pub alone : ℕ → MemoryState → MemoryState
alone n s = s

cleanup_batch-eq :
    (now limit : ℕ) (st : MemoryState)
    → 1 ≤ limit
    → limit ≤ 10000
    → cleanup_batch now alone limit st ≡ ok (remove_batch now (expired_candidates now limit st) st)
unfolding cleanup_batch max_cleanup_limit remove_expired_candidates
cleanup_batch-eq now limit st h k =
    rw
      (remove_chunks-eq-batch now (length (expired_candidates now limit st)) 0
        (expired_candidates now limit st) st (omega arith))
      (ground arith)

-- With a limit from 1 to 10,000 and no other task at work, `cleanup_batch` succeeds: it returns the
-- number of records that it removed, which is at most the limit; it removes expired records only,
-- and leaves every other one as it is; and the index stays consistent.
pub cleanup_batch_removes_expired :
    (now limit : ℕ) (st : MemoryState)
    → IsConsistent st
    → 1 ≤ limit
    → limit ≤ 10000
    → (n : ℕ) × (st' : MemoryState) × (cleanup_batch now alone limit st ≡ ok (n, st'))
      × IsConsistent st'
      × (n + count st' ≡ count st)
      × (n ≤ limit)
      × ((j : String)
          → (Maps.get j st'.records ≡ Maps.get j st.records)
            ⊎ ((is_stale now (Maps.get j st.records) ≡ true) × (Maps.get j st'.records ≡ none)))
cleanup_batch_removes_expired now limit st v h k =
    let ids = expired_candidates now limit st in
    (
      (remove_batch now ids st).0,
      (remove_batch now ids st).1,
      cleanup_batch-eq now limit st h k,
      remove_batch-IsConsistent now ids st v,
      count-remove_batch now ids st v,
      omega (arith, remove_batch-le now ids st, candidates-le),
      λ j. effect j ids,
    )
  where
    candidates-le : length (expired_candidates now limit st) ≤ limit
    candidates-le = unfold expired_candidates in length-scan-le now st v limit st.expiries

    effect :
        (j : String) (ids : List String)
        → (Maps.get j (remove_batch now ids st).1.records ≡ Maps.get j st.records)
          ⊎ ((is_stale now (Maps.get j st.records) ≡ true)
              × (Maps.get j (remove_batch now ids st).1.records ≡ none))
    effect j ids = ground (arith, get-remove_batch now ids j st, has_expired_lem now j st)

cleanup_batch-eq-ok :
    (now limit : ℕ) (st : MemoryState) (r : ℕ × MemoryState)
    → cleanup_batch now alone limit st ≡ ok r
    → (1 ≤ limit) × (limit ≤ 10000)
unfolding cleanup_batch max_cleanup_limit
cleanup_batch-eq-ok now limit st r h = ground arith

-- The candidates hold every expired record, if they are fewer than the limit.
candidates_complete :
    (now limit : ℕ) (st : MemoryState) (j : String)
    → IsConsistent st
    → length (expired_candidates now limit st) < limit
    → is_stale now (Maps.get j st.records) ≡ true
    → mem j (expired_candidates now limit st) ≡ true
unfolding expired_candidates
candidates_complete now limit st j v l h = elim (Option-cases (Maps.get j st.records)) [
  | inl miss ↦ ground (arith, miss)
  | inr (o, hit) ↦ of_expiry o.session.expiry (ap (λ r. expiry_of r) hit)
]
  where
    expiry_of : Option Owned → Option ℕ
    expiry_of none = none
    expiry_of (some o) = o.session.expiry

    of_expiry :
        (x : Option ℕ)
        → expiry_of (Maps.get j st.records) ≡ x
        → mem j (scan now limit st.expiries) ≡ true
    of_expiry none q = ground arith
    of_expiry (some e) q =
        scan_complete now st v limit st.expiries e j v.ordered l (ground (arith, v.indexed e j))
          (ground arith)

-- If `cleanup_batch` removes fewer records than its limit, then no expired record is left.
pub cleanup_batch_complete :
    (now limit n : ℕ) (st st' : MemoryState)
    → IsConsistent st
    → cleanup_batch now alone limit st ≡ ok (n, st')
    → n < limit
    → (j : String) → is_stale now (Maps.get j st'.records) ≡ false
unfolding expired_candidates
cleanup_batch_complete now limit n st st' v e l j = ground (
  arith,
  cleanup_batch-eq now limit st range.0 range.1,
  remove_batch_all now ids st (scan-IsNodup now st v limit st.expiries (λ _ _ h. h) v.ordered)
      (scan-stale now st v limit st.expiries (λ _ _ h. h)),
  candidates_complete now limit st j v,
  get-remove_batch now ids j st,
  has_expired_lem now j st,
)
  where
    ids : List String
    ids = expired_candidates now limit st

    range : (1 ≤ limit) × (limit ≤ 10000)
    range = cleanup_batch-eq-ok now limit st (n, st') e
