-- ===== src/Memory/Cleanup.antt =====
-- src/memory_store.rs: the removal of expired records, in batches that each take the store's lock.
use saysion.Prelude.{
  ℕ, zero, suc, ◌+◌, String, Bool, false, ◌&&◌, none, some, List, [], ◌∷◌, batch_limit, Result, ok,
  ◌>>=◌, ◌>>◌, ensure, ltb, leb, take, drop, length, if◌then◌else◌,
}
use saysion.Maps
use saysion.Memory.State.{MemoryState, remove, expired_candidates}

unfoldable pub cleanup_batch_size : ℕ
cleanup_batch_size = 256

unfoldable pub default_cleanup_limit : ℕ
default_cleanup_limit = 1000

unfoldable pub max_cleanup_limit : ℕ
max_cleanup_limit = 10000

-- The record of `id` is there and expired at `now`.
unfoldable pub has_expired : ℕ → String → MemoryState → Bool
has_expired now id st = elim (Maps.get id st.records) [
  | none ↦ false
  | some o ↦ elim o.session.expiry [ none ↦ false | some expiry ↦ ltb expiry now ]
]

-- One candidate, checked again under the lock: the number removed, and the state.
unfoldable pub remove_expired : ℕ → String → MemoryState → ℕ × MemoryState
unfolding has_expired remove
remove_expired now id st = if has_expired now id st then (1, (remove id st).1) else (0, st)

-- The candidates of one write lock.
unfoldable pub remove_batch : ℕ → List String → MemoryState → ℕ × MemoryState
unfolding remove_expired
remove_batch now [] st = (0, st)
remove_batch now (id ∷ ids) st =
    let (n, st') = remove_expired now id st in
    let (m, st'') = remove_batch now ids st' in (n + m, st'')

-- `ids.chunks(CLEANUP_BATCH_SIZE)`; a chunk is never empty, so that `length ids` rounds are
-- enough. `others n` is what other tasks do to the store before the lock of chunk `n` is taken.
unfoldable pub remove_chunks :
    ℕ → (ℕ → MemoryState → MemoryState) → ℕ → ℕ → List String → MemoryState → ℕ × MemoryState
unfolding remove_batch cleanup_batch_size
remove_chunks now others zero k ids st = (0, st)
remove_chunks now others (suc fuel) k [] st = (0, st)
remove_chunks now others (suc fuel) k (id ∷ ids) st =
    let (n, st') = remove_batch now (take cleanup_batch_size (id ∷ ids)) (others k st) in
    let (m, st'') =
      remove_chunks now others fuel (k + 1) (drop cleanup_batch_size (id ∷ ids)) st' in
    (n + m, st'')

unfoldable pub remove_expired_candidates :
    ℕ → (ℕ → MemoryState → MemoryState) → List String → MemoryState → ℕ × MemoryState
unfolding remove_chunks
remove_expired_candidates now others ids st = remove_chunks now others (length ids) 0 ids st

unfoldable pub cleanup_batch :
    ℕ → (ℕ → MemoryState → MemoryState) → ℕ → MemoryState → Result (ℕ × MemoryState)
unfolding max_cleanup_limit expired_candidates remove_expired_candidates
cleanup_batch now others limit st = do
  ensure (leb 1 limit && leb limit max_cleanup_limit) batch_limit
  ok (remove_expired_candidates now others (expired_candidates now limit st) st)

-- `MemoryStore::cleanup` forgets the number removed.
unfoldable pub cleanup : ℕ → (ℕ → MemoryState → MemoryState) → MemoryState → Result MemoryState
unfolding cleanup_batch default_cleanup_limit
cleanup now others st = do
  (removed, st') ← cleanup_batch now others default_cleanup_limit st
  ok st'
