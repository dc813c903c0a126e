-- ===== src/Redis/Scan.antt =====
-- src/redis_store.rs: `count` and `clear_store`, which go through the keys with `SCAN`.
pub mod Chunks
pub mod Ends
pub mod Pattern
pub mod Clears
use saysion.Prelude.{
  ℕ, zero, suc, ◌+◌, ◌-◌, String, Option, none, some, List, [], ◌∷◌, Result, ok, err, ◌==◌,
  starts_with, if◌then◌else◌,
}
use saysion.Redis.{prefix_pattern}
use saysion.Redis.Commands.{Server}

unfoldable pub scan_batch_size : ℕ
scan_batch_size = 256

-- `filter` and `retain`
unfoldable pub retain : String → List String → List String
retain prefix [] = []
retain prefix (key ∷ keys) =
    let rest = retain prefix keys in if starts_with prefix key then key ∷ rest else rest

unfoldable pub size : List String → ℕ
size [] = 0
size (key ∷ keys) = suc (size keys)

-- What is left of a chunk that has room for some keys, and the chunks after it.
unfoldable pub fill : ℕ → ℕ → List String → List String × List (List String)
fill n room [] = ([], [])
fill n zero (key ∷ keys) = let (chunk, later) = fill n (n - 1) keys in ([], (key ∷ chunk) ∷ later)
fill n (suc room) (key ∷ keys) = let (chunk, later) = fill n room keys in (key ∷ chunk, later)

unfoldable pub chunks : ℕ → List String → List (List String)
unfolding fill
chunks n keys = (fill n 0 keys).1

module _ {D : Type 0} (server : Server D) (prefix : String) where
  -- The loop of `count` for as many calls as the fuel allows; `none` if that is too few. `total` is a
  -- usize, taken to be large enough for the keys that are counted.
  unfoldable pub count_from : ℕ → ℕ → ℕ → D → Option (Result ℕ)
  unfolding prefix_pattern scan_batch_size retain size
  count_from zero cursor total d = none
  count_from (suc fuel) cursor total d =
      elim (server.scan cursor (prefix_pattern prefix) scan_batch_size d) [
        | err e ↦ some (err e)
        | ok (next, keys) ↦
            let total' = total + size (retain prefix keys) in
            if next == 0 then some (ok total') else count_from fuel next total' d
      ]

  -- No other client changes the keys meanwhile.
  unfoldable pub count : ℕ → D → Option (Result ℕ)
  unfolding count_from
  count fuel d = count_from fuel 0 0 d

  -- The inner loop of `clear_store`.
  unfoldable pub unlink_batches : List (List String) → D → Result (Unit {0}) × D
  unlink_batches [] d = (ok tt, d)
  unlink_batches (batch ∷ batches) d =
      let (unlinked, d') = server.unlink batch d in
      elim unlinked [ err e ↦ (err e, d') | ok _ ↦ unlink_batches batches d' ]

  unfoldable pub unlink_keys : List String → D → Result (Unit {0}) × D
  unfolding unlink_batches chunks retain scan_batch_size
  unlink_keys keys d = unlink_batches (chunks scan_batch_size (retain prefix keys)) d

  -- The loop of `clear_store`.
  unfoldable pub clear_from : ℕ → ℕ → D → Option (Result (Unit {0}) × D)
  unfolding prefix_pattern scan_batch_size unlink_keys
  clear_from zero cursor d = none
  clear_from (suc fuel) cursor d =
      elim (server.scan cursor (prefix_pattern prefix) scan_batch_size d) [
        | err e ↦ some (err e, d)
        | ok (next, keys) ↦
            let (unlinked, d') = unlink_keys keys d in
            elim unlinked [
              | err e ↦ some (err e, d')
              | ok _ ↦ if next == 0 then some (ok tt, d') else clear_from fuel next d'
            ]
      ]

  unfoldable pub clear_store : ℕ → D → Option (Result (Unit {0}) × D)
  unfolding clear_from
  clear_store fuel d = clear_from fuel 0 d
