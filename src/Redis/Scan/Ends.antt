-- ===== src/Redis/Scan/Ends.antt =====
-- The loops over `SCAN` in src/redis_store.rs end.
use saysion.Prelude.{
  ℕ, zero, suc, ◌+◌, ◌<◌, String, ◌≡◌, true, false, inl, inr, List, arith, ok, ◌==◌, is_some,
  Bool-cases, Result-cases,
}
use saysion.Redis.{prefix_pattern}
use saysion.Redis.Commands.{Server}
use saysion.Redis.Scan.{count_from, count, clear_from, clear_store, unlink_keys, size, retain}

-- A full iteration of `SCAN` is over after a bounded number of calls: each cursor that it hands out
-- has fewer calls before it than the one before, until it is 0.
pub record ScanEnds {D : Type 0} (server : Server D) : Type 0 where
  pub calls : ℕ → ℕ
  pub goes_on :
      (cursor : ℕ) (pattern : String) (hint : ℕ) (d : D) (next : ℕ) (keys : List String)
      → server.scan cursor pattern hint d ≡ ok (next, keys)
      → (next == 0) ≡ false
      → calls next < calls cursor

module _ {D : Type 0} (server : Server D) (ends : ScanEnds server) (prefix : String) where
  count_from-ends :
      (fuel cursor total : ℕ) (d : D)
      → ends.calls cursor < fuel
      → is_some (count_from server prefix fuel cursor total d) ≡ true
  unfolding count_from
  count_from-ends zero cursor total d h = absurd (omega (arith, h))
  count_from-ends (suc fuel) cursor total d h =
      elim (Result-cases (server.scan cursor (prefix_pattern prefix) 256 d)) [
        | inl (e, bad) ↦ ground (arith, bad)
        | inr ((next, keys), good) ↦ elim (Bool-cases (next == 0)) [
          | inl last ↦ ground (arith, good, last)
          | inr more ↦
              let less = ends.goes_on cursor (prefix_pattern prefix) 256 d next keys good more in
              ground (
                arith,
                good,
                more,
                count_from-ends fuel next (total + size (retain prefix keys)) d
                    (omega (arith, h, less)),
              )
        ]
      ]

  clear_from-ends :
      (fuel cursor : ℕ) (d : D)
      → ends.calls cursor < fuel
      → is_some (clear_from server prefix fuel cursor d) ≡ true
  unfolding clear_from
  clear_from-ends zero cursor d h = absurd (omega (arith, h))
  clear_from-ends (suc fuel) cursor d h =
      elim (Result-cases (server.scan cursor (prefix_pattern prefix) 256 d)) [
        | inl (e, bad) ↦ ground (arith, bad)
        | inr ((next, keys), good) ↦ elim (Result-cases (unlink_keys server prefix keys d).0) [
          | inl (e, bad) ↦ ground (arith, good, bad)
          | inr (_, cleared) ↦ elim (Bool-cases (next == 0)) [
            | inl last ↦ ground (arith, good, cleared, last)
            | inr more ↦
                let less = ends.goes_on cursor (prefix_pattern prefix) 256 d next keys good more in
                ground (
                  arith,
                  good,
                  cleared,
                  more,
                  clear_from-ends fuel next (unlink_keys server prefix keys d).1
                      (omega (arith, h, less)),
                )
          ]
        ]
      ]

  -- If a full iteration of `SCAN` is over after a bounded number of calls, `count` and `clear_store`
  -- return, with a result or an error, within one call more than the bound of the first cursor.
  pub count-clear_store-end :
      (fuel : ℕ) (d : D)
      → ends.calls 0 < fuel
      → (is_some (count server prefix fuel d) ≡ true)
        × (is_some (clear_store server prefix fuel d) ≡ true)
  unfolding count clear_store
  count-clear_store-end fuel d h = (count_from-ends fuel 0 0 d h, clear_from-ends fuel 0 d h)
