-- ===== src/Redis/Ttl.antt =====
-- `ttl_millis` of src/redis_store.rs.
use saysion.Prelude.{
  ℕ, ◌*◌, ◌+◌, ◌≤◌, ◌<◌, ◌≡◌, arith, inl, inr, Bool-cases, ◌⊎◌, ok, err, ◌/◌, if◌then◌else◌,
  out_of_range, ltb,
}
use saysion.Session.Revision.{u64_mod}
use saysion.Redis.{ttl_millis}

-- A time to live is rounded up to the next millisecond, and is at least one of them, so that Redis
-- neither refuses it nor drops the record before its session expires, and not by more than a
-- millisecond; it fits in a u64, and the only times that are refused are those that would not.
pub ttl_millis-bounds :
    (ttl : ℕ)
    → ((millis : ℕ) × (ttl_millis ttl ≡ ok millis)
        × (1 ≤ millis)
        × (millis < u64_mod)
        × (ttl ≤ millis * 1000000)
        × (millis * 1000000 ≤ ttl + 1000000))
      ⊎ ((ttl_millis ttl ≡ err out_of_range) × (u64_mod * 1000000 ≤ ttl + 999999))
unfolding ttl_millis u64_mod
ttl_millis-bounds ttl = elim (Bool-cases (ltb millis u64_mod)) [
  | inl fits ↦ inl (
    if ltb millis 1 then 1 else millis,
    ground (arith, fits),
    ground (arith, fits),
    ground (arith, fits),
    ground (arith, fits),
    ground (arith, fits),
  )
  | inr large ↦ inr (ground (arith, large), ground (arith, large))
]
  where
    millis : ℕ
    millis = (ttl + 999999) / 1000000

pub ttl_millis-positive : (ttl millis : ℕ) → ttl_millis ttl ≡ ok millis → 1 ≤ millis
unfolding ttl_millis
ttl_millis-positive ttl millis h = elim (Bool-cases (ltb ((ttl + 999999) / 1000000) u64_mod)) [
  | inl fits ↦ ground (arith, fits, h)
  | inr large ↦ absurd (ground (arith, large, h))
]
