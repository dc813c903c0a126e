-- ===== src/Mongo/Expiry.antt =====
-- `expiry_datetime` of src/mongodb_store.rs.
use saysion.Prelude.{ℕ, ◌*◌, ◌≤◌, ◌<◌, ◌+◌, arith}
use saysion.Mongo.{expiry_datetime}

-- The time at which MongoDB may delete a document is not before the expiry of its session, and less
-- than a millisecond after it.
pub expiry_datetime-bounds :
    (expiry : ℕ)
    → (expiry ≤ expiry_datetime expiry * 1000000)
      × (expiry_datetime expiry * 1000000 < expiry + 1000000)
unfolding expiry_datetime
expiry_datetime-bounds expiry = (omega arith, omega arith)
