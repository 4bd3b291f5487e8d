-- ===== src/State/Leases.antt =====
-- state/leases.py: a lease and its expiry, over the points of time that the clock returned.
use fine_tune_harness.Base.{ℕ, ◌+◌, String, Bool, ltb}

pub record Lease : Type 0 where
  pub worker_id : String
  pub leased_until : ℕ

-- `utc_now` reads the clock; its reading is the argument `now`.
unfoldable pub from_seconds : (now : ℕ) → String → ℕ → Lease
from_seconds now worker_id seconds = record { worker_id = worker_id; leased_until = now + seconds }

unfoldable pub is_expired : Lease → (now : ℕ) → Bool
is_expired lease now = ltb lease.leased_until now
