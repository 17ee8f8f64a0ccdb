-- ===== src/Jobs/Config/Ranges.antt =====
-- The ranges of the worker's settings, whatever the configuration says.
use devengine.Common.{ℕ, ◌<◌, arith, ℤ, pos, negsuc, positive_or}
use devengine.Jobs.Config.{WorkerConfig, initial_backoff, lease_duration, lease_renewal_interval}

positive_or-pos : (v : ℤ) (fallback : ℕ) → 0 < fallback → 0 < positive_or v fallback
positive_or-pos (pos n) fallback h = ground arith
positive_or-pos (negsuc n) fallback h = h

pub initial_backoff-pos : (c : WorkerConfig) → 0 < initial_backoff c
unfolding initial_backoff
initial_backoff-pos c = positive_or-pos c.initial_backoff _ (omega arith)

pub lease_duration-pos : (c : WorkerConfig) → 0 < lease_duration c
unfolding lease_duration
lease_duration-pos c = positive_or-pos c.lease_duration _ (omega arith)

-- A lease is always renewed before it ends, if it is longer than one nanosecond, and the ticker's
-- period is positive.
pub renewal_before_expiry :
    (c : WorkerConfig)
    → 1 < lease_duration c
    → (0 < lease_renewal_interval c) × (lease_renewal_interval c < lease_duration c)
unfolding lease_renewal_interval
renewal_before_expiry c h = ground arith
