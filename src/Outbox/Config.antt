-- ===== src/Outbox/Config.antt =====
-- The defaults of `RelayConfig` (outbox/outbox.go). Durations are nanoseconds.
use devengine.Common.{
  ℕ, ◌/◌, ◌*◌, ◌<◌, ◌&&◌, ltb, leb, if◌then◌else◌, ℤ, positive_or, pos, negsuc, arith,
}
use devengine.Jobs.Config.{millisecond, second}

pub record RelayConfig : Type 0 where
  pub batch_size : ℤ
  pub poll_interval : ℤ
  pub initial_backoff : ℤ
  pub lease_duration : ℤ
  pub lease_renewal_interval : ℤ

unfoldable pub relay_batch_size : RelayConfig → ℕ
relay_batch_size c = positive_or c.batch_size 50

unfoldable pub relay_poll_interval : RelayConfig → ℕ
relay_poll_interval c = positive_or c.poll_interval (2 * second)

unfoldable pub relay_initial_backoff : RelayConfig → ℕ
relay_initial_backoff c = positive_or c.initial_backoff (500 * millisecond)

unfoldable pub relay_lease_duration : RelayConfig → ℕ
relay_lease_duration c = positive_or c.lease_duration (300 * second)

unfoldable pub relay_renewal_interval : RelayConfig → ℕ
unfolding relay_lease_duration
relay_renewal_interval c =
    let lease = relay_lease_duration c in
    let interval = lease / 2 in
    let configured = positive_or c.lease_renewal_interval 0 in
    if ltb 0 configured && ltb configured lease
    then configured
    else if leb interval 0
    then 1
    else interval

-- A message's lease is always renewed before it ends, if it is longer than one nanosecond.
pub relay_renewal_before_expiry :
    (c : RelayConfig)
    → 1 < relay_lease_duration c
    → (0 < relay_renewal_interval c) × (relay_renewal_interval c < relay_lease_duration c)
unfolding relay_renewal_interval
relay_renewal_before_expiry c h = ground arith

pub relay_initial_backoff-pos : (c : RelayConfig) → 0 < relay_initial_backoff c
unfolding relay_initial_backoff
relay_initial_backoff-pos c = positive (c.initial_backoff)
  where
    positive : (v : ℤ) → 0 < positive_or v (500 * millisecond)
    positive (pos n) = ground arith
    positive (negsuc n) = omega arith
