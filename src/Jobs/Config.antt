-- ===== src/Jobs/Config.antt =====
-- The defaults of `WorkerConfig` (jobs/worker.go). Durations are nanoseconds.
pub mod Ranges
use devengine.Common.{ℕ, ◌/◌, ◌*◌, ◌&&◌, ltb, leb, if◌then◌else◌, ℤ, positive_or}

pub record WorkerConfig : Type 0 where
  pub batch_size : ℤ
  pub poll_interval : ℤ
  pub initial_backoff : ℤ
  pub lease_duration : ℤ
  pub lease_renewal_interval : ℤ

abbrev pub millisecond : ℕ
millisecond = 1_000_000

abbrev pub second : ℕ
second = 1_000_000_000

unfoldable pub batch_size : WorkerConfig → ℕ
batch_size c = positive_or c.batch_size 50

unfoldable pub poll_interval : WorkerConfig → ℕ
poll_interval c = positive_or c.poll_interval (2 * second)

unfoldable pub initial_backoff : WorkerConfig → ℕ
initial_backoff c = positive_or c.initial_backoff (500 * millisecond)

unfoldable pub lease_duration : WorkerConfig → ℕ
lease_duration c = positive_or c.lease_duration (300 * second)

unfoldable pub lease_renewal_interval : WorkerConfig → ℕ
unfolding lease_duration
lease_renewal_interval c =
    let lease = lease_duration c in
    let interval = lease / 2 in
    let configured = positive_or c.lease_renewal_interval 0 in
    if ltb 0 configured && ltb configured lease
    then configured
    else if leb interval 0
    then 1
    else interval
