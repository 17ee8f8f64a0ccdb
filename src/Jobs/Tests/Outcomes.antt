-- ===== src/Jobs/Tests/Outcomes.antt =====
-- The worker's outcomes on a small table.
use devengine.Common.{
  ℕ, ◌≡◌, refl, none, [], ◌∷◌, Text, str, text_eq, any, keep_if, count_if, pos, true,
}
use devengine.Jobs.Table.{Row, Table, JobRow, owned_by, returned, lease_row}
use devengine.Jobs.Config.{WorkerConfig, initial_backoff}
use devengine.Jobs.Worker.{ProcessError, handler_error, claim_lost, record_outcome}
use devengine.Jobs.Worker.Outcome.{stale_outcome}
use devengine.Jobs.Tests.{row_a, row_b, leased_b, owner_of_b}

abbrev pub defaults : WorkerConfig
defaults = record {
  batch_size = pos 0;
  poll_interval = pos 0;
  initial_backoff = pos 0;
  lease_duration = pos 0;
  lease_renewal_interval = pos 0;
}

abbrev pub boom : ProcessError → Text
boom _ = str "boom"

abbrev pub least : ℕ → ℕ
least _ = 0

abbrev pub handler_failed : ProcessError
handler_failed = handler_error (str "boom")

abbrev one_lease : Table
one_lease = leased_b ∷ []

-- The same lease at its last attempt.
abbrev last_b : Row
last_b = lease_row 20 100 (str "w") (record row_b { attempt = 1 })

abbrev last_owner : JobRow
last_owner = returned (str "w") (record row_b { attempt = 1 })

last_owned : owned_by last_owner last_b ≡ true
unfolding owned_by lease_row text_eq
last_owned = refl

stale_outcome_example : (row_a ∷ [] ≡ row_a ∷ []) × (claim_lost ≡ claim_lost)
unfolding record_outcome owned_by any text_eq keep_if count_if
stale_outcome_example =
    stale_outcome boom least defaults 70 owner_of_b (row_a ∷ []) none (row_a ∷ []) claim_lost refl
      refl
