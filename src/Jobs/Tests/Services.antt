-- ===== src/Jobs/Tests/Services.antt =====
-- Runs of the registry, of enqueueing and of the administrative operations.
use devengine.Common.{
  ℕ, ◌≡◌, refl, Memᴰ, leb, func, Outcome, Bool, true, false, none, some, [], ◌∷◌, Text, str, pos,
  Result, ok,
}
use devengine.Jobs.Table.{Row, Table, fail_row, is_failed, is_claimable}
use devengine.Jobs.Config.{WorkerConfig}
use devengine.Jobs.Registry.{Registry, Handler}
use devengine.Jobs.Enqueue.{Job, or_now}
use devengine.Jobs.Repository.{requeue_failed}
use devengine.Jobs.Repository.Laws.{requeue_failed-resets}
use devengine.Jobs.Tests.{row_a, leased_b, one_row-Distinct}

abbrev short_lease : WorkerConfig
short_lease = record {
  batch_size = pos 0;
  poll_interval = pos 0;
  initial_backoff = pos 0;
  lease_duration = pos 1_000;
  lease_renewal_interval = pos 2_000;
}

abbrev mailer : Handler
mailer = some (record { kind = func; is_nil = false; handle = λ _. Outcome.returned none })

abbrev with_mailer : Registry
with_mailer = record { handlers = (str "mail", mailer) ∷ [] }

abbrev marshal_text : Text → Result Text Text
marshal_text t = ok t

abbrev mail_job : Job Text
mail_job = record {
  id = [];
  name = str "mail";
  payload = str "{}";
  run_at = none;
  max_attempts = pos 0;
}

abbrev mail_row : Row
mail_row = record row_a { id = str "u"; run_at = 30; max_attempts = 5; created_at = 31 }

abbrev dead : Row
dead = fail_row 2 (str "boom") leased_b

abbrev any_order : Text → Text → Bool
any_order _ _ = true

dead_failed : is_failed dead ≡ true
unfolding is_failed
dead_failed = refl

requeue_failed-resets_example :
    (t : Table) × (q : Row) × (requeue_failed true none 50 dead.id (some 60) (dead ∷ []) ≡ ok t)
    × Memᴰ q t
    × (q.id ≡ dead.id)
    × (q.attempt ≡ 0)
    × (is_failed q ≡ false)
    × ((now : ℕ) → is_claimable now q ≡ leb (or_now (some 60) 50) now)
requeue_failed-resets_example =
    requeue_failed-resets (dead ∷ []) dead (one_row-Distinct dead) (Memᴰ.head refl) dead_failed 50
      (some 60)
