-- ===== src/Postgres/Tests.antt =====
-- Transactions on a counter.
use devengine.Common.{
  ℕ, zero, suc, ◌≡◌, ◌≢◌, refl, sym, true, false, true-false, none, some, [], ◌∷◌, str, text_eq,
  arith, pos, any,
}
use devengine.Postgres.Retryable.{Cause, RetryConfig, settings, is_retryable, wait, next_backoff}
use devengine.Postgres.Transaction.{
  Round, committed, succeeded, draw_panicked, callback_panicked, returned, scope_error,
  callback_failed, Callback, fine, gave_error, threw, with_transaction,
}
use devengine.Postgres.Transaction.Atomic.{IsSettled, AllOrNothing, with_transaction-AllOrNothing}
use devengine.Postgres.Transaction.Attempts.{with_transaction_calm}

abbrev deadlock : Cause
deadlock = record {
  is_context = false;
  sqlstate = some (str "40P01");
  text = str "deadlock detected";
}

abbrev quiet : ℕ → Round
quiet _ = record {
  cancelled = none;
  begin_error = none;
  commit = committed;
  rolled_back = true;
  cancelled_waiting = none;
}

-- The first call runs into a deadlock, the others add one.
abbrev increments : ℕ → Callback ℕ
increments zero n = (7, gave_error deadlock)
increments (suc _) n = (suc n, fine)

abbrev least : ℕ → ℕ
least _ = 0

second_succeeds : with_transaction least false false [] quiet increments 4 ≡ (5, (2, succeeded))
unfolding with_transaction is_retryable any text_eq settings wait next_backoff
second_succeeds = refl

-- A wait of one nanosecond has no room for a jitter.
abbrev impatient : RetryConfig
impatient = record {
  max_attempts = pos 2;
  retry_on = [];
  initial_backoff = pos 1;
  max_backoff = pos 0;
}

one_nanosecond_panics :
    with_transaction least false false (impatient ∷ []) quiet increments 4 ≡ (4, (1, draw_panicked))
unfolding with_transaction is_retryable any text_eq settings wait next_backoff
one_nanosecond_panics = refl

-- The context ends while the callback runs in a savepoint: the rollback does not reach the server.
abbrev ended : ℕ → Round
ended _ = record {
  cancelled = none;
  begin_error = none;
  commit = committed;
  rolled_back = false;
  cancelled_waiting = none;
}

failed_writes_stay :
    with_transaction least true false [] ended increments 4
    ≡ (7, (1, returned (scope_error (callback_failed deadlock))))
unfolding with_transaction
failed_writes_stay = refl

-- A callback that panics.
abbrev panicking : ℕ → Callback ℕ
panicking _ n = (7, threw (str "boom"))

nothing_stays :
    with_transaction least false false [] quiet panicking 4
    ≡ (4, (1, callback_panicked (str "boom")))
unfolding with_transaction settings
nothing_stays = refl

quiet-IsSettled : IsSettled false quiet
quiet-IsSettled = record {
  no_lost = λ i c e. cc;
  released = λ e. absurd (true-false (sym e));
  undone = λ e. refl;
}

with_transaction-AllOrNothing_example :
    AllOrNothing increments 4 (with_transaction least false false [] quiet increments 4)
with_transaction-AllOrNothing_example =
    with_transaction-AllOrNothing least false false [] quiet increments 4 quiet-IsSettled

with_transaction_calm_example :
    (with_transaction least false false [] quiet increments 4).1.1 ≢ draw_panicked
unfolding settings
with_transaction_calm_example =
    with_transaction_calm least false [] quiet increments 4 (omega arith) (omega arith)
      (omega arith) (omega arith)
