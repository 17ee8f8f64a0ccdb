-- ===== src/Postgres/Transaction.antt =====
-- `withTransaction`, `runInTx` and `withSavepoint` of postgres/tx.go over any database state. What a
-- transaction reads and writes is one state, that it began with and leaves on a commit.
pub mod Atomic
pub mod Attempts
use devengine.Common.{
  ℕ, zero, suc, ◌+◌, Bool, true, false, Option, none, some, List, [], ◌∷◌, Text, if◌then◌else◌,
}
use devengine.Postgres.Retryable.{
  Cause, RetryConfig, Settings, settings, is_retryable, next_backoff, wait,
}

-- The error of one scope, a transaction or a savepoint, by the call that returned it.
pub data ScopeError : Type 0 where
  begin_failed callback_failed commit_failed : Cause → ScopeError

abbrev pub cause_of : ScopeError → Cause
cause_of (begin_failed c) = c
cause_of (callback_failed c) = c
cause_of (commit_failed c) = c

-- How the commit ends: it answers, fails, or fails although the server has carried it out.
pub data Commit : Type 0 where
  committed : Commit
  refused lost : Cause → Commit

-- What surrounds one attempt: the context's error before it and during the wait after it, the error
-- of its begin, the end of its commit, and whether a rollback to a savepoint takes effect, which it
-- does not when the context has ended.
pub record Round : Type 0 where
  pub cancelled : Option Cause
  pub begin_error : Option Cause
  pub commit : Commit
  pub rolled_back : Bool
  pub cancelled_waiting : Option Cause

pub data TxError : Type 0 where
  options_in_ambient : TxError
  context_error : Cause → TxError
  scope_error : ScopeError → TxError
  exceeded : ℕ → ScopeError → TxError

-- How a call ends: `draw_panicked` is the panic of `rand.Int64N`, `callback_panicked` one of the
-- callback.
pub data Ending : Type 0 where
  succeeded draw_panicked : Ending
  callback_panicked : Text → Ending
  returned : TxError → Ending

-- The callback: what it makes of the state, and how it ends.
pub data CallbackEnd : Type 0 where
  fine : CallbackEnd
  gave_error : Cause → CallbackEnd
  threw : Text → CallbackEnd

abbrev pub Callback {ℓ} : Type ℓ → Type ℓ
Callback D = D → D × CallbackEnd

-- How a scope ends.
pub data ScopeEnd : Type 0 where
  passed : ScopeEnd
  failed : ScopeError → ScopeEnd
  panics : Text → ScopeEnd

module _ {ℓ} {D : Type ℓ} where
  -- The library closes a connection whose commit or rollback failed, with which the server undoes
  -- the transaction.
  abbrev pub end_transaction : Commit → D → D → D × ScopeEnd
  end_transaction committed old new = (new, passed)
  end_transaction (refused c) old new = (old, failed (commit_failed c))
  end_transaction (lost c) old new = (new, failed (commit_failed c))

  -- `runInTx`: whatever its deferred rollback answers, nothing of an open transaction stays.
  unfoldable pub run_in_tx : Round → Callback D → D → D × ScopeEnd
  run_in_tx round fn old = elim round.begin_error [
    | some c ↦ (old, failed (begin_failed c))
    | none ↦
        let (new, result) = fn old in
        elim result [
          | gave_error c ↦ (old, failed (callback_failed c))
          | threw t ↦ (old, panics t)
          | fine ↦ end_transaction round.commit old new
        ]
  ]

  -- A savepoint whose release failed is closed, so that the deferred rollback does nothing, and its
  -- writes stay in the ambient transaction.
  abbrev pub end_savepoint : Commit → D → D × ScopeEnd
  end_savepoint committed new = (new, passed)
  end_savepoint (refused c) new = (new, failed (commit_failed c))
  end_savepoint (lost c) new = (new, failed (commit_failed c))

  abbrev pub after_rollback : Round → D → D → D
  after_rollback round old new = if round.rolled_back then old else new

  -- `withSavepoint`; the state is that of the ambient transaction.
  unfoldable pub with_savepoint : Round → Callback D → D → D × ScopeEnd
  with_savepoint round fn old = elim round.begin_error [
    | some c ↦ (old, failed (begin_failed c))
    | none ↦
        let (new, result) = fn old in
        elim result [
          | gave_error c ↦ (after_rollback round old new, failed (callback_failed c))
          | threw t ↦ (after_rollback round old new, panics t)
          | fine ↦ end_savepoint round.commit new
        ]
  ]

  module _ (draw : ℕ → ℕ) (s : Settings) where
    -- One round behind the call of `runInTx`, with the state and the error that it left; `again` is
    -- the rest of the loop.
    unfoldable pub after_scope :
        ℕ → ℕ → ℕ → Round → (ScopeError → D → D × (ℕ × Ending)) → D × ScopeEnd → D × (ℕ × Ending)
    unfolding is_retryable wait
    after_scope left i backoff round again (next, passed) = (next, (suc i, succeeded))
    after_scope left i backoff round again (next, panics t) = (next, (suc i, callback_panicked t))
    after_scope left i backoff round again (next, failed e) =
        if is_retryable (some (cause_of e)) s.codes
        then elim left [
          | zero ↦ again e next
          | suc _ ↦ elim (wait draw backoff) [
            | none ↦ (next, (suc i, draw_panicked))
            | some _ ↦ elim round.cancelled_waiting [
              | some c ↦ (next, (suc i, returned (context_error c)))
              | none ↦ again e next
            ]
          ]
        ]
        else (next, (suc i, returned (scope_error e)))

    -- The loop, by the attempts that are left: the state, the number of calls of `runInTx`, and the
    -- end. `last` is `lastErr`.
    unfoldable pub run_attempts :
        (ℕ → Round) → (ℕ → Callback D) → ℕ → ℕ → ℕ → Option ScopeError → D → D × (ℕ × Ending)
    unfolding run_in_tx after_scope next_backoff
    run_attempts rounds fn zero i backoff none db = (db, (i, succeeded))
    run_attempts rounds fn zero i backoff (some e) db = (db, (i, returned (exceeded s.attempts e)))
    run_attempts rounds fn (suc left) i backoff last db = elim (rounds i).cancelled [
      | some c ↦ (db, (i, returned (context_error c)))
      | none ↦
          after_scope left i backoff (rounds i)
            (λ e next.
              run_attempts rounds fn left (suc i) (next_backoff s.cap backoff) (some e) next)
            (run_in_tx (rounds i) (fn i) db)
    ]

  -- `ambient` says that the context carries a transaction, `options` that the options are not zero.
  unfoldable pub with_transaction :
      (ℕ → ℕ)
      → Bool
      → Bool
      → List RetryConfig
      → (ℕ → Round)
      → (ℕ → Callback D)
      → D
      → D × (ℕ × Ending)
  unfolding run_attempts settings with_savepoint
  with_transaction draw true true cfgs rounds fn db = (db, (0, returned options_in_ambient))
  with_transaction draw true false cfgs rounds fn db =
      let (next, result) = with_savepoint (rounds 0) (fn 0) db in
      elim result [
        | passed ↦ (next, (1, succeeded))
        | panics t ↦ (next, (1, callback_panicked t))
        | failed e ↦ (next, (1, returned (scope_error e)))
      ]
  with_transaction draw false options cfgs rounds fn db =
      let s = settings cfgs in run_attempts draw s rounds fn s.attempts 0 s.backoff none db
