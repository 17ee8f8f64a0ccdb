-- ===== src/Postgres/Transaction/Attempts.antt =====
-- How often the callback is called, and when the loop panics.
use devengine.Common.{
  ℕ, zero, suc, ◌+◌, ◌≡◌, ◌≢◌, ◌<◌, ◌≤◌, ◌^◌, sym, ◌∙◌, Bool, false, Option, none, some, List, Text,
  arith, Bool-cases, Option-cases, inl, inr, none-some,
}
use devengine.Postgres.Retryable.{
  Cause, RetryConfig, Settings, settings, is_retryable, wait, wait-some, next_backoff,
  next_backoff-ge,
}
use devengine.Postgres.Transaction.{
  ScopeError, ScopeEnd, passed, failed, panics, callback_panicked, cause_of, Round, TxError, Ending,
  succeeded, draw_panicked, returned, Callback, run_in_tx, after_scope, run_attempts,
  with_transaction, context_error, scope_error, exceeded,
}

returned_not_panic : (x : TxError) → returned x ≢ draw_panicked
returned_not_panic x z = cc

callback_not_draw : (t : Text) → callback_panicked t ≢ draw_panicked
callback_not_draw t z = cc

success-not-panic : succeeded ≢ draw_panicked
success-not-panic z = cc

module _ {ℓ} {D : Type ℓ} (draw : ℕ → ℕ) where
  -- What a round of the loop comes to.
  pub data Continues (i backoff : ℕ) (again : ScopeError → D → D × (ℕ × Ending))
      : D × (ℕ × Ending) → Type ℓ where
    goes_on : (e : ScopeError) (next : D) → Continues i backoff again (again e next)
    stops :
        (db : D) (end : Ending) → end ≢ draw_panicked → Continues i backoff again (db, (suc i, end))
    draw_panics :
        (db : D) → wait draw backoff ≡ none → Continues i backoff again (db, (suc i, draw_panicked))

  module _ (s : Settings) where
    after_scope-Continues :
        (left i backoff : ℕ) (round : Round) (again : ScopeError → D → D × (ℕ × Ending))
        (r : D × ScopeEnd)
        → Continues i backoff again (after_scope draw s left i backoff round again r)
    unfolding after_scope
    after_scope-Continues left i backoff round again (next, passed) =
        Continues.stops next succeeded success-not-panic
    after_scope-Continues left i backoff round again (next, panics t) =
        Continues.stops next (callback_panicked t) (callback_not_draw t)
    after_scope-Continues left i backoff round again (next, failed e) =
        elim (Bool-cases (is_retryable (some (cause_of e)) s.codes)) [
          | inr p ↦ rw p (Continues.stops next _ (returned_not_panic (scope_error e)))
          | inl p ↦ rw p (by_left left)
        ]
      where
        waited :
            (c : Option Cause)
            → Continues i backoff again (elim c [
              | some x ↦ (next, (suc i, returned (context_error x)))
              | none ↦ again e next
            ])
        waited (some x) = Continues.stops next _ (returned_not_panic (context_error x))
        waited none = Continues.goes_on e next

        by_left :
            (n : ℕ)
            → Continues i backoff again (elim n [
              | zero ↦ again e next
              | suc _ ↦ elim (wait draw backoff) [
                | none ↦ (next, (suc i, draw_panicked))
                | some _ ↦ elim round.cancelled_waiting [
                  | some x ↦ (next, (suc i, returned (context_error x)))
                  | none ↦ again e next
                ]
              ]
            ])
        by_left zero = Continues.goes_on e next
        by_left (suc n) = elim (Option-cases (wait draw backoff)) [
          | inl p ↦ rw p (Continues.draw_panics next p)
          | inr (d, p) ↦ rw p (waited round.cancelled_waiting)
        ]

    module _ (rounds : ℕ → Round) (fn : ℕ → Callback D) where
      bounded :
          (left i backoff : ℕ) (again : ScopeError → D → D × (ℕ × Ending)) (r : D × (ℕ × Ending))
          → ((e : ScopeError) (next : D) → (again e next).1.0 ≤ suc i + left)
          → Continues i backoff again r
          → r.1.0 ≤ i + suc left
      bounded left i backoff again r h (Continues.goes_on e next) = omega (arith, h e next)
      bounded left i backoff again r h (Continues.stops db end n) = omega arith
      bounded left i backoff again r h (Continues.draw_panics db n) = omega arith

      run_attempts-le :
          (left i backoff : ℕ) (last : Option ScopeError) (db : D)
          → (run_attempts draw s rounds fn left i backoff last db).1.0 ≤ i + left
      unfolding run_attempts
      run_attempts-le zero i backoff none db = omega arith
      run_attempts-le zero i backoff (some e) db = omega arith
      run_attempts-le (suc left) i backoff last db = elim (Option-cases (rounds i).cancelled) [
        | inr (c, p) ↦ rw (p, run_attempts) (omega arith)
        | inl p ↦
            rw (p, run_attempts)
              (bounded left i backoff
                (λ e next.
                  run_attempts draw s rounds fn left (suc i) (next_backoff s.cap backoff) (some e)
                    next)
                _
                (λ e next. run_attempts-le left (suc i) (next_backoff s.cap backoff) (some e) next)
                (after_scope-Continues left i backoff (rounds i) _
                  (run_in_tx (rounds i) (fn i) db)))
      ]

      calm :
          (i backoff : ℕ) (again : ScopeError → D → D × (ℕ × Ending)) (r : D × (ℕ × Ending))
          → 2 ≤ backoff
          → backoff < 2 ^ 62
          → ((e : ScopeError) (next : D) → (again e next).1.1 ≢ draw_panicked)
          → Continues i backoff again r
          → r.1.1 ≢ draw_panicked
      calm i backoff again r lo hi h (Continues.goes_on e next) = h e next
      calm i backoff again r lo hi h (Continues.stops db end n) = n
      calm i backoff again r lo hi h (Continues.draw_panics db n) =
          absurd (none-some (sym n ∙ (wait-some draw backoff lo hi).1))

      run_attempts-calm :
          (left i backoff : ℕ) (last : Option ScopeError) (db : D)
          → 2 ≤ s.cap
          → s.cap < 2 ^ 62
          → 2 ≤ backoff
          → backoff < 2 ^ 62
          → (run_attempts draw s rounds fn left i backoff last db).1.1 ≢ draw_panicked
      unfolding run_attempts
      run_attempts-calm zero i backoff none db a b lo hi = success-not-panic
      run_attempts-calm zero i backoff (some e) db a b lo hi =
          returned_not_panic (exceeded s.attempts e)
      run_attempts-calm (suc left) i backoff last db a b lo hi =
          elim (Option-cases (rounds i).cancelled) [
            | inr (c, p) ↦ rw (p, run_attempts) (returned_not_panic (context_error c))
            | inl p ↦
                let (lo', hi') = next_backoff-ge s.cap backoff a b lo hi in
                rw (p, run_attempts)
                  (calm i backoff
                    (λ e next.
                      run_attempts draw s rounds fn left (suc i) (next_backoff s.cap backoff)
                        (some e) next)
                    _ lo hi
                    (λ e next.
                      run_attempts-calm left (suc i) (next_backoff s.cap backoff) (some e) next a b
                        lo' hi')
                    (after_scope-Continues left i backoff (rounds i) _
                      (run_in_tx (rounds i) (fn i) db)))
          ]

  -- A new transaction is attempted at most as often as the configuration allows, whatever fails.
  pub with_transaction-le :
      (options : Bool) (cfgs : List RetryConfig) (rounds : ℕ → Round) (fn : ℕ → Callback D) (db : D)
      → (with_transaction draw false options cfgs rounds fn db).1.0 ≤ (settings cfgs).attempts
  unfolding with_transaction
  with_transaction-le options cfgs rounds fn db = from_zero _ _ (
      run_attempts-le (settings cfgs) rounds fn (settings cfgs).attempts 0 (settings cfgs).backoff
        none db)
    where
      from_zero : (a b : ℕ) → a ≤ 0 + b → a ≤ b
      from_zero a b h = omega arith

  -- With a first wait and a longest wait of two nanoseconds or more, and below 2 ^ 62, the draw of
  -- the jitter never panics in a call that begins a new transaction, whatever fails, however the
  -- callback ends and whatever is drawn.
  pub with_transaction_calm :
      (options : Bool) (cfgs : List RetryConfig) (rounds : ℕ → Round) (fn : ℕ → Callback D) (db : D)
      → 2 ≤ (settings cfgs).cap
      → (settings cfgs).cap < 2 ^ 62
      → 2 ≤ (settings cfgs).backoff
      → (settings cfgs).backoff < 2 ^ 62
      → (with_transaction draw false options cfgs rounds fn db).1.1 ≢ draw_panicked
  unfolding with_transaction
  with_transaction_calm options cfgs rounds fn db a b lo hi =
      run_attempts-calm (settings cfgs) rounds fn (settings cfgs).attempts 0 (settings cfgs).backoff
        none db a b lo hi
