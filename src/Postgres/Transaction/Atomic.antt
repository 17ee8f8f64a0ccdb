-- ===== src/Postgres/Transaction/Atomic.antt =====
-- A transaction's effect: all of one callback, or nothing.
use devengine.Common.{
  ℕ, zero, suc, ◌≡◌, ◌≢◌, ◌<◌, refl, sym, Bool, true, false, Text, Option, none, some, List, arith,
  Bool-cases, Option-cases, inl, inr, subst, ℤ, pos, negsuc, positive_or,
}
use devengine.Postgres.Retryable.{
  Cause, RetryConfig, Settings, settings, chosen_config, is_retryable, wait, next_backoff,
}
use devengine.Postgres.Transaction.{
  ScopeError, begin_failed, callback_failed, commit_failed, cause_of, Commit, committed, refused,
  lost, Round, CallbackEnd, fine, gave_error, ScopeEnd, passed, failed, panics, callback_panicked,
  end_transaction, end_savepoint, after_rollback, with_savepoint, TxError, Ending, succeeded,
  draw_panicked, returned, Callback, run_in_tx, after_scope, run_attempts, with_transaction,
  context_error, scope_error, exceeded, options_in_ambient,
}

-- No commit fails that the server has carried out; and in an ambient transaction the savepoint is
-- released and rolled back as it is asked to be.
pub record IsSettled (ambient : Bool) (rounds : ℕ → Round) : Type 0 where
  pub no_lost : (i : ℕ) (c : Cause) → (rounds i).commit ≢ lost c
  pub released : ambient ≡ true → (c : Cause) → (rounds 0).commit ≢ refused c
  pub undone : ambient ≡ true → (rounds 0).rolled_back ≡ true

some_attempts : (cfgs : List RetryConfig) → (k : ℕ) × ((settings cfgs).attempts ≡ suc k)
unfolding settings
some_attempts cfgs = positive (chosen_config cfgs).max_attempts
  where
    predecessor : (n : ℕ) → 0 < n → (k : ℕ) × (n ≡ suc k)
    predecessor zero h = absurd (omega arith)
    predecessor (suc k) h = (k, refl)

    positive : (v : ℤ) → (k : ℕ) × (positive_or v 1 ≡ suc k)
    positive (negsuc n) = (0, refl)
    positive (pos n) = predecessor (positive_or (pos n) 1) (ground arith)

module _ {ℓ} {D : Type ℓ} where
  -- What one scope leaves: all of the callback, or the state as it was.
  pub data Scoped (fn : Callback D) (db : D) : D × ScopeEnd → Type ℓ where
    kept : (new : D) → fn db ≡ (new, fine) → Scoped fn db (new, passed)
    undone : (e : ScopeError) → Scoped fn db (db, failed e)
    threw : (t : Text) → Scoped fn db (db, panics t)

  run_in_tx-Scoped :
      (round : Round) (fn : Callback D) (db : D)
      → ((c : Cause) → round.commit ≢ lost c)
      → Scoped fn db (run_in_tx round fn db)
  unfolding run_in_tx
  run_in_tx-Scoped round fn db safe = elim (Option-cases round.begin_error) [
    | inr (c, p) ↦ rw p (Scoped.undone (begin_failed c))
    | inl p ↦ rw p (by_result (fn db) refl)
  ]
    where
      by_commit :
          (m : Commit) (new : D)
          → round.commit ≡ m
          → fn db ≡ (new, fine)
          → Scoped fn db (end_transaction m db new)
      by_commit committed new p q = Scoped.kept new q
      by_commit (refused c) new p q = Scoped.undone (commit_failed c)
      by_commit (lost c) new p q = absurd (safe c p)

      by_result :
          (r : D × CallbackEnd)
          → fn db ≡ r
          → Scoped fn db (elim r.1 [
            | gave_error c ↦ (db, failed (callback_failed c))
            | CallbackEnd.threw t ↦ (db, panics t)
            | fine ↦ end_transaction round.commit db r.0
          ])
      by_result (new, fine) q = by_commit round.commit new refl q
      by_result (new, gave_error c) q = Scoped.undone (callback_failed c)
      by_result (new, CallbackEnd.threw t) q = Scoped.threw t

  with_savepoint-Scoped :
      (round : Round) (fn : Callback D) (db : D)
      → ((c : Cause) → round.commit ≢ lost c)
      → ((c : Cause) → round.commit ≢ refused c)
      → round.rolled_back ≡ true
      → Scoped fn db (with_savepoint round fn db)
  unfolding with_savepoint
  with_savepoint-Scoped round fn db safe released back = elim (Option-cases round.begin_error) [
    | inr (c, p) ↦ rw p (Scoped.undone (begin_failed c))
    | inl p ↦ rw p (by_result (fn db) refl)
  ]
    where
      by_commit :
          (m : Commit) (new : D)
          → round.commit ≡ m
          → fn db ≡ (new, fine)
          → Scoped fn db (end_savepoint m new)
      by_commit committed new p q = Scoped.kept new q
      by_commit (refused c) new p q = absurd (released c p)
      by_commit (lost c) new p q = absurd (safe c p)

      by_result :
          (r : D × CallbackEnd)
          → fn db ≡ r
          → Scoped fn db (elim r.1 [
            | gave_error c ↦ (after_rollback round db r.0, failed (callback_failed c))
            | CallbackEnd.threw t ↦ (after_rollback round db r.0, panics t)
            | fine ↦ end_savepoint round.commit r.0
          ])
      by_result (new, fine) q = by_commit round.commit new refl q
      by_result (new, gave_error c) q = rw back (Scoped.undone (callback_failed c))
      by_result (new, CallbackEnd.threw t) q = rw back (Scoped.threw t)

  -- How a call ends: it succeeds with all of one call of the callback, or leaves the state alone.
  pub data AllOrNothing (fn : ℕ → Callback D) (db : D) : D × (ℕ × Ending) → Type ℓ where
    all : (i n : ℕ) (new : D) → fn i db ≡ (new, fine) → AllOrNothing fn db (new, (n, succeeded))
    nothing : (n : ℕ) (end : Ending) → end ≢ succeeded → AllOrNothing fn db (db, (n, end))

  module _ (draw : ℕ → ℕ) (s : Settings) (rounds : ℕ → Round) (fn : ℕ → Callback D)
      (safe : (i : ℕ) (c : Cause) → (rounds i).commit ≢ lost c) where
    not_succeeded : (x : TxError) → returned x ≢ succeeded
    not_succeeded x z = cc

    panic-not-succeeded : draw_panicked ≢ succeeded
    panic-not-succeeded z = cc

    thrown-not-succeeded : (t : Text) → callback_panicked t ≢ succeeded
    thrown-not-succeeded t z = cc

    after_scope-AllOrNothing :
        (left i backoff : ℕ) (round : Round) (again : ScopeError → D → D × (ℕ × Ending)) (db : D)
        (r : D × ScopeEnd)
        → ((e : ScopeError) → AllOrNothing fn db (again e db))
        → Scoped (fn i) db r
        → AllOrNothing fn db (after_scope draw s left i backoff round again r)
    unfolding after_scope
    after_scope-AllOrNothing left i backoff round again db r h (Scoped.kept new q) =
        AllOrNothing.all i (suc i) new q
    after_scope-AllOrNothing left i backoff round again db r h (Scoped.threw t) =
        AllOrNothing.nothing (suc i) _ (thrown-not-succeeded t)
    after_scope-AllOrNothing left i backoff round again db r h (Scoped.undone e) =
        elim (Bool-cases (is_retryable (some (cause_of e)) s.codes)) [
          | inr p ↦ rw p (AllOrNothing.nothing (suc i) _ (not_succeeded (scope_error e)))
          | inl p ↦ rw p (by_left left)
        ]
      where
        waited :
            (c : Option Cause)
            → AllOrNothing fn db
                (elim c [ some x ↦ (db, (suc i, returned (context_error x))) | none ↦ again e db ])
        waited (some x) = AllOrNothing.nothing (suc i) _ (not_succeeded (context_error x))
        waited none = h e

        by_left :
            (n : ℕ)
            → AllOrNothing fn db (elim n [
              | zero ↦ again e db
              | suc _ ↦ elim (wait draw backoff) [
                | none ↦ (db, (suc i, draw_panicked))
                | some _ ↦ elim round.cancelled_waiting [
                  | some x ↦ (db, (suc i, returned (context_error x)))
                  | none ↦ again e db
                ]
              ]
            ])
        by_left zero = h e
        by_left (suc n) = elim (Option-cases (wait draw backoff)) [
          | inl p ↦ rw p (AllOrNothing.nothing (suc i) draw_panicked panic-not-succeeded)
          | inr (d, p) ↦ rw p (waited round.cancelled_waiting)
        ]

    failed-AllOrNothing :
        (left i backoff : ℕ) (e : ScopeError) (db : D)
        → AllOrNothing fn db (run_attempts draw s rounds fn left i backoff (some e) db)
    unfolding run_attempts
    failed-AllOrNothing zero i backoff e db =
        AllOrNothing.nothing i _ (not_succeeded (exceeded s.attempts e))
    failed-AllOrNothing (suc left) i backoff e db = elim (Option-cases (rounds i).cancelled) [
      | inr (c, p) ↦
          rw (p, run_attempts) (AllOrNothing.nothing i _ (not_succeeded (context_error c)))
      | inl p ↦
          rw (p, run_attempts)
            (after_scope-AllOrNothing left i backoff (rounds i)
              (λ x next.
                run_attempts draw s rounds fn left (suc i) (next_backoff s.cap backoff) (some x)
                  next)
              db (run_in_tx (rounds i) (fn i) db)
              (λ x. failed-AllOrNothing left (suc i) (next_backoff s.cap backoff) x db)
              (run_in_tx-Scoped (rounds i) (fn i) db (safe i)))
    ]

    started-AllOrNothing :
        (left i backoff : ℕ) (db : D)
        → AllOrNothing fn db (run_attempts draw s rounds fn (suc left) i backoff none db)
    unfolding run_attempts
    started-AllOrNothing left i backoff db = elim (Option-cases (rounds i).cancelled) [
      | inr (c, p) ↦
          rw (p, run_attempts) (AllOrNothing.nothing i _ (not_succeeded (context_error c)))
      | inl p ↦
          rw (p, run_attempts)
            (after_scope-AllOrNothing left i backoff (rounds i)
              (λ x next.
                run_attempts draw s rounds fn left (suc i) (next_backoff s.cap backoff) (some x)
                  next)
              db (run_in_tx (rounds i) (fn i) db)
              (λ x. failed-AllOrNothing left (suc i) (next_backoff s.cap backoff) x db)
              (run_in_tx-Scoped (rounds i) (fn i) db (safe i)))
    ]

  -- Unless a commit fails that the server has carried out, or the release or the rollback of a
  -- savepoint takes no effect: a call succeeds with the whole effect of one call of the callback on
  -- the state before, which all failed attempts have left as it was, or it does not succeed, by an
  -- error or a panic, and the state is as before. This holds for a new transaction, with any
  -- retries, and for a savepoint in an ambient one.
  pub with_transaction-AllOrNothing :
      (draw : ℕ → ℕ) (ambient options : Bool) (cfgs : List RetryConfig) (rounds : ℕ → Round)
      (fn : ℕ → Callback D) (db : D)
      → IsSettled ambient rounds
      → AllOrNothing fn db (with_transaction draw ambient options cfgs rounds fn db)
  unfolding with_transaction
  with_transaction-AllOrNothing draw true true cfgs rounds fn db v =
      AllOrNothing.nothing 0 _
        (not_succeeded draw (settings cfgs) rounds fn v.no_lost options_in_ambient)
  with_transaction-AllOrNothing draw true false cfgs rounds fn db v =
      in_savepoint (with_savepoint (rounds 0) (fn 0) db)
        (with_savepoint-Scoped (rounds 0) (fn 0) db (v.no_lost 0) (v.released refl) (v.undone refl))
    where
      in_savepoint :
          (r : D × ScopeEnd)
          → Scoped (fn 0) db r
          → AllOrNothing fn db (elim r.1 [
            | passed ↦ (r.0, (1, succeeded))
            | panics t ↦ (r.0, (1, callback_panicked t))
            | failed e ↦ (r.0, (1, returned (scope_error e)))
          ])
      in_savepoint r (Scoped.kept new q) = AllOrNothing.all 0 1 new q
      in_savepoint r (Scoped.threw t) =
          AllOrNothing.nothing 1 _ (thrown-not-succeeded draw (settings cfgs) rounds fn v.no_lost t)
      in_savepoint r (Scoped.undone e) =
          AllOrNothing.nothing 1 _
            (not_succeeded draw (settings cfgs) rounds fn v.no_lost (scope_error e))
  with_transaction-AllOrNothing draw false options cfgs rounds fn db v =
      let (k, e) = some_attempts cfgs in
      let s = settings cfgs in
      subst (λ n. AllOrNothing fn db (run_attempts draw s rounds fn n 0 s.backoff none db)) (sym e)
        (started-AllOrNothing draw s rounds fn v.no_lost k 0 s.backoff db)
