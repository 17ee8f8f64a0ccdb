-- ===== src/Jobs/Table/Renew.antt =====
-- What a renewal does while the lease runs, after it, and when it comes late.
use devengine.Common.{
  ℕ, ◌+◌, ◌≤◌, ◌<◌, ◌≡◌, refl, sym, ap, ◌∙◌, true, false, Memᴰ, Text, arith, inl, inr, Bool-cases,
  any-none, leb, ◌&&◌, count_if-pos, count_if-le_one, count_if-any-false, update_where-none,
  update-Memᴰ_changed, Distinct, Distinct-unique, and_left, and_right, and_intro, true-false,
}
use devengine.Jobs.Table.{
  Row, Table, JobRow, is_failed, is_locked, is_claimable, owned_by, renewable, renew_row, fail_row,
  renew, fail_owned,
}
use devengine.Jobs.Table.Owner.{owned_by-id}

module _ (now lease : ℕ) (j : JobRow) (rows : Table) (r : Row) (m : Memᴰ r rows)
    (h : owned_by j r ≡ true) where
  -- On a table of distinct ids, a renewal of a claim that owns a row, sent while its lease runs,
  -- affects that one row, and the lease then runs on from now.
  pub renew_in_time :
      Distinct (λ (x : Row). x.id) rows
      → is_locked now r ≡ true
      → ((renew now lease j rows).1 ≡ 1) × Memᴰ (renew_row now lease r) (renew now lease j rows).0
  unfolding renew
  renew_in_time d live =
      let hit : renewable now j r ≡ true = and_intro _ _ h live in
      (
        one _ (count_if-pos (renewable now j) rows m hit) (
            count_if-le_one (renewable now j) (λ (x : Row). x.id) rows d
              (λ a b p q.
                owned_by-id j a (and_left _ _ p) ∙ sym (owned_by-id j b (and_left _ _ q)))),
        update-Memᴰ_changed (renewable now j) (renew_row now lease) rows m hit,
      )
    where
      one : (n : ℕ) → 0 < n → n ≤ 1 → n ≡ 1
      one n lo hi = omega arith

  not_renewable :
      Distinct (λ (x : Row). x.id) rows
      → is_locked now r ≡ false
      → (q : Row) → Memᴰ q rows
      → renewable now j q ≡ false
  not_renewable d over q mq = elim (Bool-cases (renewable now j q)) [
    | inl e ↦
        let owner = owned_by-id j q (and_left (owned_by j q) (is_locked now q) e) in
        let same : q ≡ r =
          Distinct-unique (λ (x : Row). x.id) rows d mq m (owner ∙ sym (owned_by-id j r h)) in
        absurd (
          true-false
            (sym (and_right (owned_by j q) (is_locked now q) e) ∙ ap (is_locked now) same ∙ over))
    | inr e ↦ e
  ]

  -- A renewal sent after the lease has ended changes nothing, and the count tells the worker so.
  pub renew_expired :
      Distinct (λ (x : Row). x.id) rows
      → is_locked now r ≡ false
      → renew now lease j rows ≡ (rows, 0)
  unfolding renew
  renew_expired d over =
      let nothing = any-none (renewable now j) rows (not_renewable d over) in
      rw (
        update_where-none (renewable now j) (renew_row now lease) rows nothing,
        count_if-any-false (renewable now j) rows nothing,
      )

fail_row-renewable :
    (now n : ℕ) (text : Text) (j : JobRow) (r : Row)
    → owned_by j r ≡ true
    → renewable now j (fail_row n text r) ≡ true
unfolding owned_by is_locked
fail_row-renewable now n text j r h = and_intro _ _ h refl

-- A renewal that reaches the server after the outcome was recorded undoes a permanent failure: the
-- row is leased, and the job can be claimed again exactly when it is due and that lease has ended.
pub late_renewal :
    (now lease n : ℕ) (text : Text) (j : JobRow) (rows : Table) (r : Row)
    → Memᴰ r rows
    → owned_by j r ≡ true
    → (q : Row) × Memᴰ q (renew now lease j (fail_owned n text j rows).0).0
      × (q.id ≡ r.id)
      × (is_failed q ≡ false)
      × ((later : ℕ) → is_claimable later q ≡ (leb r.run_at later && leb (now + lease) later))
unfolding renew fail_owned is_failed is_claimable
late_renewal now lease n text j rows r m h = (
  renew_row now lease (fail_row n text r),
  update-Memᴰ_changed (renewable now j) (renew_row now lease) _
      (update-Memᴰ_changed (owned_by j) (fail_row n text) rows m h)
      (fail_row-renewable now n text j r h),
  refl,
  refl,
  λ later. ground arith,
)
