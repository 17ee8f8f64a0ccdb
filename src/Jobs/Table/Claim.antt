-- ===== src/Jobs/Table/Claim.antt =====
-- What one claim takes, and what it leaves.
use devengine.Common.{
  ℕ, ◌+◌, ◌≤◌, ◌<◌, ◌≡◌, ◌≢◌, sym, ap, ◌∙◌, ◌⊎◌, inl, inr, Bool, true, false, ◌&&◌, not, List, Memᴰ,
  Text, text_eq_iff, text_eq_refl, arith, keep_if, any-intro, length, length-map, length-keep_if,
  length-take, count_if, Memᴰ-keep_if, Memᴰ-keep_if_intro, Memᴰ-map, Memᴰ-map_intro, Distinct,
  Distinct-unique, Distinct-update, update-Memᴰ_changed, and_left, and_right, true-false,
  count_if-any, count_if-le_one,
}
use devengine.Jobs.Table.{
  Row, Table, JobRow, returned, has_id, is_claimable, sort_by_run_at, select_claimable, selects,
  claim, lease_row,
}
use devengine.Jobs.Table.Owner.{lease_row-kept}
use devengine.Jobs.Table.Select.{selects-is_claimable}
use devengine.Jobs.Table.Order.{CutOff, sort-Ascending, sorted, take-CutOff}

-- A claim made of a row: the row could be claimed and no other transaction held it, and the table
-- now leases it under the claim's token.
pub record Leases (now lease : ℕ) (prefix : Text) (busy : Text → Bool) (rows new : Table)
    (j : JobRow) : Type 0 where
  pub row : Row
  pub stored : Memᴰ row rows
  pub made : j ≡ returned prefix row
  pub claimable : is_claimable now row ≡ true
  pub free : busy row.id ≡ false
  pub leased : Memᴰ (lease_row now lease prefix row) new

not-true : (b : Bool) → not b ≡ true → b ≡ false
not-true b h = ground arith

module _ (batch now lease : ℕ) (prefix : Text) (busy : Text → Bool) (rows : Table) where
  abbrev available : Row → Bool
  available r = is_claimable now r && not (busy r.id)

  -- On a table of distinct ids, each claim that is returned was made of one row that could be
  -- claimed and that no other transaction held, and the new table leases that row under the claim's
  -- token.
  pub claim-Leases :
      (j : JobRow)
      → Distinct (λ (r : Row). r.id) rows
      → Memᴰ j (claim batch now lease prefix busy rows).1
      → Leases now lease prefix busy rows (claim batch now lease prefix busy rows).0 j
  unfolding claim
  claim-Leases j d m =
      let chosen = select_claimable batch now busy rows in
      let (r, n, e) = Memᴰ-map (returned prefix) (keep_if (selects chosen) rows) m in
      let (stored, hit) = Memᴰ-keep_if (selects chosen) rows n in
      let ready = selects-is_claimable batch now busy rows r d stored hit in
      record {
        row = r;
        stored = stored;
        made = e;
        claimable = and_left _ _ ready;
        free = not-true _ (and_right _ _ ready);
        leased = update-Memᴰ_changed (selects chosen) (lease_row now lease prefix) rows stored hit;
      }

  selects_self : (chosen : List Row) (r : Row) → Memᴰ r chosen → selects chosen r ≡ true
  unfolding selects has_id
  selects_self chosen r m = any-intro (λ (c : Row). has_id r.id c) chosen m (text_eq_refl r.id)

  -- A row that could be claimed is claimed, unless the batch is full of rows that are due no later.
  pub claim_oldest :
      (r : Row)
      → Memᴰ r rows
      → is_claimable now r ≡ true
      → busy r.id ≡ false
      → Memᴰ (returned prefix r) (claim batch now lease prefix busy rows).1
        ⊎ CutOff batch r (select_claimable batch now busy rows)
  unfolding claim
  claim_oldest r m ready free = elim cut [
    | inl hit ↦ inl (
        Memᴰ-map_intro (returned prefix) _ (
          Memᴰ-keep_if_intro (selects (select_claimable batch now busy rows)) rows m
            (selects_self _ r hit)))
    | inr over ↦ inr over
  ]
    where
      open_row : (a b : Bool) → a ≡ true → b ≡ false → (a && not b) ≡ true
      open_row a b p q = ground arith

      cut :
          Memᴰ r (select_claimable batch now busy rows)
          ⊎ CutOff batch r (select_claimable batch now busy rows)
      cut =
          unfold select_claimable in
          take-CutOff batch r (sort_by_run_at (keep_if available rows))
            (sort-Ascending (keep_if available rows))
            (sorted r (keep_if available rows)
              (Memᴰ-keep_if_intro available rows m (open_row _ _ ready free)))

  same_id : (c a b : Row) → has_id a.id c ≡ true → has_id b.id c ≡ true → a.id ≡ b.id
  unfolding has_id
  same_id c a b p q = sym ((text_eq_iff c.id a.id).0 p) ∙ (text_eq_iff c.id b.id).0 q

  selected-le :
      (chosen : List Row)
      → Distinct (λ (r : Row). r.id) rows
      → count_if (selects chosen) rows ≤ length chosen
  unfolding selects
  selected-le chosen d =
      count_if-any (λ c r. has_id r.id c) chosen rows
        (λ c.
          count_if-le_one (λ r. has_id r.id c) (λ r. r.id) rows d (λ a b p q. same_id c a b p q))

  -- A claim returns at most a batch.
  pub claim-le_batch :
      Distinct (λ (r : Row). r.id) rows → length (claim batch now lease prefix busy rows).1 ≤ batch
  unfolding claim
  claim-le_batch d =
      let chosen = select_claimable batch now busy rows in
      omega (
        arith,
        length-map (returned prefix) (keep_if (selects chosen) rows),
        length-keep_if (selects chosen) rows,
        selected-le chosen d,
        chosen-le,
      )
    where
      chosen-le : length (select_claimable batch now busy rows) ≤ batch
      chosen-le =
          unfold select_claimable in
          omega (arith, length-take batch (sort_by_run_at (keep_if available rows)))

  pub claim-Distinct :
      Distinct (λ (r : Row). r.id) rows
      → Distinct (λ (r : Row). r.id) (claim batch now lease prefix busy rows).0
  unfolding claim
  claim-Distinct d =
      Distinct-update (selects (select_claimable batch now busy rows)) (lease_row now lease prefix)
        (λ r. r.id) rows (λ r m h. (lease_row-kept now lease prefix r).0) d

lease_row-is_locked :
    (now lease later : ℕ) (prefix : Text) (r : Row)
    → later < now + lease
    → is_claimable later (lease_row now lease prefix r) ≡ false
unfolding is_claimable lease_row
lease_row-is_locked now lease later prefix r h = ground arith

-- While a lease runs no other claim returns the job: two claims on a table of distinct ids, the
-- second before the first one's leases end, have no id in common.
pub claim-claim :
    (batch now lease batch' later lease' : ℕ) (prefix prefix' : Text) (busy busy' : Text → Bool)
    (rows : Table) (j k : JobRow)
    → Distinct (λ (r : Row). r.id) rows
    → later < now + lease
    → Memᴰ j (claim batch now lease prefix busy rows).1
    → Memᴰ k (claim batch' later lease' prefix' busy' (claim batch now lease prefix busy rows).0).1
    → j.id ≢ k.id
claim-claim batch now lease batch' later lease' prefix prefix' busy busy' rows j k d h mj mk e =
    true-false (
      sym second.claimable
      ∙ ap (is_claimable later) same
      ∙ lease_row-is_locked now lease later prefix first.row h)
  where
    new : Table
    new = (claim batch now lease prefix busy rows).0

    first : Leases now lease prefix busy rows new j
    first = claim-Leases batch now lease prefix busy rows j d mj

    second : Leases later lease' prefix' busy' new (claim batch' later lease' prefix' busy' new).0 k
    second =
        claim-Leases batch' later lease' prefix' busy' new k
          (claim-Distinct batch now lease prefix busy rows d) mk

    same : second.row ≡ lease_row now lease prefix first.row
    same =
        Distinct-unique (λ (r : Row). r.id) new (claim-Distinct batch now lease prefix busy rows d)
          second.stored first.leased
          (ap (λ (x : JobRow). x.id) (sym second.made)
            ∙ sym e
            ∙ ap (λ (x : JobRow). x.id) first.made
            ∙ sym (lease_row-kept now lease prefix first.row).0)
