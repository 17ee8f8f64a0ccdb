-- ===== src/Jobs/Table/Select.antt =====
-- The rows that a claim selects.
use devengine.Common.{
  ℕ, ◌≡◌, sym, Bool, true, ◌&&◌, not, [], ◌∷◌, Memᴰ, Text, text_eq_iff, Bool-cases, inl, inr, leb,
  Memᴰ-keep_if, any-true, Distinct, Distinct-unique, Memᴰ-take, Memᴰ-swapped, Memᴰ-cons_map,
}
use devengine.Jobs.Table.{
  Row, Table, has_id, is_claimable, insert_by_run_at, sort_by_run_at, select_claimable, selects,
}

pub Memᴰ-insert_by_run_at :
    {a : Row} (r : Row) (rows : Table) → Memᴰ a (insert_by_run_at r rows) → Memᴰ a (r ∷ rows)
unfolding insert_by_run_at
Memᴰ-insert_by_run_at r [] m = m
Memᴰ-insert_by_run_at r (s ∷ rows) m = elim (Bool-cases (leb r.run_at s.run_at)) [
  | inl e ↦ rw e at m
  | inr e ↦ Memᴰ-swapped rows (Memᴰ-cons_map s _ _ (Memᴰ-insert_by_run_at r rows) (rw e at m))
]

Memᴰ-sort_by_run_at : {a : Row} (rows : Table) → Memᴰ a (sort_by_run_at rows) → Memᴰ a rows
unfolding sort_by_run_at
Memᴰ-sort_by_run_at [] m = m
Memᴰ-sort_by_run_at (r ∷ rows) m =
    Memᴰ-cons_map r _ _ (Memᴰ-sort_by_run_at rows) (Memᴰ-insert_by_run_at r (sort_by_run_at rows) m)

-- A selected row is due, unlocked, and not busy, since it is the row of its id.
pub selects-is_claimable :
    (batch now : ℕ) (busy : Text → Bool) (rows : Table) (r : Row)
    → Distinct (λ (x : Row). x.id) rows
    → Memᴰ r rows
    → selects (select_claimable batch now busy rows) r ≡ true
    → (is_claimable now r && not (busy r.id)) ≡ true
unfolding selects select_claimable has_id
selects-is_claimable batch now busy rows r d m h =
    let (a, n, q) =
      any-true (λ (x : Row). has_id r.id x) (select_claimable batch now busy rows) h in
    let inside =
      Memᴰ-keep_if (λ (x : Row). is_claimable now x && not (busy x.id)) rows
        (Memᴰ-sort_by_run_at _ (Memᴰ-take batch _ n)) in
    rw (Distinct-unique (λ (x : Row). x.id) rows d m inside.0 (sym ((text_eq_iff a.id r.id).0 q)))
      inside.1
