-- ===== src/Jobs/Table/Order.antt =====
-- The order in which a claim takes rows.
use devengine.Common.{
  ℕ, zero, suc, ◌≤◌, ◌≡◌, refl, ◌⊎◌, inl, inr, List, [], ◌∷◌, Memᴰ, arith, Bool-cases, leb, leb→le,
  leb_false→lt, take, length,
}
use devengine.Jobs.Table.{Row, Table, insert_by_run_at, sort_by_run_at}
use devengine.Jobs.Table.Select.{Memᴰ-insert_by_run_at}

-- Each row is due no later than those behind it.
abbrev pub Ascending : List Row → Type 0
Ascending [] = Unit
Ascending (r ∷ rows) = ((s : Row) → Memᴰ s rows → r.run_at ≤ s.run_at) × Ascending rows

insert-Ascending : (r : Row) (rows : Table) → Ascending rows → Ascending (insert_by_run_at r rows)
unfolding insert_by_run_at
insert-Ascending r [] a = ((λ s m. elim m [ ]), tt)
insert-Ascending r (x ∷ rows) a = elim (Bool-cases (leb r.run_at x.run_at)) [
  | inl e ↦ rw e ((λ s m. before s m (leb→le _ _ e)), a)
  | inr e ↦ rw e (
    (λ s m. behind s (Memᴰ-insert_by_run_at r rows m) (leb_false→lt _ _ e)),
    insert-Ascending r rows a.1,
  )
]
  where
    before : (s : Row) → Memᴰ s (x ∷ rows) → r.run_at ≤ x.run_at → r.run_at ≤ s.run_at
    before s (Memᴰ.head e) le = rw e le
    before s (Memᴰ.tail m) le = omega (arith, a.0 s m)

    behind : (s : Row) → Memᴰ s (r ∷ rows) → suc x.run_at ≤ r.run_at → x.run_at ≤ s.run_at
    behind s (Memᴰ.head e) lt = rw e (omega arith)
    behind s (Memᴰ.tail m) lt = a.0 s m

pub sort-Ascending : (rows : Table) → Ascending (sort_by_run_at rows)
unfolding sort_by_run_at
sort-Ascending [] = tt
sort-Ascending (r ∷ rows) = insert-Ascending r (sort_by_run_at rows) (sort-Ascending rows)

inserted : (a r : Row) (rows : Table) → Memᴰ a (r ∷ rows) → Memᴰ a (insert_by_run_at r rows)
unfolding insert_by_run_at
inserted a r [] m = m
inserted a r (x ∷ rows) m = elim (Bool-cases (leb r.run_at x.run_at)) [
  | inl e ↦ rw e m
  | inr e ↦ rw e (past m (inserted a r rows))
]
  where
    past :
        Memᴰ a (r ∷ x ∷ rows)
        → (Memᴰ a (r ∷ rows) → Memᴰ a (insert_by_run_at r rows))
        → Memᴰ a (x ∷ insert_by_run_at r rows)
    past (Memᴰ.head e) f = Memᴰ.tail (f (Memᴰ.head e))
    past (Memᴰ.tail (Memᴰ.head e)) f = Memᴰ.head e
    past (Memᴰ.tail (Memᴰ.tail n)) f = Memᴰ.tail (f (Memᴰ.tail n))

pub sorted : (a : Row) (rows : Table) → Memᴰ a rows → Memᴰ a (sort_by_run_at rows)
unfolding sort_by_run_at
sorted a [] m = elim m [ ]
sorted a (r ∷ rows) (Memᴰ.head e) = inserted a r (sort_by_run_at rows) (Memᴰ.head e)
sorted a (r ∷ rows) (Memᴰ.tail m) = inserted a r (sort_by_run_at rows) (Memᴰ.tail (sorted a rows m))

-- A row that the limit cuts off: the limit is reached, and all that was taken is due no later.
abbrev pub CutOff : ℕ → Row → List Row → Type 0
CutOff n a taken = (length taken ≡ n) × ((c : Row) → Memᴰ c taken → c.run_at ≤ a.run_at)

pub take-CutOff :
    (n : ℕ) (a : Row) (rows : List Row)
    → Ascending rows
    → Memᴰ a rows
    → Memᴰ a (take n rows) ⊎ CutOff n a (take n rows)
take-CutOff zero a rows h m = inr (refl, (λ c k. elim k [ ]))
take-CutOff (suc n) a [] h m = elim m [ ]
take-CutOff (suc n) a (x ∷ rows) h (Memᴰ.head e) = inl (Memᴰ.head e)
take-CutOff (suc n) a (x ∷ rows) h (Memᴰ.tail m) = elim (take-CutOff n a rows h.1 m) [
  | inl k ↦ inl (Memᴰ.tail k)
  | inr (full, le) ↦ inr (omega (arith, full), earlier le)
]
  where
    earlier :
        ((c : Row) → Memᴰ c (take n rows) → c.run_at ≤ a.run_at)
        → (c : Row) → Memᴰ c (x ∷ take n rows)
        → c.run_at ≤ a.run_at
    earlier le c (Memᴰ.head e) = rw e (h.0 a m)
    earlier le c (Memᴰ.tail k) = le c k
