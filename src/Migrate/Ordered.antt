-- ===== src/Migrate/Ordered.antt =====
-- In which order migrations come.
use devengine.Common.{
  ℕ, ◌<◌, ◌≡◌, ◌≢◌, refl, false, List, [], ◌∷◌, Memᴰ, Text, ltb, ltb→lt, arith, ok, inl, inr,
  Bool-cases, Memᴰ-swapped, Memᴰ-cons_map, Distinct,
}
use devengine.Migrate.Load.{
  Source, Migration, insert_version, sort_versions, add_sources, load_sources,
}
use devengine.Migrate.Loaded.{InRange, IsLoaded, ok_eq, bind_value, add_sources-IsLoaded}

abbrev pub Ascending : List Migration → Type 0
Ascending [] = Unit
Ascending (m ∷ ms) = ((n : Migration) → Memᴰ n ms → m.version < n.version) × Ascending ms

Memᴰ-insert_version :
    {a : Migration} (m : Migration) (ms : List Migration)
    → Memᴰ a (insert_version m ms)
    → Memᴰ a (m ∷ ms)
unfolding insert_version
Memᴰ-insert_version m [] k = k
Memᴰ-insert_version m (n ∷ ms) k = elim (Bool-cases (ltb m.version n.version)) [
  | inl e ↦ rw e at k
  | inr e ↦ Memᴰ-swapped ms (Memᴰ-cons_map n _ _ (Memᴰ-insert_version m ms) (rw e at k))
]

Memᴰ-sort_versions : {a : Migration} (ms : List Migration) → Memᴰ a (sort_versions ms) → Memᴰ a ms
unfolding sort_versions
Memᴰ-sort_versions [] k = k
Memᴰ-sort_versions (m ∷ ms) k =
    Memᴰ-cons_map m _ _ (Memᴰ-sort_versions ms) (Memᴰ-insert_version m (sort_versions ms) k)

not_less : (a b : ℕ) → ltb a b ≡ false → b ≢ a → b < a
not_less a b h ne = ground arith

insert-Ascending :
    (m : Migration) (ms : List Migration)
    → ((n : Migration) → Memᴰ n ms → n.version ≢ m.version)
    → Ascending ms
    → Ascending (insert_version m ms)
unfolding insert_version
insert-Ascending m [] d a = ((λ n k. elim k [ ]), tt)
insert-Ascending m (n ∷ ms) d a = elim (Bool-cases (ltb m.version n.version)) [
  | inl e ↦ rw e ((λ x k. before x k (ltb→lt _ _ e)), a)
  | inr e ↦ rw e (
    (λ x k. behind x (Memᴰ-insert_version m ms k) (not_less _ _ e (d n (Memᴰ.head refl)))),
    insert-Ascending m ms (λ x k. d x (Memᴰ.tail k)) a.1,
  )
]
  where
    before : (x : Migration) → Memᴰ x (n ∷ ms) → m.version < n.version → m.version < x.version
    before x (Memᴰ.head e) lt = rw e lt
    before x (Memᴰ.tail k) lt = omega (arith, a.0 x k)

    behind : (x : Migration) → Memᴰ x (m ∷ ms) → n.version < m.version → n.version < x.version
    behind x (Memᴰ.head e) lt = rw e lt
    behind x (Memᴰ.tail k) lt = a.0 x k

sort-Ascending :
    (ms : List Migration)
    → Distinct (λ (m : Migration). m.version) ms
    → Ascending (sort_versions ms)
unfolding sort_versions
sort-Ascending [] d = tt
sort-Ascending (m ∷ ms) d =
    insert-Ascending m (sort_versions ms) (λ n k. d.0 n (Memᴰ-sort_versions ms k))
      (sort-Ascending ms d.1)

-- Loaded migrations come in strictly ascending order of their versions, so that no two have the
-- same, and every version lies in the range of its source: 1 to 999 for the engine, from 1000 on
-- for the application.
pub load_sources-Ascending :
    (checksum : Text → Text) (sources : List Source) (ms : List Migration)
    → load_sources checksum sources ≡ ok ms
    → Ascending ms × ((m : Migration) → Memᴰ m ms → InRange m)
unfolding load_sources
load_sources-Ascending checksum sources ms h =
    let (all, p, sorted) =
      bind_value (add_sources checksum sources []) (λ loaded. ok (sort_versions loaded)) ms h in
    let v = add_sources-IsLoaded checksum sources [] all nothing p in
    (
      rw (ok_eq sorted) (sort-Ascending all v.distinct),
      λ m k. v.in_range m (Memᴰ-sort_versions all (rw (ok_eq sorted) at k)),
    )
  where
    nothing : IsLoaded []
    nothing = record { in_range = λ m k. elim k [ ]; distinct = tt }
