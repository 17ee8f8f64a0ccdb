-- ===== src/Schema/Sorted.antt =====
-- In which order drift is reported.
use mathlib.Core.List.{Perm}
use mathlib.Core.List.Perm
use devengine.Common.{
  ◌≡◌, refl, true, false, List, [], ◌∷◌, Memᴰ, arith, Text, Bool-cases, Memᴰ-cons_map, Memᴰ-swapped,
  inl, inr,
}
use devengine.Schema.{Snapshot}
use devengine.Schema.Drift.{DriftEntry}
use devengine.Schema.Diff.{text_less, sort_key, insert_entry, sort_entries, all_entries, compare}

text_less_trans :
    (s t u : Text) → text_less s t ≡ true → text_less t u ≡ true → text_less s u ≡ true
unfolding text_less
text_less_trans s t [] p q = ground arith
text_less_trans s [] (c ∷ u) p q = ground arith
text_less_trans [] (b ∷ t) (c ∷ u) p q = refl
text_less_trans (a ∷ s) (b ∷ t) (c ∷ u) p q = ground (arith, text_less_trans s t u)

text_less_irrefl : (s : Text) → text_less s s ≡ false
unfolding text_less
text_less_irrefl [] = refl
text_less_irrefl (a ∷ s) = ground (arith, text_less_irrefl s)

-- No entry stands before one with a smaller key.
abbrev pub Ascending : List DriftEntry → Type 0
Ascending [] = Unit
Ascending (e ∷ es) =
    ((f : DriftEntry) → Memᴰ f es → text_less (sort_key f) (sort_key e) ≡ false) × Ascending es

insert_entry-Perm : (e : DriftEntry) (es : List DriftEntry) → Perm (insert_entry e es) (e ∷ es)
unfolding insert_entry
insert_entry-Perm e [] = Perm.refl _
insert_entry-Perm e (f ∷ fs) = elim (Bool-cases (text_less (sort_key e) (sort_key f))) [
  | inl p ↦ rw p (Perm.refl _)
  | inr p ↦ rw p (Perm.trans (Perm.cons f (insert_entry-Perm e fs)) (Perm.swap e f fs))
]

sort_entries-Perm : (es : List DriftEntry) → Perm (sort_entries es) es
unfolding sort_entries
sort_entries-Perm [] = Perm.refl _
sort_entries-Perm (e ∷ es) =
    Perm.trans (insert_entry-Perm e (sort_entries es)) (Perm.cons e (sort_entries-Perm es))

Memᴰ-insert_entry :
    {a : DriftEntry} (e : DriftEntry) (es : List DriftEntry)
    → Memᴰ a (insert_entry e es)
    → Memᴰ a (e ∷ es)
unfolding insert_entry
Memᴰ-insert_entry e [] k = k
Memᴰ-insert_entry e (f ∷ fs) k = elim (Bool-cases (text_less (sort_key e) (sort_key f))) [
  | inl p ↦ rw p at k
  | inr p ↦ Memᴰ-swapped fs (Memᴰ-cons_map f _ _ (Memᴰ-insert_entry e fs) (rw p at k))
]

insert_entry-Ascending :
    (e : DriftEntry) (es : List DriftEntry) → Ascending es → Ascending (insert_entry e es)
unfolding insert_entry
insert_entry-Ascending e [] a = ((λ f k. elim k [ ]), tt)
insert_entry-Ascending e (f ∷ fs) a = elim (Bool-cases (text_less (sort_key e) (sort_key f))) [
  | inl p ↦ rw p ((λ g k. before g k p), a)
  | inr p ↦ rw p ((λ g k. behind g (Memᴰ-insert_entry e fs k) p), insert_entry-Ascending e fs a.1)
]
  where
    not_before :
        (g : DriftEntry)
        → text_less (sort_key g) (sort_key f) ≡ false
        → text_less (sort_key e) (sort_key f) ≡ true
        → text_less (sort_key g) (sort_key e) ≡ false
    not_before g q p = ground (arith, text_less_trans (sort_key g) (sort_key e) (sort_key f))

    asym :
        text_less (sort_key e) (sort_key f) ≡ true
        → text_less (sort_key f) (sort_key f) ≡ false
        → text_less (sort_key f) (sort_key e) ≡ false
    asym p q = ground (arith, text_less_trans (sort_key f) (sort_key e) (sort_key f))

    before :
        (g : DriftEntry)
        → Memᴰ g (f ∷ fs)
        → text_less (sort_key e) (sort_key f) ≡ true
        → text_less (sort_key g) (sort_key e) ≡ false
    before g (Memᴰ.head q) p = rw q (asym p (text_less_irrefl (sort_key f)))
    before g (Memᴰ.tail k) p = not_before g (a.0 g k) p

    behind :
        (g : DriftEntry)
        → Memᴰ g (e ∷ fs)
        → text_less (sort_key e) (sort_key f) ≡ false
        → text_less (sort_key g) (sort_key f) ≡ false
    behind g (Memᴰ.head q) p = rw q p
    behind g (Memᴰ.tail k) p = a.0 g k

sort_entries-Ascending : (es : List DriftEntry) → Ascending (sort_entries es)
unfolding sort_entries
sort_entries-Ascending [] = tt
sort_entries-Ascending (e ∷ es) = insert_entry-Ascending e _ (sort_entries-Ascending es)

-- The report lists the differences found, each as often as it was found, in ascending order of the
-- texts table/kind/object.
pub compare-Ascending :
    (base live : Snapshot)
    → Perm (compare base live).entries (all_entries base live)
      × Ascending (compare base live).entries
unfolding compare
compare-Ascending base live =
    (sort_entries-Perm (all_entries base live), sort_entries-Ascending (all_entries base live))
