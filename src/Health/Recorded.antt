-- ===== src/Health/Recorded.antt =====
-- Which results the registry keeps.
use devengine.Common.{
  ℕ, suc, ◌<◌, ◌≤◌, ◌≡◌, ◌≢◌, ◌^◌, refl, sym, ap, ◌∙◌, false, Option, none, some, [], Text, text_eq,
  text_eq_iff, arith, ◌==◌, lookup, Map, insert, text_eq_refl, delete, lookup-insert, lookup-delete,
  Bool-cases, Option-cases, inl, inr, none-some,
}
use devengine.Health.{
  Criticality, Entry, CheckResult, Registry, next_of, add_with_criticality, remove, record_result,
}

-- Every result that is kept is of a check that is registered.
abbrev pub IsCurrent : Registry → Type 0
IsCurrent r = (name : Text) → lookup name r.checks ≡ none → lookup name r.last_results ≡ none

-- Adding, removing and recording keep it so that every result is of a registered check.
pub add-IsCurrent :
    (name : Text) (check : Option ℕ) (c : Criticality) (r : Registry)
    → IsCurrent r
    → IsCurrent (add_with_criticality name check c r)
unfolding add_with_criticality
add-IsCurrent name none c r v = v
add-IsCurrent name (some check) c r v = λ k h. ground (
  arith,
  lookup-insert name k
      (record { check = check; criticality = c; generation = next_of r.next_generation }) r.checks,
  lookup-delete name k r.last_results,
  v k,
)

pub remove-IsCurrent : (name : Text) (r : Registry) → IsCurrent r → IsCurrent (remove name r)
unfolding remove
remove-IsCurrent name r v k h =
    ground (arith, lookup-delete name k r.checks, lookup-delete name k r.last_results, v k)

set_result :
    (name k : Text) (x : CheckResult) (r : Registry) (e : Entry)
    → IsCurrent r
    → lookup name r.checks ≡ some e
    → lookup k r.checks ≡ none
    → lookup k (insert name x r.last_results) ≡ none
set_result name k x r e v p h =
    lookup-insert name k x r.last_results ∙ elim (Bool-cases (text_eq name k)) [
      | inl q ↦
          absurd
            (none-some (sym h ∙ ap (λ t. lookup t r.checks) (sym ((text_eq_iff name k).0 q)) ∙ p))
      | inr q ↦ rw q (v k h)
    ]

pub record_result-IsCurrent :
    (name : Text) (g : ℕ) (x : CheckResult) (r : Registry)
    → IsCurrent r
    → IsCurrent (record_result name g x r)
unfolding record_result
record_result-IsCurrent name g x r v k h = elim (Option-cases (lookup name r.checks)) [
  | inl p ↦ rw (p, record_result) (v k (rw (p, record_result) at h))
  | inr (e, p) ↦ elim (Bool-cases (e.generation == g)) [
    | inl q ↦ rw (p, q, record_result) (set_result name k x r e v p (rw (p, q, record_result) at h))
    | inr q ↦ rw (p, q, record_result) (v k (rw (p, q, record_result) at h))
  ]
]

newer : (g h : ℕ) → suc h < 2 ^ 64 → g ≤ h → (next_of h == g) ≡ false
newer g h small le = ground arith

stale_dropped :
    (name : Text) (g : ℕ) (x : CheckResult) (r : Registry) (e : Entry)
    → lookup name r.checks ≡ some e
    → (e.generation == g) ≡ false
    → record_result name g x r ≡ r
unfolding record_result
stale_dropped name g x r e p q = rw (p, q, record_result) refl

inserted {ℓ} :
    {V : Type ℓ} (name : Text) (v : V) (m : Map V) → lookup name (insert name v m) ≡ some v
inserted name v m = lookup-insert name name v m ∙ rw (text_eq_refl name) refl

deleted {ℓ} : {V : Type ℓ} (name : Text) (m : Map V) → lookup name (delete name m) ≡ none
deleted name m = lookup-delete name name m ∙ rw (text_eq_refl name) refl

-- A result of a check that was replaced while it ran, however it ended, is not recorded: afterwards
-- the name has no result. Generations have not reached 2 ^ 64.
pub replaced_not_recorded :
    (name : Text) (old : Entry) (check : ℕ) (c : Criticality) (x : CheckResult) (r : Registry)
    → name ≢ []
    → suc r.next_generation < 2 ^ 64
    → old.generation ≤ r.next_generation
    → lookup name
        (record_result name old.generation x
          (add_with_criticality name (some check) c r)).last_results
      ≡ none
unfolding add_with_criticality record_result
replaced_not_recorded name old check c x r n small le =
    ap (λ t. lookup name (record_result name old.generation x t).last_results) added
    ∙ ap (λ (t : Registry). lookup name t.last_results)
        (stale_dropped name old.generation x new entry (inserted name entry r.checks)
          (newer old.generation r.next_generation small le))
    ∙ deleted name r.last_results
  where
    entry : Entry
    entry = record { check = check; criticality = c; generation = next_of r.next_generation }

    new : Registry
    new = record r {
      next_generation = next_of r.next_generation;
      checks = insert name entry r.checks;
      last_results = delete name r.last_results;
    }

    unnamed : text_eq name [] ≡ false
    unnamed = ground (arith, text_eq_iff name [])

    added : add_with_criticality name (some check) c r ≡ new
    added = rw (unnamed, add_with_criticality) refl
