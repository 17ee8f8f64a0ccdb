-- ===== src/Health/Readiness.antt =====
-- What a readiness response says.
use devengine.Common.{
  ℕ, suc, ◌≡◌, ◌⊎◌, refl, sym, ap, ◌∙◌, Bool, true, false, ◌&&◌, ◌||◌, not, some, List, [], ◌∷◌,
  Text, text_eq, text_eq_iff, str, arith, Map, lookup, insert, lookup-insert, any, if◌then◌else◌,
  Bool-cases, inl, inr, some_eq, none-some, subst,
}
use devengine.Health.{
  CheckResult, Registry, Arrival, redact, is_failing, is_critical, collect, respond, handler,
}

abbrev pub blocks : Arrival → Bool
blocks a = is_failing a.result.status && is_critical a.entry.criticality

collect-ready :
    (meanwhile : ℕ → Registry → Registry) (verbose : Bool) (i : ℕ) (arrivals : List Arrival)
    (checks : Map CheckResult) (ready : Bool) (r : Registry)
    → (collect meanwhile verbose i arrivals checks ready r).1.1
      ≡ (ready && not (any blocks arrivals))
unfolding collect any
collect-ready meanwhile verbose i [] checks ready r = ground arith
collect-ready meanwhile verbose i (a ∷ arrivals) checks ready r =
    collect-ready meanwhile verbose (suc i) arrivals _ (ready && not (blocks a)) _
    ∙ both ready (blocks a) (any blocks arrivals)
  where
    both : (x y z : Bool) → ((x && not y) && not z) ≡ (x && not (y || z))
    both x y z = ground arith

-- The response is 503 exactly when some critical check fails, whatever other calls do to the
-- registry meanwhile; failures of informational checks do not count.
pub handler_unavailable :
    (service : Text) (verbose : Bool) (meanwhile : ℕ → Registry → Registry)
    (arrivals : List Arrival) (r : Registry)
    → (handler service verbose meanwhile arrivals r).1.code
      ≡ (if any blocks arrivals then 503 else 200)
unfolding handler respond
handler_unavailable service verbose meanwhile arrivals r =
    ap code_of (collect-ready meanwhile verbose 0 arrivals [] true r)
    ∙ flipped (any blocks arrivals)
  where
    code_of : Bool → ℕ
    code_of b = if b then 200 else 503

    flipped : (b : Bool) → code_of (true && not b) ≡ (if b then 503 else 200)
    flipped b = ground arith

-- Nothing of an error's text.
abbrev pub IsRedacted : CheckResult → Type 0
IsRedacted c = (c.message ≡ []) ⊎ (c.message ≡ str "redacted")

redact-IsRedacted : (c : CheckResult) → IsRedacted (redact false c)
unfolding redact
redact-IsRedacted c = elim (Bool-cases (text_eq c.message [])) [
  | inl p ↦ rw (p, redact) (inl ((text_eq_iff c.message []).0 p))
  | inr p ↦ rw (p, redact) (inr refl)
]

abbrev AllRedacted : Map CheckResult → Type 0
AllRedacted checks = (k : Text) (c : CheckResult) → lookup k checks ≡ some c → IsRedacted c

insert-AllRedacted :
    (name : Text) (c : CheckResult) (checks : Map CheckResult)
    → IsRedacted c
    → AllRedacted checks
    → AllRedacted (insert name c checks)
insert-AllRedacted name c checks h a k x e = elim (Bool-cases (text_eq name k)) [
  | inl p ↦ subst IsRedacted (some_eq (rw p at (sym (lookup-insert name k c checks) ∙ e))) h
  | inr p ↦ a k x (rw p at (sym (lookup-insert name k c checks) ∙ e))
]

collect-AllRedacted :
    (meanwhile : ℕ → Registry → Registry) (i : ℕ) (arrivals : List Arrival)
    (checks : Map CheckResult) (ready : Bool) (r : Registry)
    → AllRedacted checks
    → AllRedacted (collect meanwhile false i arrivals checks ready r).1.0
unfolding collect
collect-AllRedacted meanwhile i [] checks ready r a = a
collect-AllRedacted meanwhile i (x ∷ arrivals) checks ready r a =
    collect-AllRedacted meanwhile (suc i) arrivals _ _ _
      (insert-AllRedacted x.name (redact false x.result) checks (redact-IsRedacted x.result) a)

-- Unless the registry is verbose, no response shows any text of an error.
pub handler-IsRedacted :
    (service : Text) (meanwhile : ℕ → Registry → Registry) (arrivals : List Arrival) (r : Registry)
    (k : Text) (c : CheckResult)
    → lookup k (handler service false meanwhile arrivals r).1.checks ≡ some c
    → IsRedacted c
unfolding handler respond
handler-IsRedacted service meanwhile arrivals r k c e =
    collect-AllRedacted meanwhile 0 arrivals [] true r (λ j x p. empty j x p) k c e
  where
    empty : (j : Text) (x : CheckResult) → lookup j [] ≡ some x → IsRedacted x
    empty j x p = unfold lookup in absurd (none-some p)
