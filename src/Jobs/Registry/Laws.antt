-- ===== src/Jobs/Registry/Laws.antt =====
-- What a registration changes, and when it is refused.
use devengine.Common.{
  ◌≡◌, ◌≢◌, ◌↔◌, refl, false, none, some, [], Text, text_eq, text_eq_iff, arith, lookup, insert,
  lookup-insert, if◌then◌else◌, Result, ok, err, Bool-cases, Option-cases, inl, inr,
}
use devengine.Jobs.Registry.{
  Handler, Registry, RegistryError, is_nil_handler, register, replace, handler_for,
}

-- Every registered handler can be called.
abbrev pub IsSound : Registry → Type 0
IsSound r = (name : Text) (h : Handler) → lookup name r.handlers ≡ some h → is_nil_handler h ≡ false

-- The registry with one more or one other handler.
pub record Sets (r r' : Registry) (name : Text) (h : Handler) : Type 0 where
  pub named : name ≢ []
  pub callable : is_nil_handler h ≡ false
  pub reads : (k : Text) → handler_for r' k ≡ (if text_eq name k then h else handler_for r k)
  pub sound : IsSound r → IsSound r'

insert-Sets :
    (r : Registry) (name : Text) (h : Handler)
    → text_eq name [] ≡ false
    → is_nil_handler h ≡ false
    → Sets r (record r { handlers = insert name h r.handlers }) name h
unfolding handler_for
insert-Sets r name h n c = record {
  named = λ e. ground (arith, text_eq_iff name []);
  callable = c;
  reads = λ k. ground (arith, lookup-insert name k h r.handlers);
  sound = λ s k g e. ground (arith, lookup-insert name k h r.handlers, s k g);
}

err_ok : {x : RegistryError} {r : Registry} → err x ≡ ok r → ⊥
err_ok z = cc

ok_eq : {r r' : Registry} → ◌≡◌ {A = Result RegistryError Registry} (ok r) (ok r') → r' ≡ r
ok_eq z = cc

Sets-of :
    {r r' r'' : Registry} {name : Text} {h : Handler}
    → r'' ≡ r'
    → Sets r r' name h
    → Sets r r'' name h
Sets-of {r} {name} {h} e s = rw e s

-- An accepted registration had a name that was free and a handler that can be called; afterwards
-- calls of that name get the handler, and those of other names what they got before.
pub register_accepts :
    (r : Registry) (name : Text) (h : Handler) (r' : Registry)
    → register r name h ≡ ok r'
    → (lookup name r.handlers ≡ none) × Sets r r' name h
unfolding register
register_accepts r name h r' e = elim (Bool-cases (text_eq name [])) [
  | inl p ↦ absurd (err_ok (rw p at e))
  | inr p ↦ elim (Bool-cases (is_nil_handler h)) [
    | inl q ↦ absurd (err_ok (rw (p, q) at e))
    | inr q ↦ elim (Option-cases (lookup name r.handlers)) [
      | inl free ↦ (free, Sets-of (ok_eq (rw (p, q, free) at e)) (insert-Sets r name h p q))
      | inr (g, taken) ↦ absurd (err_ok (rw (p, q, taken) at e))
    ]
  ]
]

-- An accepted replacement had a name that was taken; otherwise it is as a registration.
pub replace_accepts :
    (r : Registry) (name : Text) (h : Handler) (r' : Registry)
    → replace r name h ≡ ok r'
    → (lookup name r.handlers ≢ none) × Sets r r' name h
unfolding replace
replace_accepts r name h r' e = elim (Bool-cases (text_eq name [])) [
  | inl p ↦ absurd (err_ok (rw p at e))
  | inr p ↦ elim (Bool-cases (is_nil_handler h)) [
    | inl q ↦ absurd (err_ok (rw (p, q) at e))
    | inr q ↦ elim (Option-cases (lookup name r.handlers)) [
      | inl free ↦ absurd (err_ok (rw (p, q, free) at e))
      | inr (g, taken) ↦
          ((λ z. cc), Sets-of (ok_eq (rw (p, q, taken) at e)) (insert-Sets r name h p q))
    ]
  ]
]

-- For a name and a handler that can be called, a registration is accepted exactly when the name is
-- free, and a replacement exactly when it is taken.
pub register-replace :
    (r : Registry) (name : Text) (h : Handler)
    → name ≢ []
    → is_nil_handler h ≡ false
    → (((r' : Registry) × (register r name h ≡ ok r')) ↔ (lookup name r.handlers ≡ none))
      × (((r' : Registry) × (replace r name h ≡ ok r')) ↔ (lookup name r.handlers ≢ none))
unfolding register replace
register-replace r name h n c = (
  ((λ (r', e). (register_accepts r name h r' e).0), (λ e. (next, rw (unnamed, c, e) refl))),
  ((λ (r', e). (replace_accepts r name h r' e).0), taken),
)
  where
    unnamed : text_eq name [] ≡ false
    unnamed = ground (arith, text_eq_iff name [])

    next : Registry
    next = record r { handlers = insert name h r.handlers }

    taken : lookup name r.handlers ≢ none → (r' : Registry) × (replace r name h ≡ ok r')
    taken e = elim (Option-cases (lookup name r.handlers)) [
      | inl f ↦ absurd (e f)
      | inr (g, t) ↦ (next, rw (unnamed, c, t) refl)
    ]
