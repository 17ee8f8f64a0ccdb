-- ===== src/Events/Laws.antt =====
-- What a registration changes, and which handlers an event gets.
use devengine.Common.{
  ◌≡◌, ◌≢◌, ◌⊎◌, refl, ap, ◌∙◌, true, false, none, some, List, [], ◌∷◌, ◌++◌, Memᴰ, Text, text_eq,
  text_eq_iff, text_eq-false, str, trim_space, if◌then◌else◌, any, any-false, Memᴰ-append_cases,
  insert, lookup-insert, Result, ok, err, inl, inr, Bool-cases, Option-cases, subst,
}
use devengine.Events.{
  Dynamic, Handler, Registry, RegistryError, is_nil_handler, event_type, same_handler, handlers_at,
  or_nothing, add_handler, register, freeze, handlers_for,
}

-- The trimmed event type under which a handler is filed.
abbrev pub IsFiled : Text → Dynamic → Type 0
IsFiled t d =
    (is_nil_handler (some d) ≡ false)
    × ((name : Text) × (event_type (some d) ≡ some name) × (t ≡ trim_space name))

-- No two handlers of a list are the same.
abbrev pub Apart : List Dynamic → Type 0
Apart [] = Unit
Apart (d ∷ ds) = ((e : Dynamic) → Memᴰ e ds → same_handler d e ≡ false) × Apart ds

-- The registry with one more handler.
pub record Adds (r r' : Registry) (t : Text) (d : Dynamic) : Type 0 where
  pub was_open : r.frozen ≡ false
  pub named : t ≢ []
  pub filed : IsFiled t d
  pub fresh : any (λ e. same_handler e d) (handlers_at r t) ≡ false
  pub reads :
      (k : Text)
      → handlers_at r' k ≡ (if text_eq t k then handlers_at r k ++ d ∷ [] else handlers_at r k)

err_ok : {x : RegistryError} {r : Registry} → err x ≡ ok r → ⊥
err_ok z = cc

ok_eq : {r r' : Registry} → ◌≡◌ {A = Result RegistryError Registry} (ok r) (ok r') → r' ≡ r
ok_eq z = cc

insert-reads :
    (r : Registry) (t : Text) (d : Dynamic) (k : Text)
    → handlers_at (record r { handlers = insert t (handlers_at r t ++ d ∷ []) r.handlers }) k
      ≡ (if text_eq t k then handlers_at r k ++ d ∷ [] else handlers_at r k)
unfolding handlers_at
insert-reads r t d k =
    ap or_nothing (lookup-insert t k (handlers_at r t ++ d ∷ []) r.handlers)
    ∙ elim (Bool-cases (text_eq t k)) [
      | inl e ↦ rw e (ap (λ s. handlers_at r s ++ d ∷ []) ((text_eq_iff t k).0 e))
      | inr e ↦ rw e refl
    ]

add_handler-Adds :
    (r : Registry) (t : Text) (d : Dynamic) (r' : Registry)
    → t ≢ []
    → IsFiled t d
    → add_handler r t d ≡ ok r'
    → Adds r r' t d
unfolding add_handler
add_handler-Adds r t d r' n f e = elim (Bool-cases r.frozen) [
  | inl p ↦ absurd (err_ok (rw p at e))
  | inr p ↦ elim (Bool-cases (any (λ x. same_handler x d) (handlers_at r t))) [
    | inl q ↦ absurd (err_ok (rw (p, q) at e))
    | inr q ↦ record {
      was_open = p;
      named = n;
      filed = f;
      fresh = q;
      reads = λ k. rw (ok_eq (rw (p, q) at e)) (insert-reads r t d k);
    }
  ]
]

-- A registration is accepted only while the registry is open, for a handler that can be called,
-- whose trimmed event type is not empty and under which no same handler is registered; afterwards
-- that type has the handler behind those it had, and every other type has what it had.
pub register-Adds :
    (r : Registry) (d : Dynamic) (r' : Registry)
    → register r (some d) ≡ ok r'
    → (t : Text) × Adds r r' t d
unfolding register
register-Adds r d r' e = elim (Bool-cases (is_nil_handler (some d))) [
  | inl p ↦ absurd (err_ok (rw p at e))
  | inr p ↦ elim (Option-cases (event_type (some d))) [
    | inl q ↦ absurd (err_ok (rw (p, q) at e))
    | inr (name, q) ↦ elim (Bool-cases (text_eq (trim_space name) [])) [
      | inl s ↦ absurd (err_ok (rw (p, q, s) at e))
      | inr s ↦ (
        trim_space name,
        add_handler-Adds r (trim_space name) d r' (text_eq-false _ _ s) (p, (name, q, refl))
            (rw (p, q, s) at e),
      )
    ]
  ]
]

-- A frozen registry accepts no handler.
pub freeze-register : (r r' : Registry) (h : Handler) → register (freeze r) h ≢ ok r'
unfolding freeze
freeze-register r r' none e = unfold register in err_ok e
freeze-register r r' (some d) e =
    let (t, a) = register-Adds (freeze r) d r' e in open_frozen a.was_open
  where
    open_frozen : true ≡ false → ⊥
    open_frozen z = cc

-- What holds of every registry: each handler can be called and is filed under its trimmed event
-- type, and no type has a handler twice.
pub record IsSound (r : Registry) : Type 0 where
  pub filed : (t : Text) (d : Dynamic) → Memᴰ d (handlers_at r t) → IsFiled t d
  pub apart : (t : Text) → Apart (handlers_at r t)

Apart-snoc :
    (ds : List Dynamic) (d : Dynamic)
    → Apart ds
    → ((e : Dynamic) → Memᴰ e ds → same_handler e d ≡ false)
    → Apart (ds ++ d ∷ [])
Apart-snoc [] d a f = ((λ e m. elim m [ ]), tt)
Apart-snoc (x ∷ ds) d a f = (
  λ e m. elim (Memᴰ-append_cases ds (d ∷ []) m) [
    | inl k ↦ a.0 e k
    | inr k ↦ elim k [ Memᴰ.head p ↦ rw p (f x (Memᴰ.head refl)) | Memᴰ.tail q ↦ elim q [ ] ]
  ],
  Apart-snoc ds d a.1 (λ e m. f e (Memᴰ.tail m)),
)

-- Every accepted registration keeps each handler callable and filed under its trimmed event type,
-- and no type gets a handler twice.
pub register-IsSound :
    (r : Registry) (d : Dynamic) (r' : Registry)
    → IsSound r
    → register r (some d) ≡ ok r'
    → IsSound r'
register-IsSound r d r' v e = record { filed = filed_of; apart = apart_of }
  where
    t : Text
    t = (register-Adds r d r' e).0

    a : Adds r r' t d
    a = (register-Adds r d r' e).1

    filed_of : (k : Text) (x : Dynamic) → Memᴰ x (handlers_at r' k) → IsFiled k x
    filed_of k x m = elim (Bool-cases (text_eq t k)) [
      | inl p ↦ elim (Memᴰ-append_cases (handlers_at r k) (d ∷ []) (rw (a.reads k, p) at m)) [
        | inl old ↦ v.filed k x old
        | inr new ↦ elim new [
          | Memᴰ.head q ↦ rw q (subst (λ s. IsFiled s d) ((text_eq_iff t k).0 p) a.filed)
          | Memᴰ.tail q ↦ elim q [ ]
        ]
      ]
      | inr p ↦ v.filed k x (rw (a.reads k, p) at m)
    ]

    apart_of : (k : Text) → Apart (handlers_at r' k)
    apart_of k = elim (Bool-cases (text_eq t k)) [
      | inl p ↦
          rw (a.reads k, p)
            (Apart-snoc (handlers_at r k) d (v.apart k) (λ x m.
              any-false (λ y. same_handler y d) (handlers_at r k)
                (subst (λ s. any (λ y. same_handler y d) (handlers_at r s) ≡ false)
                  ((text_eq_iff t k).0 p) a.fresh)
                m))
      | inr p ↦ rw (a.reads k, p) (v.apart k)
    ]

-- Every handler that an event gets can be called, and its trimmed event type is the event's or "*".
pub handlers_for-IsFiled :
    (r : Registry) (t : Text) (d : Dynamic)
    → IsSound r
    → Memᴰ d (handlers_for r t)
    → IsFiled t d ⊎ IsFiled (str "*") d
unfolding handlers_for
handlers_for-IsFiled r t d v m =
    elim (Memᴰ-append_cases (handlers_at r t)
      (if text_eq t (str "*") then [] else handlers_at r (str "*")) m) [
        | inl own ↦ inl (v.filed t d own)
        | inr rest ↦ elim (Bool-cases (text_eq t (str "*"))) [
          | inl p ↦ elim (rw p at rest) [ ]
          | inr p ↦ inr (v.filed (str "*") d (rw p at rest))
        ]
      ]
