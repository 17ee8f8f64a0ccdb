-- ===== src/Engine/Names.antt =====
-- The names of modules and workers, whatever the modules do while they register.
use devengine.Common.{
  ◌≡◌, ◌≢◌, sym, ap, ◌∙◌, Bool, true, false, ◌||◌, Option, none, some, List, [], ◌∷◌, ◌++◌, Memᴰ,
  Memᴰ-append_cases, Text, text_eq, text_eq_iff, text_eq_refl, text_eq-false, any, any-intro,
  any-true, arith, Bool-cases, inl, inr, Distinct, Distinct-append, true-false,
}
use devengine.Engine.{
  EngineError, Worker, Engine, Modules, Actions, has, add_one, reserve, settle, register, perform,
  new_engine,
}
use devengine.Engine.Registered.{kept, kept_perform, has-append, has-without}

-- `name` is registered, and no module of that name is kept yet.
abbrev Reserved : Text → Engine → Type 0
Reserved name e = (has name e.registered ≡ true) × (has name e.modules ≡ false)

other_name :
    (name n : Text) (names : List Text)
    → has name names ≡ false
    → has n names ≡ true
    → text_eq name n ≡ false
other_name name n names f t = elim (Bool-cases (text_eq name n)) [
  | inl e ↦ absurd (true-false (sym t ∙ (rw ((text_eq_iff name n).0 e) at f)))
  | inr e ↦ e
]

has-cons : (n name : Text) (names : List Text) → has n names ≡ true → has n (name ∷ names) ≡ true
unfolding any
has-cons n name names h = ground arith

has-head : (name : Text) (names : List Text) → has name (name ∷ names) ≡ true
unfolding any
has-head name names = rw text_eq_refl (ground arith)

added-Reserved :
    (n : Text) (w : Option Worker) (e : Engine) → Reserved n e → Reserved n (add_one w e).0
unfolding add_one
added-Reserved n none e p = p
added-Reserved n (some w) e p = ground arith

settled-Reserved :
    (n name : Text) (e : Engine) (r : Engine × Option EngineError)
    → has name e.registered ≡ false
    → Reserved n e
    → Reserved n r.0
    → Reserved n (settle name r).0
unfolding settle
settled-Reserved n name e (e', some problem) free p q =
    (has-without n name e'.registered q.0 (other_name name n e.registered free p.0), q.1)
settled-Reserved n name e (e', none) free p q = (
  q.0,
  has-append n name e'.modules
      ∙ apart (has n e'.modules) (text_eq n name) q.1
          (flip (other_name name n e.registered free p.0)),
)
  where
    apart : (a b : Bool) → a ≡ false → b ≡ false → (a || b) ≡ false
    apart a b x y = ground arith

    flip : text_eq name n ≡ false → text_eq n name ≡ false
    flip x = ground (arith, text_eq_iff name n, text_eq_iff n name)

-- While a module registers, its name stays reserved.
perform-Reserved :
    (n : Text) (actions : Actions) (e : Engine) → Reserved n e → Reserved n (perform actions e).0
unfolding reserve
perform-Reserved n =
    kept_perform (Reserved n) (λ name e. Unit) (added-Reserved n) (λ e p. p)
      (λ name e ne free p. (has-cons n name e.registered p.0, p.1)) (λ actions name e free p. tt)
      (λ name e r ne free p q x. settled-Reserved n name e r free p q)

-- Every worker and module that is kept has a name of its own, which is taken.
pub record IsNamed (e : Engine) : Type 0 where
  pub workers_apart : Distinct (λ (w : Worker). w.name) e.workers
  pub workers_taken :
      (w : Worker) → Memᴰ w e.workers → (has w.name e.worker_names ≡ true) × (w.name ≢ [])
  pub modules_apart : Distinct (λ (n : Text). n) e.modules
  pub modules_taken : (n : Text) → Memᴰ n e.modules → (has n e.registered ≡ true) × (n ≢ [])

not_kept :
    (name : Text) (e : Engine)
    → IsNamed e
    → has name e.registered ≡ false
    → has name e.modules ≡ false
not_kept name e v free = elim (Bool-cases (has name e.modules)) [
  | inr q ↦ q
  | inl q ↦
      let (m, k, same) = any-true (text_eq name) e.modules q in
      absurd (
        true-false (
          sym (v.modules_taken m k).0
          ∙ ap (λ n. has n e.registered) (sym ((text_eq_iff name m).0 same))
          ∙ free))
]

has-of-Memᴰ : (n : Text) (names : List Text) → Memᴰ n names → has n names ≡ true
has-of-Memᴰ n names m = any-intro (text_eq n) names m (text_eq_refl n)

not_same : (a b : Text) (names : List Text) → has a names ≡ false → has b names ≡ true → a ≢ b
not_same a b names f t e = true-false (sym t ∙ (rw e at f))

settled-IsNamed :
    (name : Text) (r : Engine × Option EngineError)
    → name ≢ []
    → IsNamed r.0
    → Reserved name r.0
    → IsNamed (settle name r).0
unfolding settle
settled-IsNamed name (e, some problem) ne v x = record {
  workers_apart = v.workers_apart;
  workers_taken = v.workers_taken;
  modules_apart = v.modules_apart;
  modules_taken = λ n m. (
    has-without n name e.registered (v.modules_taken n m).0
        (other_name name n e.modules x.1 (has-of-Memᴰ n e.modules m)),
    (v.modules_taken n m).1,
  );
}
settled-IsNamed name (e, none) ne v x = record {
  workers_apart = v.workers_apart;
  workers_taken = v.workers_taken;
  modules_apart =
      Distinct-append (λ n. n) e.modules (name ∷ []) v.modules_apart ((λ y m. elim m [ ]), tt)
        (λ a b ma mb. apart a b ma mb);
  modules_taken = λ n m. elim (Memᴰ-append_cases e.modules (name ∷ []) m) [
    | inl old ↦ v.modules_taken n old
    | inr (Memᴰ.head q) ↦ rw q (x.0, ne)
    | inr (Memᴰ.tail k) ↦ elim k [ ]
  ];
}
  where
    apart : (a b : Text) → Memᴰ a e.modules → Memᴰ b (name ∷ []) → b ≢ a
    apart a b ma (Memᴰ.head q) = rw q (not_same name a e.modules x.1 (has-of-Memᴰ a e.modules ma))
    apart a b ma (Memᴰ.tail k) = elim k [ ]

add_new-IsNamed :
    (w : Worker) (e : Engine)
    → w.name ≢ []
    → has w.name e.worker_names ≡ false
    → IsNamed e
    → IsNamed (record e { worker_names = w.name ∷ e.worker_names; workers = e.workers ++ w ∷ [] })
add_new-IsNamed w e ne free v = record {
  workers_apart =
      Distinct-append (λ (x : Worker). x.name) e.workers (w ∷ []) v.workers_apart
        ((λ y m. elim m [ ]), tt) apart;
  workers_taken = λ x m. elim (Memᴰ-append_cases e.workers (w ∷ []) m) [
    | inl old ↦
        (has-cons x.name w.name e.worker_names (v.workers_taken x old).0, (v.workers_taken x old).1)
    | inr (Memᴰ.head q) ↦ rw q (has-head w.name e.worker_names, ne)
    | inr (Memᴰ.tail k) ↦ elim k [ ]
  ];
  modules_apart = v.modules_apart;
  modules_taken = v.modules_taken;
}
  where
    apart : (x y : Worker) → Memᴰ x e.workers → Memᴰ y (w ∷ []) → y.name ≢ x.name
    apart x y mx (Memᴰ.head q) =
        rw q (not_same w.name x.name e.worker_names free (v.workers_taken x mx).0)
    apart x y mx (Memᴰ.tail k) = elim k [ ]

added-IsNamed : (w : Option Worker) (e : Engine) → IsNamed e → IsNamed (add_one w e).0
unfolding add_one
added-IsNamed none e v = v
added-IsNamed (some w) e v = elim (Bool-cases (text_eq w.name [])) [
  | inl a ↦ rw a v
  | inr a ↦ elim (Bool-cases (has w.name e.worker_names)) [
    | inl b ↦ rw (a, b) v
    | inr b ↦ rw (a, b) (add_new-IsNamed w e (text_eq-false w.name [] a) b v)
  ]
]

reserved-IsNamed : (name : Text) (e : Engine) → IsNamed e → IsNamed (reserve name e)
unfolding reserve
reserved-IsNamed name e v = record {
  workers_apart = v.workers_apart;
  workers_taken = v.workers_taken;
  modules_apart = v.modules_apart;
  modules_taken =
      λ n m. (has-cons n name e.registered (v.modules_taken n m).0, (v.modules_taken n m).1);
}

-- Registrations keep the names apart, whatever the modules do meanwhile, recursive registrations,
-- errors and a start of the engine included: no two workers and no two modules that are kept have
-- the same name, no name is empty, and each is taken for later registrations.
pub register-IsNamed : (ms : Modules) (e : Engine) → IsNamed e → IsNamed (register ms e).0
unfolding reserve
register-IsNamed =
    kept IsNamed Reserved added-IsNamed
      (λ e v. record {
        workers_apart = v.workers_apart;
        workers_taken = v.workers_taken;
        modules_apart = v.modules_apart;
        modules_taken = v.modules_taken;
      })
      (λ name e ne free v. reserved-IsNamed name e v)
      (λ actions name e free v.
        perform-Reserved name actions (reserve name e)
          (has-head name e.registered, not_kept name e v free))
      (λ name e r ne free v w x. settled-IsNamed name r ne w x)

pub new_engine-IsNamed : IsNamed new_engine
unfolding new_engine
new_engine-IsNamed = record {
  workers_apart = tt;
  workers_taken = λ w m. elim m [ ];
  modules_apart = tt;
  modules_taken = λ n m. elim m [ ];
}
