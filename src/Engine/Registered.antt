-- ===== src/Engine/Registered.antt =====
-- What the registration of modules and workers keeps, whatever the modules do.
use devengine.Common.{
  ◌≡◌, ◌≢◌, sym, Bool, true, false, ◌||◌, Option, none, some, List, [], ◌∷◌, ◌++◌, Text, text_eq,
  text_eq_iff, text_eq-false, any, keep_if, arith, if◌then◌else◌, Bool-cases, Option-cases, inl,
  inr, none-some,
}
use devengine.Engine.{
  EngineError, workers_after_start, Worker, Engine, Module, absent, module_of, Modules, end, more,
  Actions, returns, adds_worker, registers, run_starts, has, without, add_one, and_then, add_all,
  add_worker, refusal, reserve, settle, unless_refused, register_one, register, perform,
}

-- `name` is registered, and no module of that name is kept yet.
abbrev Reserved : Text → Engine → Type 0
Reserved name e = (has name e.registered ≡ true) × (has name e.modules ≡ false)

pub has-append :
    (name other : Text) (names : List Text)
    → has name (names ++ other ∷ []) ≡ (has name names || text_eq name other)
unfolding any
has-append name other [] = ground arith
has-append name other (n ∷ names) = ground (arith, has-append name other names)

pub has-without :
    (name other : Text) (names : List Text)
    → has name names ≡ true
    → text_eq other name ≡ false
    → has name (without other names) ≡ true
unfolding any without keep_if
has-without name other [] h ne = cc
has-without name other (n ∷ names) h ne = ground (
  arith,
  has-without name other names,
  text_eq_iff name n,
  text_eq_iff other n,
  text_eq_iff other name,
)

not_refused :
    (name : Text) (e : Engine)
    → refusal name e ≡ none
    → (name ≢ []) × (e.started ≡ false) × (has name e.registered ≡ false)
unfolding refusal
not_refused name e h = elim (Bool-cases (text_eq name [])) [
  | inl a ↦ absurd (none-some (sym (rw a at h)))
  | inr a ↦ elim (Bool-cases e.started) [
    | inl b ↦ absurd (none-some (sym (rw (a, b) at h)))
    | inr b ↦ elim (Bool-cases (has name e.registered)) [
      | inl c ↦ absurd (none-some (sym (rw (a, b, c) at h)))
      | inr c ↦ (text_eq-false name [] a, b, c)
    ]
  ]
]

-- A property of the engine that the single steps keep is kept by every registration. `Extra` is
-- what holds of a name that is reserved while its module registers.
module _ (P : Engine → Type 0) (Extra : Text → Engine → Type 0)
    (added : (w : Option Worker) (e : Engine) → P e → P (add_one w e).0)
    (starts : (e : Engine) → P e → P (record e { started = true }))
    (reserved : (name : Text) (e : Engine)
      → name ≢ []
      → has name e.registered ≡ false
      → P e
      → P (reserve name e))
    (extra : (actions : Actions) (name : Text) (e : Engine)
      → has name e.registered ≡ false
      → P e
      → Extra name (perform actions (reserve name e)).0)
    (settled : (name : Text) (e : Engine) (r : Engine × Option EngineError)
      → name ≢ []
      → has name e.registered ≡ false
      → P e
      → P r.0
      → Extra name r.0
      → P (settle name r).0) where
  added_all : (ws : List (Option Worker)) (e : Engine) → P e → P (add_all ws e).0
  unfolding add_all
  added_all [] e p = p
  added_all (w ∷ ws) e p = by_result (add_one w e) (added w e p) (added_all ws)
    where
      by_result :
          (r : Engine × Option EngineError)
          → P r.0
          → ((e' : Engine) → P e' → P (add_all ws e').0)
          → P (and_then r (add_all ws)).0
      by_result (e', none) q ih = ih e' q
      by_result (e', some problem) q ih = q

  added_worker : (ws : List (Option Worker)) (e : Engine) → P e → P (add_worker ws e).0
  unfolding add_worker
  added_worker ws e p = by_started e.started
    where
      by_started : (b : Bool) → P (if b then (e, some workers_after_start) else add_all ws e).0
      by_started true = p
      by_started false = added_all ws e p

  one :
      (name : Text) (e : Engine) (r : Engine × Option EngineError)
      → P e
      → ((name ≢ []) → has name e.registered ≡ false → P r.0 × Extra name r.0)
      → P (unless_refused (refusal name e) (settle name r) e).0
  unfolding unless_refused
  one name e r p h = elim (Option-cases (refusal name e)) [
    | inr (problem, q) ↦ rw q p
    | inl q ↦
        let (a, b, c) = not_refused name e q in rw q (settled name e r a c p (h a c).0 (h a c).1)
  ]

  then_rest :
      (r : Engine × Option EngineError) (rest : Engine → Engine × Option EngineError)
      → P r.0
      → ((e : Engine) → P e → P (rest e).0)
      → P (and_then r rest).0
  unfolding and_then
  then_rest (e, none) rest p h = h e p
  then_rest (e, some problem) rest p h = p

  mutual
    unfolding register_one register perform

    kept_one : (m : Module) (e : Engine) → P e → P (register_one m e).0
    kept_one absent e p = p
    kept_one (module_of name actions) e p =
        one name e (perform actions (reserve name e)) p
          (λ a c. (kept_perform actions _ (reserved name e a c p), extra actions name e c p))

    pub kept : (ms : Modules) (e : Engine) → P e → P (register ms e).0
    kept end e p = p
    kept (more m ms) e p = then_rest (register_one m e) (register ms) (kept_one m e p) (kept ms)

    pub kept_perform : (actions : Actions) (e : Engine) → P e → P (perform actions e).0
    kept_perform (returns result) e p = p
    kept_perform (adds_worker w k) e p = kept_perform (k _) _ (added_worker (w ∷ []) e p)
    kept_perform (registers ms k) e p = kept_perform (k _) _ (kept ms e p)
    kept_perform (run_starts k) e p = kept_perform k _ (starts e p)
