-- ===== src/Engine/Started.antt =====
-- What registrations do once the engine has started, and what a module that fails leaves behind.
use devengine.Common.{
  ◌≡◌, refl, ap, Bool, true, false, Option, none, some, List, [], ◌∷◌, ◌++◌, Text, text_eq, arith,
  if◌then◌else◌, Bool-cases, inl, inr, any, keep_if, text_eq_refl, true-false,
}
use devengine.Engine.{
  EngineError, workers_after_start, modules_after_start, nil_module, module_name_required,
  register_module, worker_registered, module_registered, without, Worker, Engine, Module, absent,
  module_of, Modules, more, returns, adds_worker, has, add_one, and_then, add_all, add_worker,
  refusal, reserve, settle, unless_refused, register_one, register, perform,
}

refused_late :
    (name : Text) (e : Engine)
    → e.started ≡ true
    → (problem : EngineError) × (refusal name e ≡ some problem)
unfolding refusal
refused_late name e s = elim (Bool-cases (text_eq name [])) [
  | inl a ↦ (module_name_required, rw a refl)
  | inr a ↦ (modules_after_start, rw (a, s) refl)
]

register_one-started :
    (m : Module) (e : Engine)
    → e.started ≡ true
    → (problem : EngineError) × (register_one m e ≡ (e, some problem))
unfolding register_one unless_refused
register_one-started absent e s = (nil_module, refl)
register_one-started (module_of name actions) e s =
    let (problem, q) = refused_late name e s in (problem, rw q refl)

-- Once the engine has started, nothing can be registered: a call with a module or a worker returns
-- an error and changes nothing.
pub register-started :
    (m : Module) (ms : Modules) (ws : List (Option Worker)) (e : Engine)
    → e.started ≡ true
    → ((problem : EngineError) × (register (more m ms) e ≡ (e, some problem)))
      × (add_worker ws e ≡ (e, some workers_after_start))
unfolding register add_worker and_then
register-started m ms ws e s =
    let (problem, q) = register_one-started m e s in ((problem, rw q refl), ap late s)
  where
    late : Bool → Engine × Option EngineError
    late b = if b then (e, some workers_after_start) else add_all ws e

-- A module that adds one worker, and then fails with the error if there is one.
abbrev pub adding : Text → Worker → Option EngineError → Module
adding name w problem =
    module_of name
      (adds_worker (some w) (λ r. returns (elim r [ some p ↦ some p | none ↦ problem ])))

abbrev with_worker : Worker → Engine → Engine
with_worker w e = record e { worker_names = w.name ∷ e.worker_names; workers = e.workers ++ w ∷ [] }

add_fresh :
    (w : Worker) (e : Engine)
    → e.started ≡ false
    → text_eq w.name [] ≡ false
    → has w.name e.worker_names ≡ false
    → add_worker (some w ∷ []) e ≡ (with_worker w e, none)
unfolding add_worker add_all add_one and_then
add_fresh w e s a b = ground arith

add_taken :
    (w : Worker) (e : Engine)
    → e.started ≡ false
    → text_eq w.name [] ≡ false
    → has w.name e.worker_names ≡ true
    → add_worker (some w ∷ []) e ≡ (e, some (worker_registered w.name))
unfolding add_worker add_all add_one and_then
add_taken w e s a b = ground arith

has-without_self : (name : Text) (names : List Text) → has name (without name names) ≡ false
unfolding any without keep_if
has-without_self name [] = refl
has-without_self name (n ∷ names) = ground (arith, has-without_self name names)

accepted :
    (name : Text) (e : Engine)
    → e.started ≡ false
    → text_eq name [] ≡ false
    → has name e.registered ≡ false
    → refusal name e ≡ none
unfolding refusal
accepted name e s a b = rw a (by_started e.started s)
  where
    by_started :
        (x : Bool)
        → x ≡ false
        → (if x
            then some modules_after_start
            else if has name e.registered
            then some (module_registered name)
            else none)
          ≡ none
    by_started true q = absurd (true-false q)
    by_started false q = rw b refl

first_attempt :
    (name : Text) (w : Worker) (problem : EngineError) (e : Engine)
    → e.started ≡ false
    → text_eq name [] ≡ false
    → has name e.registered ≡ false
    → text_eq w.name [] ≡ false
    → has w.name e.worker_names ≡ false
    → register_one (adding name w (some problem)) e ≡ (
      record (with_worker w e) { registered = without name (name ∷ e.registered) },
      some (register_module name problem),
    )
unfolding register_one unless_refused perform reserve settle
first_attempt name w problem e s a b c d =
    rw (accepted name e s a b, add_fresh w (reserve name e) s c d) refl

head_taken : (name : Text) (names : List Text) → has name (name ∷ names) ≡ true
unfolding any
head_taken name names = rw text_eq_refl (ground arith)

second_attempt :
    (name : Text) (w : Worker) (result : Option EngineError) (e : Engine)
    → e.started ≡ false
    → text_eq name [] ≡ false
    → has name e.registered ≡ false
    → text_eq w.name [] ≡ false
    → has w.name e.worker_names ≡ true
    → (register_one (adding name w result) e).1
      ≡ some (register_module name (worker_registered w.name))
unfolding register_one unless_refused perform reserve settle
second_attempt name w result e s a b c d =
    rw (accepted name e s a b, add_taken w (reserve name e) s c d) refl

-- A module that adds a worker and then fails leaves the worker behind: its name is free again, but
-- a second registration of the module fails, whatever its own result would be, because the worker
-- is already there. The engine has not started, and both names are new and not empty.
pub register_one-leftover :
    (name : Text) (w : Worker) (problem : EngineError) (result : Option EngineError) (e : Engine)
    → e.started ≡ false
    → text_eq name [] ≡ false
    → has name e.registered ≡ false
    → text_eq w.name [] ≡ false
    → has w.name e.worker_names ≡ false
    → ((register_one (adding name w (some problem)) e).0.workers ≡ e.workers ++ w ∷ [])
      × (has name (register_one (adding name w (some problem)) e).0.registered ≡ false)
      × ((register_one (adding name w result) (register_one (adding name w (some problem)) e).0).1
          ≡ some (register_module name (worker_registered w.name)))
register_one-leftover name w problem result e s a b c d =
    rw (first_attempt name w problem e s a b c d)
      (refl, free, second_attempt name w result _ s a free c taken)
  where
    free : has name (without name (name ∷ e.registered)) ≡ false
    free = has-without_self name (name ∷ e.registered)

    taken : has w.name (w.name ∷ e.worker_names) ≡ true
    taken = head_taken w.name e.worker_names
