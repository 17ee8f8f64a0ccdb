-- ===== src/Engine.antt =====
-- engine/engine.go: the registration of modules and workers.
pub mod Run
pub mod Supervised
pub mod Waited
pub mod Registered
pub mod Names
pub mod Started
pub mod Options
mod Tests
use devengine.Common.{
  ℕ, Bool, true, false, Option, none, some, List, [], ◌∷◌, ◌++◌, Text, text_eq, any, keep_if, not,
  if◌then◌else◌,
}

pub data EngineError : Type 0 where
  nil_module module_name_required modules_after_start : EngineError
  module_registered : Text → EngineError
  nil_worker worker_name_required workers_after_start : EngineError
  worker_registered : Text → EngineError
  register_module : Text → EngineError → EngineError
  -- an error of the application
  application : Text → EngineError

-- A worker is known by its name and the number of its `Run`.
pub record Worker : Type 0 where
  pub name : Text
  pub run : ℕ

-- The maps of names hold each name once; the modules are kept by name.
pub record Engine : Type 0 where
  pub registered : List Text
  pub modules : List Text
  pub worker_names : List Text
  pub workers : List Worker
  pub started : Bool

-- What a module's `Register` does with the engine, call by call: it may go by the error of a call,
-- register modules itself, and `Run` may start meanwhile.
mutual
  pub data Module : Type 0 where
    absent : Module
    module_of : Text → Actions → Module

  pub data Modules : Type 0 where
    end : Modules
    more : Module → Modules → Modules

  pub data Actions : Type 0 where
    returns : Option EngineError → Actions
    adds_worker : Option Worker → (Option EngineError → Actions) → Actions
    registers : Modules → (Option EngineError → Actions) → Actions
    run_starts : Actions → Actions

-- `New` without its options
unfoldable pub new_engine : Engine
new_engine = record {
  registered = [];
  modules = [];
  worker_names = [];
  workers = [];
  started = false;
}

abbrev pub has : Text → List Text → Bool
has name names = any (text_eq name) names

unfoldable pub without : Text → List Text → List Text
without name names = keep_if (λ n. not (text_eq name n)) names

-- One worker of `AddWorker`; `none` is a nil worker.
unfoldable pub add_one : Option Worker → Engine → Engine × Option EngineError
add_one none e = (e, some nil_worker)
add_one (some w) e =
    if text_eq w.name []
    then (e, some worker_name_required)
    else if has w.name e.worker_names
    then (e, some (worker_registered w.name))
    else (record e { worker_names = w.name ∷ e.worker_names; workers = e.workers ++ w ∷ [] }, none)

-- `if err != nil { return err }`
unfoldable pub and_then :
    Engine × Option EngineError
    → (Engine → Engine × Option EngineError)
    → Engine × Option EngineError
and_then (e, some problem) rest = (e, some problem)
and_then (e, none) rest = rest e

unfoldable pub add_all : List (Option Worker) → Engine → Engine × Option EngineError
unfolding add_one and_then
add_all [] e = (e, none)
add_all (w ∷ ws) e = and_then (add_one w e) (add_all ws)

unfoldable pub add_worker : List (Option Worker) → Engine → Engine × Option EngineError
unfolding add_all
add_worker ws e = if e.started then (e, some workers_after_start) else add_all ws e

-- The guards of `Register` for a module of that name, in the code's order.
unfoldable pub refusal : Text → Engine → Option EngineError
refusal name e =
    if text_eq name []
    then some module_name_required
    else if e.started
    then some modules_after_start
    else if has name e.registered
    then some (module_registered name)
    else none

unfoldable pub reserve : Text → Engine → Engine
reserve name e = record e { registered = name ∷ e.registered }

-- What follows `module.Register(e)`: the reservation is undone, or the module is kept.
unfoldable pub settle : Text → Engine × Option EngineError → Engine × Option EngineError
unfolding without
settle name (e, some problem) =
    (record e { registered = without name e.registered }, some (register_module name problem))
settle name (e, none) = (record e { modules = e.modules ++ name ∷ [] }, none)

unfoldable pub unless_refused :
    Option EngineError → Engine × Option EngineError → Engine → Engine × Option EngineError
unless_refused (some problem) done e = (e, some problem)
unless_refused none done e = done

unfoldable mutual
  unfolding reserve settle refusal unless_refused and_then

  pub register_one : Module → Engine → Engine × Option EngineError
  register_one absent e = (e, some nil_module)
  register_one (module_of name actions) e =
      unless_refused (refusal name e) (settle name (perform actions (reserve name e))) e

  pub register : Modules → Engine → Engine × Option EngineError
  register end e = (e, none)
  register (more m ms) e = and_then (register_one m e) (register ms)

  pub perform : Actions → Engine → Engine × Option EngineError
  perform (returns result) e = (e, result)
  perform (adds_worker w k) e = let done = add_worker (w ∷ []) e in perform (k done.1) done.0
  perform (registers ms k) e = let done = register ms e in perform (k done.1) done.0
  perform (run_starts k) e = perform k (record e { started = true })
