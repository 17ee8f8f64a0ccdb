-- ===== src/Engine/Tests.antt =====
-- Registrations of small modules, and runs of the engine.
use devengine.Common.{
  ◌≡◌, ◌≢◌, refl, true, false, none, some, List, [], ◌∷◌, Text, str, text_eq, any,
}
use devengine.Engine.{
  EngineError, application, register_module, worker_registered, Worker, Engine, Module, module_of,
  end, more, returns, adds_worker, registers, has, new_engine, add_worker, register, register_one,
}
use devengine.Engine.Names.{IsNamed, register-IsNamed, new_engine-IsNamed}
use devengine.Engine.Started.{adding, register_one-leftover}
use devengine.Engine.Run.{
  returned_nil, canceled, Event, worker_exits, run, start, on_events, is_done, RunningWorker,
  wait_for_workers, unfinished_worker_names,
}
use devengine.Engine.Supervised.{Failing, run-Failing, run_stops}
use devengine.Engine.Waited.{names_error, wait_for_workers-exact}

abbrev mailer : Worker
mailer = record { name = str "mailer"; run = 1 }

-- A module that registers itself again, and one that adds a worker.
abbrev nested : Module
nested = module_of (str "a") (
    registers (more (adding (str "a") mailer none) end)
      (λ inner. adds_worker (some mailer) (λ r. returns r)))

nested_registered : register (more nested end) new_engine ≡ (
  record {
    registered = str "a" ∷ [];
    modules = str "a" ∷ [];
    worker_names = str "mailer" ∷ [];
    workers = mailer ∷ [];
    started = false;
  },
  none,
)
unfolding register new_engine text_eq any add_worker
nested_registered = refl

register-IsNamed_example : IsNamed (register (more nested end) new_engine).0
register-IsNamed_example = register-IsNamed (more nested end) new_engine new_engine-IsNamed

abbrev unlucky : EngineError
unlucky = application (str "no database")

abbrev idle : Engine
idle = record { registered = []; modules = []; worker_names = []; workers = []; started = false }

a_named : text_eq (str "a") [] ≡ false
unfolding text_eq
a_named = refl

mailer_named : text_eq (str "mailer") [] ≡ false
unfolding text_eq
mailer_named = refl

free_in_idle : (name : Text) → has name [] ≡ false
unfolding any
free_in_idle name = refl

register_one-leftover_example :
    ((register_one (adding (str "a") mailer (some unlucky)) idle).0.workers ≡ mailer ∷ [])
    × (has (str "a") (register_one (adding (str "a") mailer (some unlucky)) idle).0.registered
        ≡ false)
    × ((register_one
          (adding (str "a") mailer none)
          (register_one (adding (str "a") mailer (some unlucky)) idle).0).1
        ≡ some (register_module (str "a") (worker_registered (str "mailer"))))
register_one-leftover_example =
    register_one-leftover (str "a") mailer unlucky none idle refl a_named (free_in_idle (str "a"))
      mailer_named (free_in_idle (str "mailer"))

abbrev exits : List Event
exits = worker_exits (str "mailer") returned_nil ∷ []

early :
    run false exits [] none none
    ≡ some (str "worker mailer: exited unexpectedly before shutdown" ∷ [])
unfolding run
early = refl

not_done : is_done (on_events [] start) ≡ false
unfolding is_done on_events
not_done = refl

run-Failing_example : (str "worker mailer: exited unexpectedly before shutdown" ∷ []) ≢ []
run-Failing_example =
    run-Failing false exits [] none none
      (str "worker mailer: exited unexpectedly before shutdown" ∷ [])
      (Failing.exited_early [] (str "mailer") [] refl not_done) early

run_stops_example : (errs : List Text) × (run true exits [] none none ≡ some errs) × (errs ≢ [])
run_stops_example =
    run_stops true exits [] none none (Failing.exited_early [] (str "mailer") [] refl not_done)

-- A worker whose error is `context.Canceled` ends without a word, and `Run` waits on.
canceled_unseen : run false (worker_exits (str "mailer") canceled ∷ []) [] none none ≡ none
unfolding run
canceled_unseen = refl

abbrev slow : List RunningWorker
slow =
    record { name = str "quick"; done_at = some 5 }
    ∷ record { name = str "slow"; done_at = none }
    ∷ record { name = str "late"; done_at = some 31 }
    ∷ []

wait_for_workers-exact_example :
    wait_for_workers (λ w. false) 30 slow ≡ names_error (unfinished_worker_names 30 slow)
wait_for_workers-exact_example = wait_for_workers-exact (λ w. false) 30 slow

slow_named : unfinished_worker_names 30 slow ≡ str "slow" ∷ str "late" ∷ []
unfolding unfinished_worker_names
slow_named = refl
