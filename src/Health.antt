-- ===== src/Health.antt =====
-- The readiness registry of health/registry.go. A uint64 is taken modulo 2 ^ 64.
pub mod Recorded
pub mod Readiness
mod Tests
use devengine.Common.{
  ℕ, suc, ◌%◌, ◌^◌, ℤ, positive_or, Bool, true, false, ◌&&◌, ◌||◌, not, Option, none, some, List,
  [], ◌∷◌, Text, text_eq, str, if◌then◌else◌, ◌==◌, Map, lookup, insert, delete,
}

pub data Criticality : Type 0 where
  critical informational : Criticality

-- What a run of a check comes to: it returns, panics, or its context ends first (with that error).
pub data Run : Type 0 where
  returned : Option Text → Run
  panicked : Run
  timed_out : Text → Run

-- A check is known by a number.
pub record Entry : Type 0 where
  pub check : ℕ
  pub criticality : Criticality
  pub generation : ℕ

pub data CheckStatus : Type 0 where
  healthy failing : CheckStatus

-- `message` is the field Error.
pub record CheckResult : Type 0 where
  pub status : CheckStatus
  pub message : Text
  pub criticality : Text

-- `running` has the checks that have started and not ended.
pub record Registry : Type 0 where
  pub checks : Map Entry
  pub timeout : ℕ
  pub verbose : Bool
  pub running : Map Bool
  pub last_results : Map CheckResult
  pub next_generation : ℕ

unfoldable pub new_registry : Registry
new_registry = record {
  checks = [];
  timeout = 2_000_000_000;
  verbose = false;
  running = [];
  last_results = [];
  next_generation = 0;
}

abbrev pub next_of : ℕ → ℕ
next_of g = suc g % 2 ^ 64

-- `none` is a nil check.
unfoldable pub add_with_criticality : Text → Option ℕ → Criticality → Registry → Registry
add_with_criticality name none c r = r
add_with_criticality name (some check) c r = if text_eq name [] then r else record r {
  next_generation = next_of r.next_generation;
  checks =
      insert name
        (record { check = check; criticality = c; generation = next_of r.next_generation })
        r.checks;
  last_results = delete name r.last_results;
}

unfoldable pub add : Text → Option ℕ → Registry → Registry
unfolding add_with_criticality
add name check r = add_with_criticality name check critical r

unfoldable pub add_informational : Text → Option ℕ → Registry → Registry
unfolding add_with_criticality
add_informational name check r = add_with_criticality name check informational r

unfoldable pub remove : Text → Registry → Registry
remove name r = record r {
  checks = delete name r.checks;
  last_results = delete name r.last_results;
}

unfoldable pub set_timeout : ℤ → Registry → Registry
set_timeout d r = record r { timeout = positive_or d 2_000_000_000 }

unfoldable pub set_verbose : Bool → Registry → Registry
set_verbose v r = record r { verbose = v }

unfoldable pub criticality_string : Criticality → Text
criticality_string informational = str "informational"
criticality_string critical = str "critical"

-- The start of a check's goroutine: whether the check may run.
unfoldable pub start_check : Text → Registry → Registry × Bool
start_check name r = elim (lookup name r.running) [
  | some _ ↦ (r, false)
  | none ↦ (record r { running = insert name true r.running }, true)
]

-- The end of the goroutine that runs the check, which may come long after its result.
unfoldable pub finish_check : Text → Registry → Registry
finish_check name r = record r { running = delete name r.running }

abbrev pub failing_with : Entry → Text → CheckResult
unfolding criticality_string
failing_with e t = record {
  status = failing;
  message = t;
  criticality = criticality_string e.criticality;
}

-- The result of a check that has run, `some`, or that was already running, `none`.
unfoldable pub check_result : Entry → Option Run → CheckResult
check_result e none = failing_with e (str "check already running")
check_result e (some (returned none)) = record {
  status = healthy;
  message = [];
  criticality = criticality_string e.criticality;
}
check_result e (some (returned (some t))) = failing_with e t
check_result e (some panicked) = failing_with e (str "internal check panic")
check_result e (some (timed_out t)) = failing_with e t

-- `recordResult`: the result of an entry that was replaced or removed is dropped.
unfoldable pub record_result : Text → ℕ → CheckResult → Registry → Registry
record_result name generation result r = elim (lookup name r.checks) [
  | none ↦ r
  | some e ↦
      if e.generation == generation
      then record r { last_results = insert name result r.last_results }
      else r
]

-- One result as it arrives: the check's name and its entry in the handler's snapshot.
pub record Arrival : Type 0 where
  pub name : Text
  pub entry : Entry
  pub result : CheckResult

unfoldable pub redact : Bool → CheckResult → CheckResult
redact verbose c =
    if not verbose && not (text_eq c.message []) then record c { message = str "redacted" } else c

abbrev pub is_failing : CheckStatus → Bool
is_failing healthy = false
is_failing failing = true

abbrev pub is_critical : Criticality → Bool
is_critical critical = true
is_critical informational = false

-- The loop over the results, in the order in which they arrive: the registry, the checks of the
-- response, and whether it is ready. `meanwhile` is what other calls do to the registry before each.
unfoldable pub collect :
    (ℕ → Registry → Registry)
    → Bool
    → ℕ
    → List Arrival
    → Map CheckResult
    → Bool
    → Registry
    → Registry × (Map CheckResult × Bool)
unfolding record_result redact
collect meanwhile verbose i [] checks ready r = (r, (checks, ready))
collect meanwhile verbose i (a ∷ arrivals) checks ready r =
    collect meanwhile verbose (suc i) arrivals (insert a.name (redact verbose a.result) checks)
      (ready && not (is_failing a.result.status && is_critical a.entry.criticality))
      (record_result a.name a.entry.generation a.result (meanwhile i r))

pub record Response : Type 0 where
  pub code : ℕ
  pub state : Text
  pub service : Text
  pub checks : Map CheckResult

unfoldable pub respond : Text → Map CheckResult → Bool → Response
respond service checks ready = record {
  code = if ready then 200 else 503;
  state = if ready then str "ok" else str "not_ready";
  service = service;
  checks = checks;
}

-- The handler behind its snapshot: `arrivals` has one result for each check of the snapshot.
unfoldable pub handler :
    Text → Bool → (ℕ → Registry → Registry) → List Arrival → Registry → Registry × Response
unfolding collect respond
handler service verbose meanwhile arrivals r =
    let (last, (checks, ready)) = collect meanwhile verbose 0 arrivals [] true r in
    (last, respond service checks ready)
