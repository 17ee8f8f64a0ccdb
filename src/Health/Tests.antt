-- ===== src/Health/Tests.antt =====
-- One request, during which a check is replaced.
use devengine.Common.{
  ℕ, ◌≡◌, refl, false, none, some, List, [], ◌∷◌, text_eq, text_eq-false, str, arith, lookup,
  insert, delete, any, if◌then◌else◌,
}
use devengine.Health.{
  critical, Entry, CheckResult, Registry, Arrival, failing, add, add_with_criticality,
  record_result, handler,
}
use devengine.Health.Recorded.{replaced_not_recorded}
use devengine.Health.Readiness.{blocks, handler_unavailable}

abbrev empty : Registry
empty = record {
  checks = [];
  timeout = 2_000_000_000;
  verbose = false;
  running = [];
  last_results = [];
  next_generation = 0;
}

abbrev database : Entry
database = record { check = 1; criticality = critical; generation = 1 }

abbrev with_database : Registry
with_database = record empty { checks = (str "db", database) ∷ []; next_generation = 1 }

adds : add (str "db") (some 1) empty ≡ with_database
unfolding add text_eq insert delete
adds = refl

abbrev down : CheckResult
down = record { status = failing; message = str "10.0.0.1 refused"; criticality = str "critical" }

abbrev quiet : ℕ → Registry → Registry
quiet _ r = r

abbrev one_down : List Arrival
one_down = record { name = str "db"; entry = database; result = down } ∷ []

handler_unavailable_example :
    (handler (str "api") false quiet one_down with_database).1.code
    ≡ (if any blocks one_down then 503 else 200)
handler_unavailable_example = handler_unavailable (str "api") false quiet one_down with_database

abbrev hidden : CheckResult
hidden = record down { message = str "redacted" }

shown :
    lookup (str "db") (handler (str "api") false quiet one_down with_database).1.checks
    ≡ some hidden
unfolding handler lookup insert text_eq
shown = refl

replaced_not_recorded_example :
    lookup
      (str "db")
      (record_result
        (str "db")
        1
        down
        (add_with_criticality (str "db") (some 2) critical with_database)).last_results
    ≡ none
unfolding text_eq
replaced_not_recorded_example =
    replaced_not_recorded (str "db") database 2 critical down with_database
      (text_eq-false (str "db") [] refl) (omega arith) (omega arith)
