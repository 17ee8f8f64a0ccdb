-- ===== src/Engine/Run.antt =====
-- engine/engine.go: `Run` with its supervision of the workers, and `waitForWorkers`.
use devengine.Common.{
  ℕ, Bool, true, false, ◌&&◌, ◌||◌, Option, none, some, List, [], ◌∷◌, ◌++◌, Text, str, leb, ltb,
  if◌then◌else◌,
}

pub data Profile : Type 0 where
  http_and_worker http_only worker_only : Profile

unfoldable pub profile_text : Profile → Text
profile_text http_only = str "http-only"
profile_text worker_only = str "worker-only"
profile_text http_and_worker = str "http+worker"

unfoldable pub starts_workers : Profile → Bool
starts_workers http_only = false
starts_workers _ = true

unfoldable pub starts_server : Profile → Bool
starts_server worker_only = false
starts_server _ = true

-- How a worker's `Run` ends: without an error, with one that is `context.Canceled`, or another.
pub data Exit : Type 0 where
  returned_nil canceled : Exit
  failed_with : Text → Exit

-- What the worker's goroutine reports, given whether the context was done when it returned.
unfoldable pub worker_report : Text → Exit → Bool → Option Text
worker_report name returned_nil true = none
worker_report name returned_nil false =
    some (str "worker " ++ (name ++ str ": exited unexpectedly before shutdown"))
worker_report name canceled done = none
worker_report name (failed_with t) done = some (str "worker " ++ (name ++ (str ": " ++ t)))

-- What happens while `Run` runs: a worker ends, the server fails (with another error than
-- ErrServerClosed), or the parent's context or a signal stops it, with the cause unless that is
-- `context.Canceled`.
pub data Event : Type 0 where
  worker_exits : Text → Exit → Event
  server_fails : Text → Event
  stopped : Option Text → Event

-- The cause once the context is done, and the errors in the channel, which has room for all.
pub record Supervision : Type 0 where
  pub done : Option (Option Text)
  pub reports : List Text

unfoldable pub is_done : Supervision → Bool
is_done s = elim s.done [ none ↦ false | some _ ↦ true ]

-- The first cause of a context stays.
unfoldable pub cancel : Option Text → Supervision → Supervision
cancel cause s = elim s.done [ none ↦ record s { done = some cause } | some _ ↦ s ]

unfoldable pub report : Option Text → Supervision → Supervision
unfolding cancel
report none s = s
report (some t) s = cancel none (record s { reports = s.reports ++ t ∷ [] })

unfoldable pub on_event : Event → Supervision → Supervision
unfolding report worker_report is_done cancel
on_event (worker_exits name exit) s = report (worker_report name exit (is_done s)) s
on_event (server_fails t) s = report (some (str "http server: " ++ t)) s
on_event (stopped cause) s = cancel cause s

unfoldable pub on_events : List Event → Supervision → Supervision
unfolding on_event
on_events [] s = s
on_events (ev ∷ evs) s = on_events evs (on_event ev s)

abbrev pub start : Supervision
start = record { done = none; reports = [] }

-- The `select` of `Run`: the first error and the errors that are left in the channel. Of two
-- cases that are ready Go takes either. `none`: neither is, and `Run` waits on.
unfoldable pub select_first : Bool → Supervision → Option (Option Text × List Text)
select_first takes_report s = elim s.done [
  | none ↦ elim s.reports [ [] ↦ none | t ∷ ts ↦ some (some t, ts) ]
  | some cause ↦ elim s.reports [
    | [] ↦ some (cause, [])
    | t ∷ ts ↦ if takes_report then some (some t, ts) else some (cause, t ∷ ts)
  ]
]

abbrev pub or_later : Option Text → Option Text → Option Text
or_later (some t) later = some t
or_later none later = later

-- `errors.Join`
unfoldable pub join_errors : Option Text → Option Text → List Text
join_errors none none = []
join_errors (some t) none = t ∷ []
join_errors none (some u) = u ∷ []
join_errors (some t) (some u) = t ∷ u ∷ []

-- The errors that `Run` returns: the first, or that of the server's shutdown, joined with that of
-- the workers' shutdown; and when there is none, what the channel got meanwhile. [] is nil.
unfoldable pub final_errors : Option Text → Option Text → Option Text → List Text → List Text
unfolding join_errors
final_errors first shutdown wait reports = elim (join_errors (or_later first shutdown) wait) [
  | t ∷ ts ↦ t ∷ ts
  | [] ↦ elim reports [ [] ↦ [] | t ∷ ts ↦ t ∷ [] ]
]

-- `Run` from the start of the goroutines on: `before` makes the first `select` ready, `after` comes
-- until the last one.
unfoldable pub run : Bool → List Event → List Event → Option Text → Option Text → Option (List Text)
unfolding on_events select_first final_errors cancel
run takes_report before after shutdown wait =
    let s = on_events before start in
    elim (select_first takes_report s) [
      | none ↦ none
      | some (first, left) ↦ some (
          final_errors first shutdown wait
            (on_events after (cancel none (record s { reports = left }))).reports)
    ]

-- A worker that runs, and when its goroutine ends, if ever.
pub record RunningWorker : Type 0 where
  pub name : Text
  pub done_at : Option ℕ

unfoldable pub done_by : ℕ → RunningWorker → Bool
done_by t w = elim w.done_at [ none ↦ false | some d ↦ leb d t ]

unfoldable pub unfinished_worker_names : ℕ → List RunningWorker → List Text
unfolding done_by
unfinished_worker_names t [] = []
unfinished_worker_names t (w ∷ ws) =
    if done_by t w then unfinished_worker_names t ws else w.name ∷ unfinished_worker_names t ws

-- The loop of `waitForWorkers` over the workers behind; when a worker ends as the timer fires, Go
-- takes either case. `none` is nil, and the error names the workers.
unfoldable pub wait_behind :
    (RunningWorker → Bool) → ℕ → List RunningWorker → List RunningWorker → Option (List Text)
unfolding done_by unfinished_worker_names
wait_behind takes_done timeout all [] = none
wait_behind takes_done timeout all (w ∷ ws) =
    let rest = wait_behind takes_done timeout all ws in
    if done_by timeout w
      && (takes_done w || elim w.done_at [ none ↦ false | some d ↦ ltb d timeout ])
    then rest
    else elim (unfinished_worker_names timeout all) [ [] ↦ none | n ∷ ns ↦ some (n ∷ ns) ]

unfoldable pub wait_for_workers :
    (RunningWorker → Bool) → ℕ → List RunningWorker → Option (List Text)
unfolding wait_behind
wait_for_workers takes_done timeout ws = wait_behind takes_done timeout ws ws
