-- ===== src/Engine/Supervised.antt =====
-- What `Run` returns of the failures of its workers and its server.
use devengine.Common.{
  ◌≡◌, ◌≢◌, refl, sym, ap, subst, Bool, true, false, ◌⊎◌, Option, none, some, List, [], ◌∷◌, ◌++◌,
  Memᴰ, Memᴰ-append_cases, Memᴰ-append_left, Text, Option-cases, inl, inr, none-some, some_eq,
}
use mathlib.Core.List.{append-nil}
use devengine.Engine.Run.{
  returned_nil, canceled, failed_with, worker_report, Event, worker_exits, server_fails, stopped,
  Supervision, is_done, cancel, report, on_event, on_events, start, select_first, join_errors,
  or_later, final_errors, run,
}

abbrev NonEmpty : List Text → Type 0
NonEmpty [] = ⊥
NonEmpty (t ∷ ts) = Unit

NonEmpty-append : (ts : List Text) (t : Text) → NonEmpty (ts ++ t ∷ [])
NonEmpty-append [] t = tt
NonEmpty-append (u ∷ ts) t = tt

NonEmpty-append_left : (ts us : List Text) → NonEmpty ts → NonEmpty (ts ++ us)
NonEmpty-append_left [] us h = absurd h
NonEmpty-append_left (t ∷ ts) us h = tt

cancel-reports : (cause : Option Text) (s : Supervision) → (cancel cause s).reports ≡ s.reports
unfolding cancel
cancel-reports cause s = elim (Option-cases s.done) [ inl e ↦ rw e refl | inr (c, e) ↦ rw e refl ]

report-some : (t : Text) (s : Supervision) → NonEmpty (report (some t) s).reports
unfolding report
report-some t s = rw cancel-reports (NonEmpty-append s.reports t)

report-keeps :
    (o : Option Text) (s : Supervision) → NonEmpty s.reports → NonEmpty (report o s).reports
unfolding report
report-keeps none s h = h
report-keeps (some t) s h = report-some t s

on_event-keeps :
    (ev : Event) (s : Supervision) → NonEmpty s.reports → NonEmpty (on_event ev s).reports
unfolding on_event
on_event-keeps (worker_exits name exit) s h = report-keeps _ s h
on_event-keeps (server_fails t) s h = report-some _ s
on_event-keeps (stopped cause) s h = rw cancel-reports h

on_events-keeps :
    (evs : List Event) (s : Supervision) → NonEmpty s.reports → NonEmpty (on_events evs s).reports
unfolding on_events
on_events-keeps [] s h = h
on_events-keeps (ev ∷ evs) s h = on_events-keeps evs _ (on_event-keeps ev s h)

-- A worker that returns an error of its own, and a server that stops with one.
abbrev pub IsFailure : Event → Type 0
IsFailure (worker_exits name (failed_with t)) = Unit
IsFailure (worker_exits name returned_nil) = ⊥
IsFailure (worker_exits name canceled) = ⊥
IsFailure (server_fails t) = Unit
IsFailure (stopped cause) = ⊥

failure-reported : (ev : Event) (s : Supervision) → IsFailure ev → NonEmpty (on_event ev s).reports
unfolding on_event worker_report
failure-reported (worker_exits name (failed_with t)) s f = report-some _ s
failure-reported (worker_exits name returned_nil) s f = absurd f
failure-reported (worker_exits name canceled) s f = absurd f
failure-reported (server_fails t) s f = report-some _ s
failure-reported (stopped cause) s f = absurd f

failures-reported :
    (ev : Event) (evs : List Event) (s : Supervision)
    → Memᴰ ev evs
    → IsFailure ev
    → NonEmpty (on_events evs s).reports
unfolding on_events
failures-reported ev [] s m f = elim m [ ]
failures-reported ev (x ∷ evs) s (Memᴰ.head e) f =
    on_events-keeps evs _ (failure-reported x s (subst IsFailure e f))
failures-reported ev (x ∷ evs) s (Memᴰ.tail m) f = failures-reported ev evs _ m f

-- A failure, or a worker that ends without an error before anything has stopped the engine.
pub data Failing (before after : List Event) : Type 0 where
  failed : (ev : Event) → Memᴰ ev (before ++ after) → IsFailure ev → Failing before after
  exited_early :
      (evs : List Event) (name : Text) (rest : List Event)
      → before ≡ evs ++ worker_exits name returned_nil ∷ rest
      → is_done (on_events evs start) ≡ false
      → Failing before after

on_events-append :
    (evs more : List Event) (s : Supervision)
    → on_events (evs ++ more) s ≡ on_events more (on_events evs s)
unfolding on_events
on_events-append [] more s = refl
on_events-append (ev ∷ evs) more s = on_events-append evs more _

early-reported :
    (evs : List Event) (name : Text) (rest : List Event)
    → is_done (on_events evs start) ≡ false
    → NonEmpty (on_events (evs ++ worker_exits name returned_nil ∷ rest) start).reports
unfolding on_events on_event worker_report
early-reported evs name rest e =
    rw on_events-append (on_events-keeps rest _ (rw e (report-some _ (on_events evs start))))

final_errors-first :
    (t : Text) (shutdown wait : Option Text) (reports : List Text)
    → final_errors (some t) shutdown wait reports ≢ []
unfolding final_errors join_errors
final_errors-first t shutdown none reports z = cc
final_errors-first t shutdown (some u) reports z = cc

final_errors-reports :
    (first shutdown wait : Option Text) (reports : List Text)
    → NonEmpty reports
    → final_errors first shutdown wait reports ≢ []
unfolding final_errors
final_errors-reports first shutdown wait [] h z = absurd h
final_errors-reports first shutdown wait (t ∷ ts) h z =
    by_first (join_errors (or_later first shutdown) wait) z
  where
    by_first : (l : List Text) → elim l [ u ∷ us ↦ u ∷ us | [] ↦ t ∷ [] ] ≡ [] → ⊥
    by_first [] e = cc
    by_first (u ∷ us) e = cc

select_first-reported :
    (takes_report : Bool) (cause : Option (Option Text)) (reports : List Text) (first : Option Text)
    (left : List Text)
    → NonEmpty reports
    → select_first takes_report (record { done = cause; reports = reports }) ≡ some (first, left)
    → ((t : Text) × (first ≡ some t)) ⊎ NonEmpty left
unfolding select_first
select_first-reported takes_report c [] first left h e = absurd h
select_first-reported takes_report none (t ∷ ts) first left h e =
    inl (t, sym (ap (λ (p : Option Text × List Text). p.0) (some_eq e)))
select_first-reported true (some c) (t ∷ ts) first left h e =
    inl (t, sym (ap (λ (p : Option Text × List Text). p.0) (some_eq e)))
select_first-reported false (some c) (t ∷ ts) first left h e =
    inr (subst NonEmpty (ap (λ (p : Option Text × List Text). p.1) (some_eq e)) tt)

-- Somewhere in the run the channel gets an error.
abbrev Reporting : List Event → List Event → Type 0
Reporting before after =
    NonEmpty (on_events before start).reports
    ⊎ ((s : Supervision) → NonEmpty (on_events after s).reports)

Failing-Reporting : (before after : List Event) → Failing before after → Reporting before after
Failing-Reporting before after (failed ev m f) = elim (Memᴰ-append_cases before after m) [
  | inl l ↦ inl (failures-reported ev before start l f)
  | inr r ↦ inr (λ s. failures-reported ev after s r f)
]
Failing-Reporting before after (exited_early evs name rest p e) =
    inl (rw p (early-reported evs name rest e))

-- No failure of a worker or of the server is lost, whichever case of the first select Go takes, and
-- also when it comes during the shutdown: when a worker returns an error of its own, or returns
-- without one before anything has stopped the engine, or the server fails, what Run returns is not
-- nil.
pub run-Failing :
    (takes_report : Bool) (before after : List Event) (shutdown wait : Option Text)
    (errs : List Text)
    → Failing before after
    → run takes_report before after shutdown wait ≡ some errs
    → errs ≢ []
unfolding run
run-Failing takes_report before after shutdown wait errs f h =
    elim (Option-cases (select_first takes_report (on_events before start))) [
      | inl e ↦ absurd (none-some (rw (e, run) at h))
      | inr ((first, left), e) ↦
          subst (λ l. l ≢ []) (some_eq (rw (e, run) at h))
            (returned first left (Failing-Reporting before after f) e)
    ]
  where
    returned :
        (first : Option Text) (left : List Text)
        → Reporting before after
        → select_first takes_report (on_events before start) ≡ some (first, left)
        → final_errors first shutdown wait
            (on_events after
              (cancel none (record (on_events before start) { reports = left }))).reports
          ≢ []
    returned first left (inr late) e = final_errors-reports first shutdown wait _ (late _)
    returned first left (inl early) e =
        elim (select_first-reported takes_report _ _ first left early e) [
          | inl (t, q) ↦ rw q (final_errors-first t shutdown wait _)
          | inr n ↦
              final_errors-reports first shutdown wait _
                (on_events-keeps after _ (rw cancel-reports n))
        ]

select_first-ready :
    (takes_report : Bool) (cause : Option (Option Text)) (reports : List Text)
    → NonEmpty reports
    → (p : Option Text × List Text) × (select_first takes_report
          (record { done = cause; reports = reports })
        ≡ some p)
unfolding select_first
select_first-ready takes_report cause [] h = absurd h
select_first-ready takes_report none (t ∷ ts) h = ((some t, ts), refl)
select_first-ready true (some c) (t ∷ ts) h = ((some t, ts), refl)
select_first-ready false (some c) (t ∷ ts) h = ((c, t ∷ ts), refl)

Failing-more : (before after : List Event) → Failing before [] → Failing before after
Failing-more before after (failed ev m f) =
    failed ev (Memᴰ-append_left before after (subst (Memᴰ ev) (append-nil before) m)) f
Failing-more before after (exited_early evs name rest p e) = exited_early evs name rest p e

reported_before :
    (before : List Event) → Reporting before [] → NonEmpty (on_events before start).reports
unfolding on_events
reported_before before (inl h) = h
reported_before before (inr late) = absurd (late start)

-- A failure stops the engine: when a worker returns an error of its own, or returns without one
-- before anything has stopped the engine, or the server fails, Run does not wait on but returns
-- errors, whatever comes until the shutdown is over.
pub run_stops :
    (takes_report : Bool) (before after : List Event) (shutdown wait : Option Text)
    → Failing before []
    → (errs : List Text) × (run takes_report before after shutdown wait ≡ some errs) × (errs ≢ [])
unfolding run
run_stops takes_report before after shutdown wait f =
    let ((first, left), e) =
      select_first-ready takes_report (on_events before start).done (on_events before start).reports
        (reported_before before (Failing-Reporting before [] f)) in
    let errs =
      final_errors first shutdown wait
        (on_events after
          (cancel none (record (on_events before start) { reports = left }))).reports in
    let returns : run takes_report before after shutdown wait ≡ some errs = rw (e, run) refl in
    (
      errs,
      returns,
      run-Failing takes_report before after shutdown wait errs (Failing-more before after f)
          returns,
    )
