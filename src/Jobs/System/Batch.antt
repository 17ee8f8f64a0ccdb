-- ===== src/Jobs/System/Batch.antt =====
-- A poll of a worker as steps of the system.
use devengine.Common.{
  ℕ, suc, ◌≡◌, refl, ap, sym, ◌∙◌, Bool, Option, some, List, [], ◌∷◌, ◌++◌, Memᴰ, Text,
  Option-cases, inl, inr, none-some, some_eq, subst,
}
use devengine.Jobs.Table.{Table, JobRow, claim}
use devengine.Jobs.Config.{WorkerConfig, batch_size, lease_duration}
use devengine.Jobs.Registry.{Registry}
use devengine.Jobs.Worker.{
  ProcessError, Status, Answer, answered, refused, lost, Turn, process, record_outcome,
  process_jobs, process_batch,
}
use devengine.Jobs.System.{System, IsFresh, drop_claim, Step, Reach}

module _ (message : ProcessError → Text) (draw : ℕ → ℕ) (c : WorkerConfig) (turns : ℕ → Turn)
    (registry : Registry) where
  abbrev outcome_of : ℕ → JobRow → Table → Option (Table × Status)
  outcome_of n j rows =
      record_outcome message draw c (turns n).now (turns n).answer j (process registry j) rows

  abbrev finished : JobRow → System → Table → System
  finished j t next = record { table = next; held = drop_claim j t.held }

  -- What happens to the table while the handler of each job runs is a history from the system at
  -- that time, and it leaves the worker the job's claim.
  abbrev pub AllMeanwhile : ℕ → List JobRow → System → Type 0
  AllMeanwhile n [] s = Unit
  AllMeanwhile n (j ∷ jobs) s =
      (t : System) × Reach message draw c s t
      × (t.table ≡ (turns n).meanwhile s.table)
      × Memᴰ j t.held
      × ((next : Table) (status : Status)
          → outcome_of n j t.table ≡ some (next, status)
          → AllMeanwhile (suc n) jobs (finished j t next))

  -- The jobs in order: for each a history, and then the one step that records what became of it and
  -- gives up its claim.
  pub data Delivered : ℕ → List JobRow → System → List Status → System → Type 0 where
    ended : {n : ℕ} {s : System} → Delivered n [] s [] s
    delivered :
        {n : ℕ} {j : JobRow} {jobs : List JobRow} {s t u : System} {next : Table} {status : Status}
        {statuses : List Status}
        → Reach message draw c s t
        → Memᴰ j t.held
        → outcome_of n j t.table ≡ some (next, status)
        → Delivered (suc n) jobs (finished j t next) statuses u
        → Delivered n (j ∷ jobs) s (status ∷ statuses) u

  process_jobs-Delivered :
      (n : ℕ) (jobs : List JobRow) (s : System) (last : Table) (statuses : List Status)
      → AllMeanwhile n jobs s
      → process_jobs message draw c turns n registry jobs s.table ≡ some (last, statuses)
      → (u : System) × Delivered n jobs s statuses u × (u.table ≡ last)
  unfolding process_jobs
  process_jobs-Delivered n [] s last statuses a p = (
    s,
    subst (λ (q : Table × List Status). Delivered n [] s q.1 s) (some_eq p) Delivered.ended,
    ap (λ (q : Table × List Status). q.0) (some_eq p),
  )
  process_jobs-Delivered n (j ∷ jobs) s last statuses (t, r, et, ht, rest) p =
      elim (Option-cases (outcome_of n j ((turns n).meanwhile s.table))) [
        | inl q ↦ absurd (none-some (rw (q, process_jobs) at p))
        | inr ((next, status), q) ↦
            let recorded : outcome_of n j t.table ≡ some (next, status) = rw et q in
            elim (Option-cases (process_jobs message draw c turns (suc n) registry jobs next)) [
              | inl z ↦ absurd (none-some (rw z at (rw (q, process_jobs) at p)))
              | inr ((end, others), z) ↦
                  let same : (end, status ∷ others) ≡ (last, statuses) =
                    some_eq (rw z at (rw (q, process_jobs) at p)) in
                  let (u, path, e) =
                    process_jobs-Delivered (suc n) jobs (finished j t next) end others
                      (rest next status recorded) z in
                  (
                    u,
                    subst (λ (x : Table × List Status). Delivered n (j ∷ jobs) s x.1 u) same
                        (Delivered.delivered r ht recorded path),
                    e ∙ ap (λ (x : Table × List Status). x.0) same,
                  )
            ]
      ]

  Reach_trans :
      {s v t : System}
      → Reach message draw c s v
      → Reach message draw c v t
      → Reach message draw c s t
  Reach_trans p Reach.here = p
  Reach_trans p (Reach.next q step) = Reach.next (Reach_trans p q) step

  -- So a poll does nothing that the steps of the system do not do.
  pub Delivered-Reach :
      {n : ℕ} {jobs : List JobRow} {s u : System} {statuses : List Status}
      → Delivered n jobs s statuses u
      → Reach message draw c s u
  Delivered-Reach Delivered.ended = Reach.here
  Delivered-Reach {n} (Delivered.delivered {j} {status} r m e path) =
      Reach_trans
        (Reach.next r
          (Step.finishes (turns n).now (turns n).answer j (process registry j) status m e refl))
        (Delivered-Reach path)

  module _ (interval : ℕ → ℕ) (now : ℕ) (prefix : Text) (busy : Text → Bool) (s : System) where
    abbrev pub leased : Table × List JobRow
    leased = claim (batch_size c) now (interval (lease_duration c)) prefix busy s.table

    -- The system once the claim has been carried out.
    abbrev pub leased_system : System
    leased_system = record { table = leased.0; held = s.held ++ leased.1 }

    -- What a poll comes to, by the end of its claim's statement.
    abbrev pub Continues : Answer → Table → List Status → Type 0
    Continues refused last statuses = (last ≡ s.table) × (statuses ≡ [])
    Continues lost last statuses =
        Step message draw c s leased_system × (last ≡ leased_system.table) × (statuses ≡ [])
    Continues answered last statuses =
        Step message draw c s leased_system
        × ((u : System) × Delivered 0 leased.1 leased_system statuses u × (u.table ≡ last))

    -- A poll is a sequence of steps of the system: one claims step, and then for each claimed job
    -- in order what happens while its handler runs, late renewals included, and one step that
    -- records what the handler returned, gives up the claim and has the status that the poll
    -- counts. A claim that was refused does nothing, and one whose answer was lost nothing more.
    -- The claim's prefix is new, and what happens while each handler runs is a history that leaves
    -- the poll that job's claim.
    pub process_batch-Continues :
        (answer : Answer) (last : Table) (statuses : List Status)
        → IsFresh prefix s
        → AllMeanwhile 0 leased.1 leased_system
        → process_batch message draw c interval now answer prefix busy turns registry s.table
          ≡ some (last, statuses)
        → Continues answer last statuses
    unfolding process_batch
    process_batch-Continues refused last statuses f a p = (
      sym (ap (λ (q : Table × List Status). q.0) (some_eq p)),
      sym (ap (λ (q : Table × List Status). q.1) (some_eq p)),
    )
    process_batch-Continues lost last statuses f a p = (
      Step.claims (batch_size c) now (interval (lease_duration c)) prefix busy f refl refl,
      sym (ap (λ (q : Table × List Status). q.0) (some_eq p)),
      sym (ap (λ (q : Table × List Status). q.1) (some_eq p)),
    )
    process_batch-Continues answered last statuses f a p =
        let step : Step message draw c s leased_system =
          Step.claims (batch_size c) now (interval (lease_duration c)) prefix busy f refl refl in
        (step, process_jobs-Delivered 0 leased.1 leased_system last statuses a p)
