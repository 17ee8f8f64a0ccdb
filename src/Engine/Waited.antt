-- ===== src/Engine/Waited.antt =====
-- What `waitForWorkers` returns.
use devengine.Common.{
  ℕ, ◌≡◌, refl, ◌∙◌, Bool, true, false, ◌||◌, Option, none, some, List, [], ◌∷◌, Text, ltb,
  Bool-cases, inl, inr,
}
use devengine.Engine.Run.{
  RunningWorker, done_by, unfinished_worker_names, wait_behind, wait_for_workers,
}

-- The names of the workers that have not ended, if there are any.
abbrev pub names_error : List Text → Option (List Text)
names_error [] = none
names_error (n ∷ ns) = some (n ∷ ns)

unfinished-done :
    (timeout : ℕ) (w : RunningWorker) (ws : List RunningWorker)
    → done_by timeout w ≡ true
    → unfinished_worker_names timeout (w ∷ ws) ≡ unfinished_worker_names timeout ws
unfolding unfinished_worker_names
unfinished-done timeout w ws e = rw e refl

named : (l m : List Text) → l ≡ m → elim l [ [] ↦ none | n ∷ ns ↦ some (n ∷ ns) ] ≡ names_error m
named l [] e = rw e refl
named l (n ∷ ns) e = rw e refl

wait_behind-exact :
    (takes_done : RunningWorker → Bool) (timeout : ℕ) (all ws : List RunningWorker)
    → unfinished_worker_names timeout all ≡ unfinished_worker_names timeout ws
    → wait_behind takes_done timeout all ws ≡ names_error (unfinished_worker_names timeout ws)
unfolding wait_behind unfinished_worker_names
wait_behind-exact takes_done timeout all [] e = refl
wait_behind-exact takes_done timeout all (w ∷ ws) e = elim (Bool-cases (done_by timeout w)) [
  | inr late ↦ rw late (named _ (w.name ∷ unfinished_worker_names timeout ws) (e ∙ rw late refl))
  | inl d ↦
      let e' = e ∙ unfinished-done timeout w ws d in
      let ih = wait_behind-exact takes_done timeout all ws e' in
      elim (Bool-cases (takes_done w || elim w.done_at [ none ↦ false | some x ↦ ltb x timeout ])) [
        | inl b ↦ rw (d, b) ih
        | inr b ↦ rw (d, b) (named _ _ e')
      ]
]

-- The wait for the workers fails exactly when some worker has not ended when the time is over, and
-- its error names these workers and no others, in whatever order the workers ended and whichever
-- case Go takes when one ends as the timer fires.
pub wait_for_workers-exact :
    (takes_done : RunningWorker → Bool) (timeout : ℕ) (ws : List RunningWorker)
    → wait_for_workers takes_done timeout ws ≡ names_error (unfinished_worker_names timeout ws)
unfolding wait_for_workers
wait_for_workers-exact takes_done timeout ws = wait_behind-exact takes_done timeout ws ws refl
