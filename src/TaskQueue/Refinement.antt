-- ===== src/TaskQueue/Refinement.antt =====
-- The worker refines `story`: what a task that is retried until no timer is left adds to the logs.
use commlib_py.Prelude.{
  ℕ, zero, suc, ◌+◌, ◌-◌, ◌≡◌, refl, Option, none, some, List, [], ◌∷◌, arith, ◌<◌, append-nil,
  append_assoc, ◌⊎◌, inl, inr, ◌∙◌, ap,
}
use commlib_py.Topic.Text.{Text}
use commlib_py.TaskQueue.Types.{TaskEnvelope, TaskResult, Payload}
use commlib_py.TaskQueue.Context.{Worker, Outcome, returns, raises, Behaviour}
use commlib_py.TaskQueue.Worker.{result_dict, enter, leave}
use commlib_py.TaskQueue.Attempt.{
  Did, started, again, retries_left, tried, run, run_of_attempt, attempt_delivers, attempt_retries,
  attempt_gives_up, outcome_of,
}
use commlib_py.TaskQueue.Lifecycle.{
  story_returns, story_raises_last, story_raises, delivered, lost, Story, result_of, dead_of, story,
  waits, waits-story, once, run_timers, settle,
}

Outcome-cases :
    {Value : Type 0} (o : Outcome Value)
    → ((p : Payload Value) × (o ≡ returns p)) ⊎ ((exc : Text) × (o ≡ raises exc))
Outcome-cases (returns p) = inl (p, refl)
Outcome-cases (raises exc) = inr (exc, refl)

module _ {Float Value : Type 0} where
  -- A retry, and what its timer leads to.
  Did-after_retry :
      {n : ℕ} {e : TaskEnvelope Float Value} {rs : List (TaskResult Value)}
      {ds : List (TaskEnvelope Float Value × Text)} {d : Float} {dl : List Float}
      {w w' w'' : Worker Float Value}
      → w.timers ≡ []
      → Did 1 (e ∷ []) [] [] (d ∷ []) w w'
      → Did n [] rs ds dl (record w' { timers = [] }) w''
      → Did (n + 1) [] rs ds (d ∷ dl) w w''
  Did-after_retry {d = d} {dl = dl} {w = w} idle first rest =
      ground
        (arith, append-nil w.results, append-nil w.dead_letters, append_assoc w.delays (d ∷ []) dl)

module _ {Float Value : Type 0} (null : Value) (backoff : Float → Float → ℕ → Float)
    (on_task : ℕ → TaskEnvelope Float Value → Behaviour Float Value)
    (publish_fails : ℕ → Option Text) (sends : (n : ℕ) → publish_fails n ≡ none) where
  abbrev settled : ℕ → TaskEnvelope Float Value → Worker Float Value → Option (Worker Float Value)
  settled = settle null backoff on_task publish_fails

  abbrev timers_run : ℕ → Worker Float Value → Worker Float Value
  timers_run = run_timers null backoff on_task publish_fails

  -- What the worker adds for a story.
  abbrev Tells :
      Story Float Value
      → TaskEnvelope Float Value
      → Worker Float Value
      → Worker Float Value
      → Type 0
  Tells s e w w' =
      Did s.attempts [] (result_of s ∷ []) (dead_of s)
        (waits backoff w.config.retry_delay w.config.retry_backoff_multiplier e.retry_count
          (s.attempts - 1))
        w w'

  run_timers_one :
      (k : ℕ) (e : TaskEnvelope Float Value) (w w' : Worker Float Value)
      → w.timers ≡ e ∷ []
      → settled k e (record w { timers = [] }) ≡ some w'
      → timers_run (suc k) w ≡ w'
  unfolding run_timers settle
  run_timers_one k e w w' h s = ground arith

  run_timers_idle : (k : ℕ) (w : Worker Float Value) → w.timers ≡ [] → timers_run k w ≡ w
  unfolding run_timers
  run_timers_idle zero w h = refl
  run_timers_idle (suc k) w h = ground arith

  settle_at_once :
      (k : ℕ) (e : TaskEnvelope Float Value) (w w' : Worker Float Value)
      → run null backoff on_task publish_fails sends e w ≡ some (none, w')
      → w'.timers ≡ []
      → settled k e w ≡ some w'
  unfolding settle
  settle_at_once k e w w' h idle = ground (arith, run_timers_idle k w' idle)

  -- A call that leaves no timer is the whole story.
  settle_ends :
      (k : ℕ) (e : TaskEnvelope Float Value) (w : Worker Float Value) (s : Story Float Value)
      → w.timers ≡ []
      → 0 < w.semaphore
      → s.attempts ≡ 1
      → ((tried null backoff on_task publish_fails sends e (enter e w)).0 ≡ none)
        × Did 1 []
            (result_of s ∷ [])
            (dead_of s)
            []
            (enter e w)
            (tried null backoff on_task publish_fails sends e (enter e w)).2
      → (w' : Worker Float Value) × (settled k e w ≡ some w') × Tells s e w w'
  unfolding waits
  settle_ends k e w s idle h once t =
      let (quiet, did) = run_of_attempt null backoff on_task publish_fails sends e w h t in
      (_, settle_at_once k e w _ quiet (did.timers_left ∙ rw idle), rw once did)

  -- A retry, and the story of the envelope that its timer brings back.
  settle_later :
      (k : ℕ) (e : TaskEnvelope Float Value) (w : Worker Float Value) (exc : Text)
      {w' : Worker Float Value}
      → outcome_of null backoff on_task publish_fails sends e w ≡ raises exc
      → w.timers ≡ []
      → run null backoff on_task publish_fails sends e w ≡ some (none, w')
      → Did 1
          (again e ∷ [])
          []
          []
          (backoff w.config.retry_delay w.config.retry_backoff_multiplier (e.retry_count + 1) ∷ [])
          w
          w'
      → (w'' : Worker Float Value) × (settled k (again e) (record w' { timers = [] }) ≡ some w'')
        × Tells (story on_task k (again e) w'.calls) (again e) (record w' { timers = [] }) w''
      → (w'' : Worker Float Value) × (settled (suc k) e w ≡ some w'')
        × Tells (story on_task (suc k) e w.calls) e w w''
  unfolding settle
  settle_later k e w exc {w' = w'} o idle quiet did (w'', eq, rest) = (
    w'',
    ground (arith, run_timers_one k (again e) w' w''),
    rw (story_raises on_task k e w.calls exc o, waits-story, ← same_waits, ← did.calls_made)
        (Did-after_retry idle did rest),
  )
    where
      same_waits :
          waits backoff w'.config.retry_delay w'.config.retry_backoff_multiplier
            (e.retry_count + 1)
            ((story on_task k (again e) (w.calls + 1)).attempts - 1)
          ≡ waits backoff w.config.retry_delay w.config.retry_backoff_multiplier
              (e.retry_count + 1)
              ((story on_task k (again e) (w.calls + 1)).attempts - 1)
      same_waits =
          ap
            (λ c.
              waits backoff c.retry_delay c.retry_backoff_multiplier (e.retry_count + 1)
                ((story on_task k (again e) (w.calls + 1)).attempts - 1))
            did.config

  -- If publishing a result never raises, no timer waits and a permit is free, and if k is the number of
  -- retries that the task has left: the exact effect of a task on the worker. `story` says how many times
  -- the callback runs, which one result is published, whether the task goes to the dead letters, and which
  -- delays are waited.
  pub settle_story :
      (k : ℕ) (e : TaskEnvelope Float Value) (w : Worker Float Value)
      → retries_left e ≡ k
      → w.timers ≡ []
      → 0 < w.semaphore
      → (w' : Worker Float Value) × (settled k e w ≡ some w')
        × Tells (story on_task k e w.calls) e w w'
  unfolding enter
  settle_story zero e w left idle h = elim (Outcome-cases (on_task w.calls (started e)).outcome) [
    | inl (p, o) ↦ rw (story_returns on_task zero e w.calls p o) (
        settle_ends zero e w (once (delivered (result_dict p)) e) idle h refl
          (attempt_delivers null backoff on_task publish_fails sends e (enter e w) p o))
    | inr (exc, o) ↦ rw (story_raises_last on_task e w.calls exc o) (
        settle_ends zero e w (once (lost exc) e) idle h refl
          (attempt_gives_up null backoff on_task publish_fails sends e (enter e w) exc o left))
  ]
  settle_story (suc k) e w left idle h =
      elim (Outcome-cases (on_task w.calls (started e)).outcome) [
        | inl (p, o) ↦ rw (story_returns on_task (suc k) e w.calls p o) (
            settle_ends (suc k) e w (once (delivered (result_dict p)) e) idle h refl
              (attempt_delivers null backoff on_task publish_fails sends e (enter e w) p o))
        | inr (exc, o) ↦
            let (quiet, did) = run_of_attempt null backoff on_task publish_fails sends e w h (
              attempt_retries null backoff on_task publish_fails sends e (enter e w) exc o
                (omega arith)) in
            settle_later k e w exc o idle quiet did (
              settle_story k (again e)
                (record (leave e.task_id
                  (tried null backoff on_task publish_fails sends e (enter e w)).2) { timers = [] })
                (omega arith) refl (omega (arith, did.semaphore)))
      ]
