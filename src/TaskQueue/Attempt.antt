-- ===== src/TaskQueue/Attempt.antt =====
-- One call of `_process_task` with a transport whose publishing does not fail: what each of its three
-- ends adds to the worker's logs.
use commlib_py.Prelude.{
  ℕ, ◌+◌, ◌-◌, ◌≡◌, Bool, false, Option, none, some, List, [], ◌∷◌, ◌++◌, arith, length, ◌<◌,
  append-nil,
}
use commlib_py.Topic.Text.{Text, codes}
use commlib_py.TaskQueue.Types.{
  TaskEnvelope, TaskResult, Payload, Fields, processing, completed, failed, retrying, dead_letter,
}
use commlib_py.TaskQueue.Context.{Worker, Outcome, returns, raises, Behaviour, run_calls}
use commlib_py.TaskQueue.Frame.{SameCore, run_calls-SameCore}
use commlib_py.TaskQueue.Worker.{
  enter, leave, Ended, result_dict, auto_ack, handle_exception, complete, attempt, process_task,
}

module _ {Value : Type 0} where
  abbrev pub success : ℕ → Fields Value → TaskResult Value
  success id fields = record {
    task_id = id;
    status = completed;
    result_data = fields;
    error = codes "";
  }

  abbrev pub failure : ℕ → Text → TaskResult Value
  failure id exc = record { task_id = id; status = failed; result_data = []; error = exc }

module _ {Float Value : Type 0} where
  -- What a worker does: the lists that its logs gain.
  pub record Did (calls : ℕ) (timers : List (TaskEnvelope Float Value))
      (results : List (TaskResult Value)) (dead : List (TaskEnvelope Float Value × Text))
      (delays : List Float) (w w' : Worker Float Value) : Type 0 where
    pub config : w'.config ≡ w.config
    pub semaphore : w'.semaphore ≡ w.semaphore
    pub calls_made : w'.calls ≡ w.calls + calls
    pub timers_left : w'.timers ≡ w.timers ++ timers
    pub published : w'.results ≡ w.results ++ results
    pub sent_to_dlq : w'.dead_letters ≡ w.dead_letters ++ dead
    pub waited : w'.delays ≡ w.delays ++ delays

  abbrev pub started : TaskEnvelope Float Value → TaskEnvelope Float Value
  started e = record e { status = processing }

  abbrev pub again : TaskEnvelope Float Value → TaskEnvelope Float Value
  again e = record e { retry_count = e.retry_count + 1; status = retrying }

  abbrev pub buried : TaskEnvelope Float Value → TaskEnvelope Float Value
  buried e = record e { status = dead_letter }

  -- The attempts that are left after the next one.
  abbrev pub retries_left : TaskEnvelope Float Value → ℕ
  retries_left e = e.max_retries - 1 - e.retry_count

module _ {Float Value : Type 0} (null : Value) (backoff : Float → Float → ℕ → Float)
    (on_task : ℕ → TaskEnvelope Float Value → Behaviour Float Value)
    (publish_fails : ℕ → Option Text) (sends : (n : ℕ) → publish_fails n ≡ none) where
  handle_exception_retries :
      (exc : Text) (e : TaskEnvelope Float Value) (w : Worker Float Value)
      → 0 < retries_left e
      → ((handle_exception null backoff on_task publish_fails exc e w).0 ≡ none)
        × Did 0
            (again e ∷ [])
            []
            []
            (backoff w.config.retry_delay w.config.retry_backoff_multiplier (e.retry_count + 1)
              ∷ [])
            w
            (handle_exception null backoff on_task publish_fails exc e w).2
  unfolding handle_exception
  handle_exception_retries exc e w h =
      ground (arith, append-nil w.results, append-nil w.dead_letters)

  handle_exception_gives_up :
      (exc : Text) (e : TaskEnvelope Float Value) (w : Worker Float Value)
      → retries_left e ≡ 0
      → ((handle_exception null backoff on_task publish_fails exc e w).0 ≡ none)
        × Did 0 []
            (failure e.task_id exc ∷ [])
            ((buried e, exc) ∷ [])
            []
            w
            (handle_exception null backoff on_task publish_fails exc e w).2
  unfolding handle_exception
  handle_exception_gives_up exc e w h =
      ground (arith, sends (length w.results), append-nil w.timers, append-nil w.delays)

  abbrev pub outcome_of : TaskEnvelope Float Value → Worker Float Value → Outcome Value
  outcome_of e w = (on_task w.calls (started e)).outcome

  complete_reliable :
      (p : Payload Value) (b : Bool) (e : TaskEnvelope Float Value) (w : Worker Float Value)
      → ((complete null backoff on_task publish_fails p b e w).0 ≡ none)
        × Did 0 []
            (success e.task_id (result_dict p) ∷ [])
            []
            []
            w
            (complete null backoff on_task publish_fails p b e w).2
  unfolding complete auto_ack
  complete_reliable p b e w = ground (
    arith,
    sends (length w.results),
    append-nil w.timers,
    append-nil w.delays,
    append-nil w.dead_letters,
  )

  abbrev ran : TaskEnvelope Float Value → Worker Float Value → Bool × Worker Float Value
  ran e w =
      run_calls null e.task_id (on_task w.calls (started e)).context_calls false
        (record w { calls = w.calls + 1 })

  abbrev pub run :
      TaskEnvelope Float Value → Worker Float Value → Option (Option Text × Worker Float Value)
  run = process_task null backoff on_task publish_fails

  abbrev pub tried : TaskEnvelope Float Value → Worker Float Value → Ended Float Value
  tried = attempt null backoff on_task publish_fails

  ran-SameCore :
      (e : TaskEnvelope Float Value) (w : Worker Float Value)
      → SameCore (record w { calls = w.calls + 1 }) (ran e w).1
  ran-SameCore e w = run_calls-SameCore null e.task_id _ false _

  pub attempt_delivers :
      (e : TaskEnvelope Float Value) (w : Worker Float Value) (p : Payload Value)
      → outcome_of e w ≡ returns p
      → ((tried e w).0 ≡ none)
        × Did 1 [] (success e.task_id (result_dict p) ∷ []) [] [] w (tried e w).2
  unfolding attempt
  attempt_delivers e w p o =
      ground (arith, ran-SameCore e w, complete_reliable p (ran e w).0 (started e) (ran e w).1)

  pub attempt_retries :
      (e : TaskEnvelope Float Value) (w : Worker Float Value) (exc : Text)
      → outcome_of e w ≡ raises exc
      → 0 < retries_left e
      → ((tried e w).0 ≡ none)
        × Did 1
            (again e ∷ [])
            []
            []
            (backoff w.config.retry_delay w.config.retry_backoff_multiplier (e.retry_count + 1)
              ∷ [])
            w
            (tried e w).2
  unfolding attempt
  attempt_retries e w exc o h =
      ground (arith, ran-SameCore e w, handle_exception_retries exc (started e) (ran e w).1)

  pub attempt_gives_up :
      (e : TaskEnvelope Float Value) (w : Worker Float Value) (exc : Text)
      → outcome_of e w ≡ raises exc
      → retries_left e ≡ 0
      → ((tried e w).0 ≡ none)
        × Did 1 [] (failure e.task_id exc ∷ []) ((buried e, exc) ∷ []) [] w (tried e w).2
  unfolding attempt
  attempt_gives_up e w exc o h =
      ground (arith, ran-SameCore e w, handle_exception_gives_up exc (started e) (ran e w).1)

  -- What an attempt did, the call of `_process_task` around it did.
  pub run_of_attempt :
      (e : TaskEnvelope Float Value) (w : Worker Float Value) {n : ℕ}
      {ts : List (TaskEnvelope Float Value)} {rs : List (TaskResult Value)}
      {ds : List (TaskEnvelope Float Value × Text)} {dl : List Float}
      → 0 < w.semaphore
      → ((tried e (enter e w)).0 ≡ none) × Did n ts rs ds dl (enter e w) (tried e (enter e w)).2
      → (run e w ≡ some (none, leave e.task_id (tried e (enter e w)).2))
        × Did n ts rs ds dl w (leave e.task_id (tried e (enter e w)).2)
  unfolding process_task
  run_of_attempt e w h (quiet, did) = ground arith
