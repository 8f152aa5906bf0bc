-- ===== src/TaskQueue/Resources.antt =====
-- The semaphore, the table of active tasks and the acknowledgements across `_process_task`.
use commlib_py.Prelude.{
  ℕ, ◌+◌, ◌-◌, ◌≡◌, refl, Bool, true, false, Option, some, List, [], ◌∷◌, ◌++◌, arith, length, ◌⊎◌,
  inl, inr, ◌<◌,
}
use commlib_py.Prelude.Dict.{remove, remove-put}
use commlib_py.Topic.Text.{Text}
use commlib_py.TaskQueue.Types.{TaskEnvelope, Payload, auto, processing, retrying}
use commlib_py.TaskQueue.Context.{Worker, returns, Behaviour, run_calls}
use commlib_py.TaskQueue.Frame.{AcksOnce, run_calls-SameCore, run_calls-AcksOnce}
use commlib_py.TaskQueue.Worker.{enter, handle_exception, auto_ack, complete, attempt, process_task}

module _ {Float Value : Type 0} where
  -- What the attempt holds while it runs.
  record SameHold (w w' : Worker Float Value) : Type 0 where
    semaphore : w'.semaphore ≡ w.semaphore
    active_tasks : w'.active_tasks ≡ w.active_tasks

  AcksOnce-cases :
      (id : ℕ) (before : List ℕ) (b : Bool) (w : Worker Float Value)
      → AcksOnce id before b w
      → (w.acked ≡ before) ⊎ (w.acked ≡ before ++ id ∷ [])
  AcksOnce-cases id before false w h = inl h
  AcksOnce-cases id before true w h = inr h

  auto_ack-auto :
      (id : ℕ) (before : List ℕ) (b : Bool) (w : Worker Float Value)
      → AcksOnce id before b w
      → w.config.ack_policy ≡ auto
      → (auto_ack id b w).acked ≡ before ++ id ∷ []
  unfolding auto_ack
  auto_ack-auto id before false w h policy = ground arith
  auto_ack-auto id before true w h policy = ground arith

  auto_ack-acks :
      (id : ℕ) (before : List ℕ) (b : Bool) (w : Worker Float Value)
      → AcksOnce id before b w
      → ((auto_ack id b w).acked ≡ before) ⊎ ((auto_ack id b w).acked ≡ before ++ id ∷ [])
  unfolding auto_ack
  auto_ack-acks id before false w h = ground arith
  auto_ack-acks id before true w h = ground arith

  auto_ack-SameHold : (id : ℕ) (b : Bool) (w : Worker Float Value) → SameHold w (auto_ack id b w)
  unfolding auto_ack
  auto_ack-SameHold id b w = ground arith

module _ {Float Value : Type 0} (null : Value) (backoff : Float → Float → ℕ → Float)
    (on_task : ℕ → TaskEnvelope Float Value → Behaviour Float Value)
    (publish_fails : ℕ → Option Text) where
  abbrev run :
      TaskEnvelope Float Value → Worker Float Value → Option (Option Text × Worker Float Value)
  run = process_task null backoff on_task publish_fails

  handle_exception-SameHold :
      (exc : Text) (e : TaskEnvelope Float Value) (w : Worker Float Value)
      → SameHold w (handle_exception null backoff on_task publish_fails exc e w).2
  unfolding handle_exception
  handle_exception-SameHold exc e w = ground arith

  complete-SameHold :
      (p : Payload Value) (b : Bool) (e : TaskEnvelope Float Value) (w : Worker Float Value)
      → SameHold w (complete null backoff on_task publish_fails p b e w).2
  unfolding complete
  complete-SameHold p b e w = grind (arith, handle_exception-SameHold, auto_ack-SameHold)

  attempt-SameHold :
      (e : TaskEnvelope Float Value) (w : Worker Float Value)
      → SameHold w (attempt null backoff on_task publish_fails e w).2
  unfolding attempt
  attempt-SameHold e w =
      grind (arith, handle_exception-SameHold, complete-SameHold, run_calls-SameCore)

  pub attempt-semaphore :
      (e : TaskEnvelope Float Value) (w : Worker Float Value)
      → (attempt null backoff on_task publish_fails e w).2.semaphore ≡ w.semaphore
  attempt-semaphore e w = (attempt-SameHold e w).semaphore

  -- Whatever the callback and the publishing do, raising included, a call that has got the semaphore
  -- gives it back, and only the entry of its own task is gone from the table of active tasks.
  pub process_task_restores :
      (e : TaskEnvelope Float Value) (w : Worker Float Value) (escaped : Option Text)
      (w' : Worker Float Value)
      → run e w ≡ some (escaped, w')
      → (w'.semaphore ≡ w.semaphore) × (w'.active_tasks ≡ remove e.task_id w.active_tasks)
  unfolding process_task
  process_task_restores e w escaped w' h =
      ground (arith, attempt-SameHold e (enter e w), remove-put e.task_id e w.active_tasks)

  handle_exception-acked :
      (exc : Text) (e : TaskEnvelope Float Value) (w : Worker Float Value)
      → (handle_exception null backoff on_task publish_fails exc e w).2.acked ≡ w.acked
  unfolding handle_exception
  handle_exception-acked exc e w = ground arith

  complete-acked :
      (p : Payload Value) (b : Bool) (e : TaskEnvelope Float Value) (w : Worker Float Value)
      → (complete null backoff on_task publish_fails p b e w).2.acked
        ≡ (auto_ack e.task_id b w).acked
  unfolding complete
  complete-acked p b e w = grind (arith, handle_exception-acked)

  -- The callback's run of context calls, and the automatic acknowledgement after it.
  abbrev called : TaskEnvelope Float Value → Worker Float Value → Bool × Worker Float Value
  called e w =
      run_calls null e.task_id (on_task w.calls (record e { status = processing })).context_calls
        false (record w { calls = w.calls + 1 })

  called-acks :
      (e : TaskEnvelope Float Value) (w : Worker Float Value)
      → AcksOnce e.task_id w.acked (called e w).0 (called e w).1
  called-acks e w = run_calls-AcksOnce null e.task_id w.acked _ false _ refl

  attempt-acked :
      (e : TaskEnvelope Float Value) (w : Worker Float Value)
      → ((attempt null backoff on_task publish_fails e w).2.acked ≡ w.acked)
        ⊎ ((attempt null backoff on_task publish_fails e w).2.acked ≡ w.acked ++ e.task_id ∷ [])
  unfolding attempt
  attempt-acked e w = grind (
    arith,
    handle_exception-acked,
    complete-acked,
    AcksOnce-cases e.task_id w.acked (called e w).0 (called e w).1 (called-acks e w),
    auto_ack-acks e.task_id w.acked (called e w).0 (called e w).1 (called-acks e w),
  )

  -- One call of `_process_task` acknowledges its task at most once, however often the callback does.
  pub process_task_acks :
      (e : TaskEnvelope Float Value) (w : Worker Float Value) (escaped : Option Text)
      (w' : Worker Float Value)
      → run e w ≡ some (escaped, w')
      → (w'.acked ≡ w.acked) ⊎ (w'.acked ≡ w.acked ++ e.task_id ∷ [])
  unfolding process_task
  process_task_acks e w escaped w' h = ground (arith, attempt-acked e (enter e w))

  attempt_auto_ack :
      (e : TaskEnvelope Float Value) (w : Worker Float Value) (p : Payload Value)
      → w.config.ack_policy ≡ auto
      → (on_task w.calls (record e { status = processing })).outcome ≡ returns p
      → (attempt null backoff on_task publish_fails e w).2.acked ≡ w.acked ++ e.task_id ∷ []
  unfolding attempt
  attempt_auto_ack e w p policy r =
      let called_core =
        run_calls-SameCore null e.task_id
          (on_task w.calls (record e { status = processing })).context_calls false
          (record w { calls = w.calls + 1 }) in
      ground (
        arith,
        called_core,
        complete-acked p (called e w).0 (record e { status = processing }) (called e w).1,
        auto_ack-auto e.task_id w.acked (called e w).0 (called e w).1 (called-acks e w),
      )

  complete_throws :
      (p : Payload Value) (b : Bool) (e : TaskEnvelope Float Value) (w : Worker Float Value)
      (exc : Text)
      → publish_fails (length w.results) ≡ some exc
      → e.retry_count < e.max_retries - 1
      → (complete null backoff on_task publish_fails p b e w).2.timers
        ≡ w.timers ++ record e { retry_count = e.retry_count + 1; status = retrying } ∷ []
  unfolding complete auto_ack handle_exception
  complete_throws p b e w exc f h = ground arith

  attempt_throws :
      (e : TaskEnvelope Float Value) (w : Worker Float Value) (p : Payload Value) (exc : Text)
      → (on_task w.calls (record e { status = processing })).outcome ≡ returns p
      → publish_fails (length w.results) ≡ some exc
      → e.retry_count < e.max_retries - 1
      → (attempt null backoff on_task publish_fails e w).2.timers
        ≡ w.timers ++ record e { retry_count = e.retry_count + 1; status = retrying } ∷ []
  unfolding attempt
  attempt_throws e w p exc r f h =
      let called_core =
        run_calls-SameCore null e.task_id
          (on_task w.calls (record e { status = processing })).context_calls false
          (record w { calls = w.calls + 1 }) in
      ground (
        arith,
        called_core,
        complete_throws p (called e w).0 (record e { status = processing }) (called e w).1 exc,
      )

  -- With automatic acknowledgement, a task whose callback returned and whose result could not be
  -- published is acknowledged, and all the same goes to its callback once more while a retry is left.
  pub process_task_acked_runs_again :
      (e : TaskEnvelope Float Value) (w : Worker Float Value) (p : Payload Value) (exc : Text)
      (escaped : Option Text) (w' : Worker Float Value)
      → w.config.ack_policy ≡ auto
      → (on_task w.calls (record e { status = processing })).outcome ≡ returns p
      → publish_fails (length w.results) ≡ some exc
      → e.retry_count < e.max_retries - 1
      → run e w ≡ some (escaped, w')
      → (w'.acked ≡ w.acked ++ e.task_id ∷ [])
        × (w'.timers
            ≡ w.timers ++ record e { retry_count = e.retry_count + 1; status = retrying } ∷ [])
  unfolding process_task
  process_task_acked_runs_again e w p exc escaped w' policy r f h done =
      ground (arith, attempt_auto_ack e (enter e w) p, attempt_throws e (enter e w) p exc)
