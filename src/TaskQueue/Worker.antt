-- ===== src/TaskQueue/Worker.antt =====
-- commlib/task_queue.py: BaseTaskWorker._process_task.
-- One call is `enter` (the semaphore and the table of active tasks), `attempt` (the callback, and what
-- follows from its end) and `leave` (the `finally`). The publishing methods are the subclass's:
-- `publish_fails n` is the exception, if any, of the n-th call of `_publish_result`. `on_task n` is the
-- n-th run of the callback; an exception that a call of its context raises is one that it raises.
use commlib_py.Prelude.{
  ℕ, ◌+◌, ◌-◌, Bool, false, Option, none, some, [], ◌∷◌, ◌++◌, ltb, ◌==◌, if◌then◌else◌, length,
}
use commlib_py.Prelude.Dict.{put, remove}
use commlib_py.Topic.Text.{Text, codes}
use commlib_py.TaskQueue.Types.{
  processing, completed, failed, retrying, dead_letter, auto, manual, Fields, TaskEnvelope,
  TaskResult, Payload, nothing, message, mapping, other,
}
use commlib_py.TaskQueue.Context.{Worker, returns, raises, Behaviour, context_ack, run_calls}

-- `result_dict`
unfoldable pub result_dict : {Value : Type 0} → Payload Value → Fields Value
result_dict nothing = []
result_dict (message fields) = fields
result_dict (mapping fields) = fields
result_dict (other v) = ("value", v) ∷ []

-- The exception that leaves a part of the method, the envelope and the worker after it.
abbrev pub Ended : Type 0 → Type 0 → Type 0
Ended Float Value = Option Text × TaskEnvelope Float Value × Worker Float Value

module _ {Float Value : Type 0} where
  unfoldable pub enter : TaskEnvelope Float Value → Worker Float Value → Worker Float Value
  enter envelope w = record w {
    semaphore = w.semaphore - 1;
    active_tasks = put envelope.task_id envelope w.active_tasks;
  }

  unfoldable pub leave : ℕ → Worker Float Value → Worker Float Value
  leave task_id w = record w {
    semaphore = w.semaphore + 1;
    active_tasks = remove task_id w.active_tasks;
  }

  -- `threading.Timer(delay, self._process_task, args=[envelope]).start()`
  unfoldable pub start_timer :
      Float → TaskEnvelope Float Value → Worker Float Value → Worker Float Value
  start_timer delay envelope w = record w {
    timers = w.timers ++ envelope ∷ [];
    delays = w.delays ++ delay ∷ [];
  }

  -- BaseTaskWorker._send_to_dlq, with the envelope as it leaves it
  unfoldable pub send_to_dlq :
      TaskEnvelope Float Value
      → Text
      → Worker Float Value
      → TaskEnvelope Float Value × Worker Float Value
  send_to_dlq envelope error w =
      let envelope' = record envelope { status = dead_letter } in
      (envelope', record w { dead_letters = w.dead_letters ++ (envelope', error) ∷ [] })

  -- `if self._config.ack_policy == AckPolicy.AUTO: ctx.ack()`
  unfoldable pub auto_ack : ℕ → Bool → Worker Float Value → Worker Float Value
  unfolding context_ack
  auto_ack task_id acked w = elim w.config.ack_policy [
    | auto ↦ (context_ack task_id acked w).1
    | manual ↦ w
  ]

module _ {Float Value : Type 0} (null : Value) (backoff : Float → Float → ℕ → Float)
    (on_task : ℕ → TaskEnvelope Float Value → Behaviour Float Value)
    (publish_fails : ℕ → Option Text) where
  unfoldable pub publish_result :
      TaskResult Value → Worker Float Value → Option Text × Worker Float Value
  publish_result result w =
      (publish_fails (length w.results), record w { results = w.results ++ result ∷ [] })

  -- the last branch of `except Exception`: no attempt is left
  unfoldable pub give_up : Text → TaskEnvelope Float Value → Worker Float Value → Ended Float Value
  unfolding publish_result send_to_dlq
  give_up exc envelope w =
      let (escaped, w') =
        publish_result
          (record { task_id = envelope.task_id; status = failed; result_data = []; error = exc })
          w in
      elim escaped [
        | some e ↦ (some e, envelope, w')
        | none ↦ let (envelope', w'') = send_to_dlq envelope exc w' in (none, envelope', w'')
      ]

  -- the first branch: the envelope goes back to `_process_task` after a delay
  unfoldable pub retry : TaskEnvelope Float Value → Worker Float Value → Ended Float Value
  unfolding start_timer
  retry envelope w =
      let count = envelope.retry_count + 1 in
      let envelope' = record envelope { retry_count = count; status = retrying } in
      let delay = backoff w.config.retry_delay w.config.retry_backoff_multiplier count in
      (none, envelope', start_timer delay envelope' w)

  -- `except Exception as exc`
  unfoldable pub handle_exception :
      Text → TaskEnvelope Float Value → Worker Float Value → Ended Float Value
  unfolding give_up retry
  handle_exception exc envelope w =
      if ltb envelope.retry_count (envelope.max_retries - 1)
      then retry envelope w
      else give_up exc envelope w

  -- the rest of the `try`, once `on_task` has returned
  unfoldable pub complete :
      Payload Value → Bool → TaskEnvelope Float Value → Worker Float Value → Ended Float Value
  unfolding publish_result
  complete result_data acked envelope w =
      let (thrown, w'') =
        publish_result
          (record {
            task_id = envelope.task_id;
            status = completed;
            result_data = result_dict result_data;
            error = codes "";
          })
          (auto_ack envelope.task_id acked w) in
      elim thrown [ some exc ↦ handle_exception exc envelope w'' | none ↦ (none, envelope, w'') ]

  unfoldable pub attempt : TaskEnvelope Float Value → Worker Float Value → Ended Float Value
  attempt envelope w =
      let envelope' = record envelope { status = processing } in
      let behaviour = on_task w.calls envelope' in
      let (acked, w') =
        run_calls null envelope.task_id behaviour.context_calls false
          (record w { calls = w.calls + 1 }) in
      elim behaviour.outcome [
        | raises exc ↦ handle_exception exc envelope' w'
        | returns result_data ↦ complete result_data acked envelope' w'
      ]

  -- `none`: the thread waits for the semaphore. Otherwise the exception that escapes, if any.
  unfoldable pub process_task :
      TaskEnvelope Float Value → Worker Float Value → Option (Option Text × Worker Float Value)
  unfolding enter leave
  process_task envelope w =
      if w.semaphore == 0
      then none
      else let (escaped, envelope', w') = attempt envelope (enter envelope w) in
        some (escaped, leave envelope.task_id w')
