-- ===== src/TaskQueue/Producer.antt =====
-- commlib/task_queue.py: TaskHandle and BaseTaskProducer.
-- `submit` hands the caller a reference to a handle that `_pending_tasks` holds too, so the handles are
-- objects of a store. `_send_task` is the subclass's: `send_fails` is the exception, if any, that it
-- ends with. `decode` is the class of the results (`_msg_type.Result`), where there is one: what its
-- constructor makes of the fields, or `none` where it raises.
use commlib_py.Prelude.{
  ℕ, ◌+◌, Bool, true, false, Option, none, some, List, [], ◌∷◌, ◌++◌, if◌then◌else◌,
}
use commlib_py.Prelude.Dict.{Dict, get, put, remove}
use commlib_py.Topic.Text.{Text}
use commlib_py.TaskQueue.Types.{
  TaskStatus, pending, completed, failed, dead_letter, Fields, TaskQueueConfig, TaskEnvelope,
  TaskResult, TaskProgress, Payload, nothing, message, mapping, other,
}

pub record TaskHandle (Value : Type 0) : Type 0 where
  pub task_id : ℕ
  pub status : TaskStatus
  pub result : Option (TaskResult Value)
  pub result_event : Bool

unfoldable pub is_terminal : TaskStatus → Bool
is_terminal completed = true
is_terminal failed = true
is_terminal dead_letter = true
is_terminal _ = false

module _ {Value : Type 0} where
  unfoldable pub new_handle : ℕ → TaskHandle Value
  new_handle task_id = record {
    task_id = task_id;
    status = pending;
    result = none;
    result_event = false;
  }

  unfoldable pub is_done : TaskHandle Value → Bool
  unfolding is_terminal
  is_done h = is_terminal h.status

  -- `wait_result` of a handle whose event is set returns at once; `none` while it is not.
  unfoldable pub wait_result : TaskHandle Value → Option (Option (TaskResult Value))
  wait_result h = if h.result_event then some h.result else none

  unfoldable pub set_result : TaskResult Value → TaskHandle Value → TaskHandle Value
  set_result r h = record h { result = some r; status = r.status; result_event = true }

  -- `task_data` of `submit`
  unfoldable pub task_data_of : Value → Payload Value → Fields Value
  task_data_of null (message fields) = fields
  task_data_of null (mapping fields) = fields
  task_data_of null nothing = ("value", null) ∷ []
  task_data_of null (other v) = ("value", v) ∷ []

-- `ttl or self._config.task_ttl`
unfoldable pub ttl_or :
    {Float : Type 0} → (Float → Bool) → Option Float → Option Float → Option Float
ttl_or is_zero none task_ttl = task_ttl
ttl_or is_zero (some t) task_ttl = if is_zero t then task_ttl else some t

module _ {Value : Type 0} where
  -- `if handle is not None: handle.set_result(result)`
  unfoldable pub settle_handle :
      Option ℕ → TaskResult Value → Dict (TaskHandle Value) → Dict (TaskHandle Value)
  unfolding set_result
  settle_handle none r handles = handles
  settle_handle (some ref) r handles = elim (get ref handles) [
    | none ↦ handles
    | some h ↦ put ref (set_result r h) handles
  ]

  -- The callback, if there is one, gets the fields that the class of the results accepts.
  unfoldable pub call_on_result :
      Bool
      → Option (Fields Value → Option (Fields Value))
      → TaskResult Value
      → List (ℕ × Fields Value)
      → Option (List (ℕ × Fields Value))
  call_on_result false decode r log = some log
  call_on_result true none r log = some (log ++ (r.task_id, r.result_data) ∷ [])
  call_on_result true (some d) r log = elim (d r.result_data) [
    | none ↦ none
    | some fields ↦ some (log ++ (r.task_id, fields) ∷ [])
  ]

pub record Producer (Float Value : Type 0) : Type 0 where
  pub queue_name : Text
  pub config : TaskQueueConfig Float
  -- the objects, by reference, and the next reference
  pub handles : Dict (TaskHandle Value)
  pub fresh : ℕ
  -- `_pending_tasks`, from task ids to references
  pub pending_tasks : Dict ℕ
  -- calls of `_send_task`, `_on_result` and `_on_progress`
  pub sent : List (TaskEnvelope Float Value)
  pub on_result : List (ℕ × Fields Value)
  pub on_progress : List (ℕ × Fields Value × Float)

module _ {Float Value : Type 0} (null : Value) (is_zero : Float → Bool)
    (send_fails : TaskEnvelope Float Value → Option Text) where
  -- The exception of `_send_task`, the handle's reference, and the producer. `uuid` is the fresh id.
  unfoldable pub submit :
      ℕ
      → Payload Value
      → ℕ
      → Option Float
      → Bool
      → Producer Float Value
      → Option Text × ℕ × Producer Float Value
  unfolding task_data_of ttl_or new_handle
  submit uuid task_msg priority ttl fire_and_forget p =
      let envelope : TaskEnvelope Float Value = record {
        task_id = uuid;
        queue_name = p.queue_name;
        priority = priority;
        status = pending;
        retry_count = 0;
        max_retries = p.config.max_retries;
        ttl = ttl_or is_zero ttl p.config.task_ttl;
        task_data = task_data_of null task_msg;
      } in
      (
        send_fails envelope,
        p.fresh,
        record p {
          handles = put p.fresh (new_handle uuid) p.handles;
          fresh = p.fresh + 1;
          pending_tasks =
              if fire_and_forget then p.pending_tasks else put uuid p.fresh p.pending_tasks;
          sent = p.sent ++ envelope ∷ [];
        },
      )

module _ {Float Value : Type 0} where
  -- Whether the class of the results raised, and the producer.
  unfoldable pub handle_result :
      Bool
      → Option (Fields Value → Option (Fields Value))
      → TaskResult Value
      → Producer Float Value
      → Bool × Producer Float Value
  handle_result has_callback decode r p =
      let p' = record p {
        pending_tasks = remove r.task_id p.pending_tasks;
        handles = settle_handle (get r.task_id p.pending_tasks) r p.handles;
      } in
      elim (call_on_result has_callback decode r p.on_result) [
        | none ↦ (true, p')
        | some log ↦ (false, record p' { on_result = log })
      ]

  unfoldable pub handle_progress :
      Bool
      → Option (Fields Value → Option (Fields Value))
      → TaskProgress Float Value
      → Producer Float Value
      → Bool × Producer Float Value
  handle_progress false decode q p = (false, p)
  handle_progress true none q p = (
    false,
    record p { on_progress = p.on_progress ++ (q.task_id, q.progress_data, q.percent) ∷ [] },
  )
  handle_progress true (some d) q p = elim (d q.progress_data) [
    | none ↦ (true, p)
    | some fields ↦
        (false, record p { on_progress = p.on_progress ++ (q.task_id, fields, q.percent) ∷ [] })
  ]
