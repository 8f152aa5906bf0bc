-- ===== src/TaskQueue/Context.antt =====
-- commlib/task_queue.py: the state of BaseTaskWorker, and WorkerTaskContext, through which the
-- callback `on_task` acts on it.
use commlib_py.Prelude.{ℕ, Bool, true, not, List, [], ◌∷◌, ◌++◌, if◌then◌else◌}
use commlib_py.Prelude.Dict.{Dict}
use commlib_py.Topic.Text.{Text}
use commlib_py.TaskQueue.Types.{
  Fields, TaskQueueConfig, TaskEnvelope, TaskResult, TaskProgress, Payload, nothing, message,
  mapping, other,
}

-- What the worker holds, and a log of the calls that it makes.
pub record Worker (Float Value : Type 0) : Type 0 where
  pub config : TaskQueueConfig Float
  -- permits left
  pub semaphore : ℕ
  pub active_tasks : Dict (TaskEnvelope Float Value)
  -- the `threading.Timer`s that have not fired, and the delays of all that were started
  pub timers : List (TaskEnvelope Float Value)
  pub delays : List Float
  -- calls of `on_task`, `_ack_task`, `_nack_task`, `_publish_progress`, `_publish_result` and
  -- `_send_to_dlq`
  pub calls : ℕ
  pub acked : List ℕ
  pub nacked : List ℕ
  pub progress : List (TaskProgress Float Value)
  pub results : List (TaskResult Value)
  pub dead_letters : List (TaskEnvelope Float Value × Text)

-- A call that `on_task` makes of its context.
pub data ContextCall (Float Value : Type 0) : Type 0 where
  ack nack : ContextCall Float Value
  send_progress : Payload Value → Float → ContextCall Float Value

pub data Outcome (Value : Type 0) : Type 0 where
  returns : Payload Value → Outcome Value
  raises : Text → Outcome Value

-- One run of `on_task`: the calls of the context, and the end.
pub record Behaviour (Float Value : Type 0) : Type 0 where
  pub context_calls : List (ContextCall Float Value)
  pub outcome : Outcome Value

module _ {Float Value : Type 0} where
  -- WorkerTaskContext.ack; the first part is the flag `_acked`
  unfoldable pub context_ack : ℕ → Bool → Worker Float Value → Bool × Worker Float Value
  context_ack task_id acked w =
      if not acked then (true, record w { acked = w.acked ++ task_id ∷ [] }) else (acked, w)

  -- WorkerTaskContext.nack
  unfoldable pub context_nack : ℕ → Worker Float Value → Worker Float Value
  context_nack task_id w = record w { nacked = w.nacked ++ task_id ∷ [] }

  -- WorkerTaskContext.send_progress; `null` is Python's `None` among the values
  unfoldable pub context_send_progress :
      Value → ℕ → Payload Value → Float → Worker Float Value → Worker Float Value
  context_send_progress null task_id progress_data percent w =
      let pdata : Fields Value = elim progress_data [
        | message fields ↦ fields
        | mapping fields ↦ fields
        | nothing ↦ ("value", null) ∷ []
        | other v ↦ ("value", v) ∷ []
      ] in
      record w {
        progress =
            w.progress
            ++ record { task_id = task_id; progress_data = pdata; percent = percent } ∷ [];
      }

  unfoldable pub context_call :
      Value → ℕ → ContextCall Float Value → Bool → Worker Float Value → Bool × Worker Float Value
  unfolding context_ack context_nack context_send_progress
  context_call null task_id ack acked w = context_ack task_id acked w
  context_call null task_id nack acked w = (acked, context_nack task_id w)
  context_call null task_id (send_progress p percent) acked w =
      (acked, context_send_progress null task_id p percent w)

  unfoldable pub run_calls :
      Value
      → ℕ
      → List (ContextCall Float Value)
      → Bool
      → Worker Float Value
      → Bool × Worker Float Value
  run_calls null task_id [] acked w = (acked, w)
  run_calls null task_id (c ∷ cs) acked w =
      let (acked', w') = context_call null task_id c acked w in run_calls null task_id cs acked' w'
