-- ===== src/TaskQueue/Types.antt =====
-- commlib/task_queue.py: the enumerations and the data that producers and workers exchange.
-- A task id is the 128-bit number of its UUID. Floats are a parameter: the code only hands them on,
-- but for the delay of a retry and for `ttl or task_ttl`. The times that a clock stamps on a message
-- (`created_at`, `completed_at`) are left out: nothing reads them.
use commlib_py.Prelude.{ℕ, Option, none, some, List, ◌++◌, String}
use commlib_py.Topic.Text.{Text, codes}

pub data TaskStatus : Type 0 where
  pending processing completed failed retrying dead_letter : TaskStatus

pub data AckPolicy : Type 0 where
  auto manual : AckPolicy

-- Dict[str, Any]
abbrev pub Fields : Type 0 → Type 0
Fields Value = List (String × Value)

pub record TaskQueueConfig (Float : Type 0) : Type 0 where
  pub queue_name : Text
  pub max_retries : ℕ
  pub retry_delay : Float
  pub retry_backoff_multiplier : Float
  pub task_ttl : Option Float
  pub dlq_name : Option Text
  pub max_concurrent : ℕ
  pub ack_policy : AckPolicy

unfoldable pub get_dlq_name : {Float : Type 0} → TaskQueueConfig Float → Text
get_dlq_name config = elim config.dlq_name [
  | none ↦ config.queue_name ++ codes ".dlq"
  | some name ↦ name
]

pub record TaskEnvelope (Float Value : Type 0) : Type 0 where
  pub task_id : ℕ
  pub queue_name : Text
  pub priority : ℕ
  pub status : TaskStatus
  pub retry_count : ℕ
  pub max_retries : ℕ
  pub ttl : Option Float
  pub task_data : Fields Value

pub record TaskResult (Value : Type 0) : Type 0 where
  pub task_id : ℕ
  pub status : TaskStatus
  pub result_data : Fields Value
  pub error : Text

pub record TaskProgress (Float Value : Type 0) : Type 0 where
  pub task_id : ℕ
  pub progress_data : Fields Value
  pub percent : Float

-- What a callback returns or a caller submits: `None`, a message with the dictionary that
-- `model_dump` makes of it, a dictionary, or any other value.
pub data Payload (Value : Type 0) : Type 0 where
  nothing : Payload Value
  message : Fields Value → Payload Value
  mapping : Fields Value → Payload Value
  other : Value → Payload Value
