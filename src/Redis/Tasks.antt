-- ===== src/Redis/Tasks.antt =====
-- commlib/transports/redis.py: the queue of TaskProducer and TaskWorker.
-- `wait_for_msg` is asked again and again by the thread of the worker until its stop event is set; a model
-- run has as many rounds as that takes. What `_process_task` does with a task is in TaskQueue; here
-- `process` says how it ends.
use commlib_py.Prelude.{ℕ, zero, suc, Bool, true, false, Option, none, some, List, [], ◌∷◌, ◌++◌}
use commlib_py.Prelude.Dict.{Dict}
use commlib_py.Redis.Transport.{Transport}
use commlib_py.Redis.Queues.{
  Unanswered, Sent, Received, got, timed_out, gave_up, push_payload, wait_payload,
}

-- How the processing of a task ends: it returns, it raises a RuntimeError, a ConnectionError or an
-- OSError, or it raises another exception.
pub data Ended : Type 0 where
  returns raises raises_uncaught : Ended

-- `encode` is `model_dump` with the serializer and the compression, `decode` what turns a payload into an
-- envelope, `none` for a ValueError on the way.
pub record TaskCodec (Task Payload : Type 0) : Type 0 where
  pub encode : Task → Payload
  pub decode : Payload → Option Task
  pub is_init : Payload → Bool

pub record Poller (Task Payload : Type 0) : Type 0 where
  pub transport : Transport
  pub store : Dict (List Payload)
  -- the tasks that `_process_task` was called with
  pub processed : List Task
  -- whether the thread of the worker runs
  pub alive : Bool

module _ {Task Payload : Type 0} where
  -- `_process_task(envelope)` within the `try` of the loop
  unfoldable pub after_process : Ended → Poller Task Payload → Poller Task Payload
  after_process returns w = w
  after_process raises w = w
  after_process raises_uncaught w = record w { alive = false }

  module _ (codec : TaskCodec Task Payload) (link : ℕ → Bool) (taken : ℕ → Unanswered) where
    -- TaskProducer._send_task
    unfoldable pub send_task :
        ℕ → ℕ → Task → Transport → Dict (List Payload) → Option (Sent Payload)
    send_task fuel queue task t s = push_payload link taken fuel queue (codec.encode task) t s

    module _ (process : Task → Ended) where
      unfoldable pub take_payload : Payload → Poller Task Payload → Poller Task Payload
      unfolding after_process
      take_payload p w = elim (codec.decode p) [
        | none ↦ record w { alive = false }
        | some task ↦
            after_process (process task) (record w { processed = w.processed ++ task ∷ [] })
      ]

      unfoldable pub after_wait :
          Option (Received Payload) → Poller Task Payload → Option (Poller Task Payload)
      unfolding take_payload
      after_wait none w = none
      after_wait (some (got p t s)) w =
          some (take_payload p (record w { transport = t; store = s }))
      after_wait (some (timed_out t s)) w = some (record w { transport = t; store = s })
      after_wait (some (gave_up t s)) w = some (record w { transport = t; store = s })

      -- one round of TaskWorker._poll_loop
      unfoldable pub poll : ℕ → ℕ → Poller Task Payload → Option (Poller Task Payload)
      unfolding after_wait
      poll fuel queue w =
          after_wait (wait_payload link taken codec.is_init fuel queue w.transport w.store) w

      -- TaskWorker._poll_loop
      unfoldable pub poll_loop : ℕ → ℕ → ℕ → Poller Task Payload → Option (Poller Task Payload)
      unfolding poll
      poll_loop zero fuel queue w = some w
      poll_loop (suc rounds) fuel queue w = elim (w.alive) [
        | false ↦ some w
        | true ↦ elim (poll fuel queue w) [ none ↦ none | some w' ↦ poll_loop rounds fuel queue w' ]
      ]
