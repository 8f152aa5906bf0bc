-- ===== src/Kafka/Tasks.antt =====
-- commlib/transports/kafka.py: what TaskProducer and TaskWorker publish. Their `run` and `stop` start and
-- stop the transport; their subscribers have transports of their own.
use commlib_py.Prelude.{
  ℕ, ◌≡◌, refl, ap, ◌∙◌, Option, none, some, Bool-cases, inl, inr, List, [], ◌∷◌, arith,
}
use commlib_py.Kafka.Transport.{
  KafkaCall, KafkaTransport, new_kafka_transport, log, start, stop, stop_all,
}
use commlib_py.Kafka.Stops.{stop_all_adds}

-- A task, a result, a progress report or a dead letter, by its topic.
pub record TaskTopics : Type 0 where
  pub tasks : ℕ
  pub results : ℕ
  pub progress : ℕ
  pub dead_letters : ℕ

-- What is called on the transport of a producer or a worker.
pub data TaskCall (Payload : Type 0) : Type 0 where
  runs stops : TaskCall Payload
  sends_task publishes_result publishes_progress sends_to_dlq : ℕ → Payload → TaskCall Payload

module _ {Payload : Type 0} where
  -- How the four methods end that publish: what `_send_task`, `_publish_result`, `_publish_progress` and
  -- `_send_to_dlq` do once the payload is serialized; `none` is the AssertionError for a missing producer.
  unfoldable pub produce :
      ℕ → ℕ → Payload → KafkaTransport Payload → Option (KafkaTransport Payload)
  unfolding log
  produce topic key payload t = elim (t.producer) [
    | none ↦ none
    | some p ↦ some (log (KafkaCall.flushes p) (log (KafkaCall.produces p topic key payload) t))
  ]

  unfoldable pub send_task :
      TaskTopics → ℕ → Payload → KafkaTransport Payload → Option (KafkaTransport Payload)
  unfolding produce
  send_task topics key payload t = produce topics.tasks key payload t

  unfoldable pub publish_result :
      TaskTopics → ℕ → Payload → KafkaTransport Payload → Option (KafkaTransport Payload)
  unfolding produce
  publish_result topics key payload t = produce topics.results key payload t

  unfoldable pub publish_progress :
      TaskTopics → ℕ → Payload → KafkaTransport Payload → Option (KafkaTransport Payload)
  unfolding produce
  publish_progress topics key payload t = produce topics.progress key payload t

  unfoldable pub send_to_dlq :
      TaskTopics → ℕ → Payload → KafkaTransport Payload → Option (KafkaTransport Payload)
  unfolding produce
  send_to_dlq topics key payload t = produce topics.dead_letters key payload t

  -- The transport after a method, which is as it was if the method raises.
  unfoldable pub or_same :
      KafkaTransport Payload → Option (KafkaTransport Payload) → KafkaTransport Payload
  or_same t none = t
  or_same t (some u) = u

  unfoldable pub after_call :
      TaskTopics → TaskCall Payload → KafkaTransport Payload → KafkaTransport Payload
  unfolding or_same start stop send_task publish_result publish_progress send_to_dlq
  after_call topics runs t = start t
  after_call topics stops t = stop t
  after_call topics (sends_task key payload) t = or_same t (send_task topics key payload t)
  after_call topics (publishes_result key payload) t =
      or_same t (publish_result topics key payload t)
  after_call topics (publishes_progress key payload) t =
      or_same t (publish_progress topics key payload t)
  after_call topics (sends_to_dlq key payload) t = or_same t (send_to_dlq topics key payload t)

  unfoldable pub after_calls :
      TaskTopics → List (TaskCall Payload) → KafkaTransport Payload → KafkaTransport Payload
  unfolding after_call
  after_calls topics [] t = t
  after_calls topics (c ∷ cs) t = after_calls topics cs (after_call topics c t)

  stop-producer : (t : KafkaTransport Payload) → (stop t).producer ≡ t.producer
  stop-producer t = elim (Bool-cases t.connected) [
    | inl connected ↦
        let same : stop t ≡ stop_all t = unfold stop in ground (arith, connected) in
        ap (λ (u : KafkaTransport Payload). u.producer) same ∙ (stop_all_adds 0 t).2
    | inr apart ↦
        let same : stop t ≡ t = unfold stop in ground (arith, apart) in
        ap (λ (u : KafkaTransport Payload). u.producer) same
  ]

  after_call-producer :
      (topics : TaskTopics) (c : TaskCall Payload) (t : KafkaTransport Payload)
      → t.producer ≡ none
      → (after_call topics c t).producer ≡ none
  unfolding after_call send_task publish_result publish_progress send_to_dlq produce
  after_call-producer topics runs t h = unfold start in ground (arith, h)
  after_call-producer topics stops t h = stop-producer t ∙ h
  after_call-producer topics (sends_task key payload) t h = ground (arith, h)
  after_call-producer topics (publishes_result key payload) t h = ground (arith, h)
  after_call-producer topics (publishes_progress key payload) t h = ground (arith, h)
  after_call-producer topics (sends_to_dlq key payload) t h = ground (arith, h)

  after_calls-producer :
      (topics : TaskTopics) (cs : List (TaskCall Payload)) (t : KafkaTransport Payload)
      → t.producer ≡ none
      → (after_calls topics cs t).producer ≡ none
  unfolding after_calls
  after_calls-producer topics [] t h = h
  after_calls-producer topics (c ∷ cs) t h =
      after_calls-producer topics cs (after_call topics c t) (after_call-producer topics c t h)

  -- The transport of a Kafka task producer or worker never has a producer: after any calls of its
  -- methods, sending a task, a result, a progress report or a dead letter raises.
  pub send_task_never :
      (topics : TaskTopics) (cs : List (TaskCall Payload)) (key : ℕ) (payload : Payload)
      → (send_task topics key payload (after_calls topics cs new_kafka_transport) ≡ none)
        × (publish_result topics key payload (after_calls topics cs new_kafka_transport) ≡ none)
        × (publish_progress topics key payload (after_calls topics cs new_kafka_transport) ≡ none)
        × (send_to_dlq topics key payload (after_calls topics cs new_kafka_transport) ≡ none)
  unfolding send_task publish_result publish_progress send_to_dlq produce
  send_task_never topics cs key payload =
      let missing =
        after_calls-producer topics cs new_kafka_transport (unfold new_kafka_transport in refl) in
      (
        ground (arith, missing),
        ground (arith, missing),
        ground (arith, missing),
        ground (arith, missing),
      )
