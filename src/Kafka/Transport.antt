-- ===== src/Kafka/Transport.antt =====
-- commlib/transports/kafka.py: KafkaTransport over confluent-kafka, whose calls are kept in order, the latest
-- first. Producers, consumers, topics, keys, groups and callbacks are numbers; what the calls of the
-- library return is given where the code looks at it. A payload has been serialized.
use commlib_py.Prelude.{
  ℕ, ◌+◌, Bool, true, false, Option, none, some, List, [], ◌∷◌, ◌++◌, if◌then◌else◌,
}

pub data KafkaCall (Payload : Type 0) : Type 0 where
  flushes closes joins reads makes_producer : ℕ → KafkaCall Payload
  makes_consumer : ℕ → Option ℕ → KafkaCall Payload
  ensures : ℕ → KafkaCall Payload
  subscribes : ℕ → ℕ → KafkaCall Payload
  produces : ℕ → ℕ → ℕ → Payload → KafkaCall Payload

pub record KafkaTransport (Payload : Type 0) : Type 0 where
  pub connected : Bool
  pub producer : Option ℕ
  pub producers : List ℕ
  pub consumers : List ℕ
  -- the consumers of `_subscribers`, each with its callback
  pub subscribers : List (ℕ × ℕ)
  -- the number of the next object
  pub made : ℕ
  pub calls : List (KafkaCall Payload)

module _ {Payload : Type 0} where
  unfoldable pub new_kafka_transport : KafkaTransport Payload
  new_kafka_transport = record {
    connected = false;
    producer = none;
    producers = [];
    consumers = [];
    subscribers = [];
    made = 0;
    calls = [];
  }

  unfoldable pub log : KafkaCall Payload → KafkaTransport Payload → KafkaTransport Payload
  log e t = record t { calls = e ∷ t.calls }

  -- start
  unfoldable pub start : KafkaTransport Payload → KafkaTransport Payload
  start t = if t.connected then t else record t { connected = true }

  -- create_producer
  unfoldable pub create_producer : KafkaTransport Payload → ℕ × KafkaTransport Payload
  unfolding log
  create_producer t = (
    t.made,
    log (KafkaCall.makes_producer t.made)
        (record t { producers = t.producers ++ t.made ∷ []; made = t.made + 1 }),
  )

  -- create_consumer, with the group of its configuration
  unfoldable pub create_consumer : Option ℕ → KafkaTransport Payload → ℕ × KafkaTransport Payload
  unfolding log
  create_consumer group_id t = (
    t.made,
    log (KafkaCall.makes_consumer t.made group_id)
        (record t { consumers = t.consumers ++ t.made ∷ []; made = t.made + 1 }),
  )

  -- publish_data
  unfoldable pub publish_data :
      ℕ → Payload → ℕ → ℕ → KafkaTransport Payload → KafkaTransport Payload
  unfolding log
  publish_data producer payload topic key t =
      log (KafkaCall.flushes producer) (log (KafkaCall.produces producer topic key payload) t)

  -- publish
  unfoldable pub publish : ℕ → Payload → ℕ → KafkaTransport Payload → KafkaTransport Payload
  unfolding create_producer publish_data
  publish topic payload key t = elim (t.producer) [
    | some p ↦ publish_data p payload topic key t
    | none ↦
        let created = create_producer t in
        publish_data created.0 payload topic key (record created.1 { producer = some created.0 })
  ]

  -- `_ensure_topic`, whose failures are dropped
  unfoldable pub ensure_topic : ℕ → KafkaTransport Payload → KafkaTransport Payload
  unfolding log
  ensure_topic topic t = log (KafkaCall.ensures topic) t

  -- `_on_assign`, which `subscribe` hands to its consumer
  unfoldable pub on_assign : KafkaTransport Payload → KafkaTransport Payload
  unfolding start
  on_assign t = start t

  -- subscribe; `assigned` tells whether the assignment has come when it returns.
  unfoldable pub subscribe :
      Bool → ℕ → ℕ → Option ℕ → Bool → KafkaTransport Payload → KafkaTransport Payload
  unfolding ensure_topic create_consumer on_assign log
  subscribe assigned topic callback group_id wait_for_assignment t =
      let t0 = if wait_for_assignment then ensure_topic topic t else t in
      let created = create_consumer group_id t0 in
      let t1 = log (KafkaCall.subscribes created.0 topic) created.1 in
      let t2 = log (KafkaCall.reads created.0) t1 in
      let t3 = if assigned then on_assign t2 else t2 in
      record t3 { subscribers = t3.subscribers ++ (created.0, callback) ∷ [] }

  -- the loops of `stop`; each exception of a flush or a close is dropped.
  unfoldable pub flush_all : List ℕ → KafkaTransport Payload → KafkaTransport Payload
  unfolding log
  flush_all [] t = t
  flush_all (p ∷ ps) t = flush_all ps (log (KafkaCall.flushes p) t)

  unfoldable pub join_all : List (ℕ × ℕ) → KafkaTransport Payload → KafkaTransport Payload
  unfolding log
  join_all [] t = t
  join_all ((consumer, callback) ∷ more) t =
      join_all more (log (KafkaCall.closes consumer) (log (KafkaCall.joins consumer) t))

  unfoldable pub close_all : List ℕ → KafkaTransport Payload → KafkaTransport Payload
  unfolding log
  close_all [] t = t
  close_all (c ∷ cs) t = close_all cs (log (KafkaCall.closes c) t)

  -- the branch of `stop` for a connected transport
  unfoldable pub stop_all : KafkaTransport Payload → KafkaTransport Payload
  unfolding flush_all join_all close_all
  stop_all t =
      let t1 = record (flush_all t.producers t) { producers = [] } in
      let t2 = record (join_all t1.subscribers t1) { subscribers = [] } in
      let t3 = record (close_all t2.consumers t2) { consumers = [] } in
      record t3 { connected = false }

  -- stop
  unfoldable pub stop : KafkaTransport Payload → KafkaTransport Payload
  unfolding stop_all
  stop t = if t.connected then stop_all t else t

-- What `consumer.poll` returns: nothing, an error of one of the three kinds, or a message.
pub data Polled (Message : Type 0) : Type 0 where
  nothing partition_eof unknown_topic other_error : Polled Message
  message : Message → Polled Message

module _ {Message : Type 0} where
  -- `_poll_loop`: the messages that its callback is given, from what `stop_event.is_set()` and `poll` return in
  -- each turn; what the callback raises is logged.
  unfoldable pub poll_loop : List (Bool × Polled Message) → List Message
  poll_loop [] = []
  poll_loop ((true, polled) ∷ turns) = []
  poll_loop ((false, nothing) ∷ turns) = poll_loop turns
  poll_loop ((false, partition_eof) ∷ turns) = poll_loop turns
  poll_loop ((false, unknown_topic) ∷ turns) = poll_loop turns
  poll_loop ((false, other_error) ∷ turns) = poll_loop turns
  poll_loop ((false, message m) ∷ turns) = m ∷ poll_loop turns

-- How the loop of a subscriber ends, or that it goes on: it was stopped, or it raises a KafkaException.
pub data LoopEnd : Type 0 where
  still_runs stopped kafka_exception : LoopEnd

module _ {Message : Type 0} where
  -- Subscriber.run_forever, once its consumer has subscribed: the messages that `_on_message` is given, and
  -- the end, after which the consumer is closed.
  unfoldable pub run_forever : List (Bool × Polled Message) → List Message × LoopEnd
  run_forever [] = ([], still_runs)
  run_forever ((true, polled) ∷ turns) = ([], stopped)
  run_forever ((false, nothing) ∷ turns) = run_forever turns
  run_forever ((false, partition_eof) ∷ turns) = run_forever turns
  run_forever ((false, unknown_topic) ∷ turns) = run_forever turns
  run_forever ((false, other_error) ∷ turns) = ([], kafka_exception)
  run_forever ((false, message m) ∷ turns) = let rest = run_forever turns in (m ∷ rest.0, rest.1)
