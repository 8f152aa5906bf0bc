-- ===== src/Kafka/Pubsub.antt =====
-- commlib/transports/kafka.py: Publisher, MPublisher and Subscriber, with the `run` of BaseSubscriber. A
-- payload has been serialized, and a key of a message is `none` if it is "" or `None`.
use commlib_py.Prelude.{
  ℕ, ◌+◌, ◌≡◌, refl, Bool, true, false, not, ◌&&◌, Option, none, some, ◌∷◌, if◌then◌else◌, arith,
}
use commlib_py.Node.Endpoint.{EndpointState, disconnected, connected, is_busy}
use commlib_py.Mqtt.Pubsub.{Message, mapping, pubsub_message, anything_else}
use commlib_py.Kafka.Transport.{
  KafkaCall, KafkaTransport, log, start, create_producer, create_consumer, publish_data,
  ensure_topic,
}

pub record KafkaPublisher (Payload : Type 0) : Type 0 where
  pub transport : KafkaTransport Payload
  pub producer : Option ℕ
  pub topic : ℕ
  pub key : Option ℕ
  -- `_msg_type is not None`
  pub typed : Bool
  pub msg_seq : ℕ

pub record KafkaSubscriber (Payload : Type 0) : Type 0 where
  pub transport : KafkaTransport Payload
  pub topic : ℕ
  -- the group of its connection, with a random part
  pub group : ℕ
  pub state : EndpointState
  -- `_stop_event`, and the consumer whose loop runs
  pub stop_event : Bool
  pub reads_from : Option ℕ

-- `key or self._key`
unfoldable pub key_or : Option ℕ → Option ℕ → Option ℕ
key_or none own = own
key_or (some k) own = some k

-- "" is the key 0.
unfoldable pub key_number : Option ℕ → ℕ
key_number none = 0
key_number (some k) = k + 1

module _ {Payload : Type 0} where
  -- The data of a message; `none` is the ValueError, or the UnboundLocalError for what is neither a dict nor
  -- a PubSubMessage.
  unfoldable pub message_data : Bool → Message Payload → Option Payload
  message_data typed (pubsub_message v) = some v
  message_data typed (mapping v) = if typed then none else some v
  message_data typed (anything_else v) = none

  -- Publisher.run, whose base class starts the transport unless it is connected
  unfoldable pub run_publisher : KafkaPublisher Payload → KafkaPublisher Payload
  unfolding start create_producer
  run_publisher p =
      let created = create_producer (start p.transport) in
      record p { transport = created.1; producer = some created.0 }

  -- Publisher.publish; a publisher that was not run has no producer, an AttributeError.
  unfoldable pub publish_message :
      Message Payload
      → Option ℕ
      → Option ℕ
      → KafkaPublisher Payload
      → Option (KafkaPublisher Payload)
  unfolding message_data publish_data key_or key_number
  publish_message msg topic key p = elim (message_data p.typed msg) [
    | none ↦ none
    | some payload ↦ elim (p.producer) [
      | none ↦ none
      | some producer ↦ some (record p {
        transport =
            publish_data producer payload (elim topic [ none ↦ p.topic | some x ↦ x ])
              (key_number (key_or key p.key)) p.transport;
        msg_seq = p.msg_seq + 1;
      })
    ]
  ]

  -- Publisher.stop
  unfoldable pub stop_publisher : KafkaPublisher Payload → KafkaPublisher Payload
  unfolding log
  stop_publisher p = elim (p.producer) [
    | none ↦ p
    | some producer ↦ record p { transport = log (KafkaCall.flushes producer) p.transport }
  ]

  -- Subscriber.run_forever up to its loop, which ends at once if `_stop_event` is set: then the consumer is
  -- closed.
  unfoldable pub start_loop : KafkaSubscriber Payload → KafkaSubscriber Payload
  unfolding ensure_topic create_consumer log
  start_loop s =
      let created = create_consumer (some s.group) (ensure_topic s.topic s.transport) in
      let t = log (KafkaCall.subscribes created.0 s.topic) created.1 in
      if s.stop_event
      then record s { transport = log (KafkaCall.closes created.0) t }
      else record s { transport = t; reads_from = some created.0 }

  -- BaseSubscriber.run
  unfoldable pub run_subscriber : KafkaSubscriber Payload → KafkaSubscriber Payload
  unfolding start_loop is_busy
  run_subscriber s =
      if not s.transport.connected && not (is_busy s.state)
      then record (start_loop s) { state = connected }
      else s

  -- Subscriber._on_assign
  unfoldable pub on_assignment : KafkaSubscriber Payload → KafkaSubscriber Payload
  unfolding start
  on_assignment s = record s { transport = start s.transport }

  -- Subscriber.stop: the loop sees the event, ends, and closes its consumer.
  unfoldable pub stop_reading : KafkaSubscriber Payload → KafkaSubscriber Payload
  unfolding log
  stop_reading s = elim (s.reads_from) [
    | none ↦ record s { stop_event = true }
    | some c ↦ record s {
      stop_event = true;
      reads_from = none;
      transport = log (KafkaCall.closes c) s.transport;
    }
  ]

  -- A publisher that is run publishes a message of its kind with the producer that it has made, on the topic
  -- and with the key that are given, or its own ones, and flushes it; the next message has the next number.
  pub publish_message-run_publisher :
      (msg : Message Payload) (payload : Payload) (topic key : Option ℕ)
      (p : KafkaPublisher Payload)
      → message_data p.typed msg ≡ some payload
      → (q : KafkaPublisher Payload) × (publish_message msg topic key (run_publisher p) ≡ some q)
        × (q.transport.calls
            ≡ KafkaCall.flushes p.transport.made
              ∷ KafkaCall.produces p.transport.made
                  (elim topic [ none ↦ p.topic | some x ↦ x ])
                  (key_number (key_or key p.key))
                  payload
              ∷ KafkaCall.makes_producer p.transport.made
              ∷ p.transport.calls)
        × (q.transport.connected ≡ true)
        × (q.msg_seq ≡ p.msg_seq + 1)
  unfolding publish_message run_publisher publish_data create_producer log start
  publish_message-run_publisher msg payload topic key p h = (
    record (run_publisher p) {
      transport =
          publish_data p.transport.made payload (elim topic [ none ↦ p.topic | some x ↦ x ])
            (key_number (key_or key p.key)) (run_publisher p).transport;
      msg_seq = p.msg_seq + 1;
    },
    ground (arith, h),
    ground arith,
    ground arith,
    refl,
  )

  -- A subscriber that was run, got its assignment and was stopped cannot be run again: it stays CONNECTED, its
  -- transport stays connected, and it reads from no consumer.
  pub run_subscriber-stop_reading :
      (s : KafkaSubscriber Payload)
      → s.transport.connected ≡ false
      → s.state ≡ disconnected
      → s.stop_event ≡ false
      → (c : ℕ) × ((on_assignment (run_subscriber s)).reads_from ≡ some c)
        × (run_subscriber (stop_reading (on_assignment (run_subscriber s)))
            ≡ stop_reading (on_assignment (run_subscriber s)))
        × ((stop_reading (on_assignment (run_subscriber s))).reads_from ≡ none)
        × ((stop_reading (on_assignment (run_subscriber s))).state ≡ connected)
        × ((stop_reading (on_assignment (run_subscriber s))).transport.connected ≡ true)
  unfolding run_subscriber stop_reading on_assignment start_loop start create_consumer ensure_topic
      log is_busy
  run_subscriber-stop_reading s t st e = (
    s.transport.made,
    ground (arith, t, st, e),
    ground (arith, t, st, e),
    ground (arith, t, st, e),
    ground (arith, t, st, e),
    ground (arith, t, st, e),
  )
