-- ===== src/Mqtt/Pubsub.antt =====
-- commlib/pubsub.py and commlib/transports/mqtt.py: publishers and subscribers.
-- `encode` is the transport's serializer with its compression, `none` when it raises; `decode` undoes it,
-- `none` when that raises. `is_valid` is validate_pubsub_topic_strict on numbered topics (Topic/Validate has
-- it on texts). A message type's `model_dump` and `msg_type(**data)` are what they make of the data.
use commlib_py.Prelude.{ℕ, ◌+◌, Bool, true, false, Option, none, some, if◌then◌else◌}
use commlib_py.Mqtt.Transport.{MqttTransport, returned, raised, publish}

-- What `publish` is given: a dict, a PubSubMessage with its dump, or something else.
pub data Message (Value : Type 0) : Type 0 where
  mapping pubsub_message anything_else : Value → Message Value

pub record Publisher (Payload : Type 0) : Type 0 where
  pub transport : MqttTransport Payload
  pub topic : Option ℕ
  -- `_msg_type is not None`
  pub typed : Bool
  pub msg_seq : ℕ

pub record WPublisher : Type 0 where
  pub topic : ℕ
  pub typed : Bool

-- How a callback ends: it returns, or raises what the subscriber catches or does not.
pub data Noted : Type 0 where
  returns raises raises_uncaught : Noted

-- A subscriber: its callback, if it has one, and `msg_type(**data)`, if it has a type; `none` is an exception
-- that the subscriber catches.
pub record Subscriber (Value : Type 0) : Type 0 where
  pub onmessage : Option (Value → Noted)
  pub msg_type : Option (Value → Option Value)

-- What becomes of a message: the data that the callback was called with, if it was, and whether an exception
-- leaves `_on_message`.
pub record Handling (Value : Type 0) : Type 0 where
  pub called_with : Option Value
  pub escapes : Bool

unfoldable pub escapes_of : Noted → Bool
escapes_of returns = false
escapes_of raises = false
escapes_of raises_uncaught = true

module _ {Value : Type 0} where
  -- BasePublisher._prepare_msg; `none` is its ValueError.
  unfoldable pub prepare_msg : Bool → Message Value → Option Value
  prepare_msg typed (pubsub_message v) = some v
  prepare_msg typed (mapping v) = if typed then none else some v
  prepare_msg typed (anything_else v) = if typed then none else some v

  -- `self.onmessage(data)`
  unfoldable pub call_back : (Value → Noted) → Value → Handling Value
  unfolding escapes_of
  call_back callback v = record { called_with = some v; escapes = escapes_of (callback v) }

  module _ {Payload : Type 0} (decode : Payload → Option Value) where
    -- Subscriber._on_message, with _unpack_comm_msg
    unfoldable pub on_message : Subscriber Value → Payload → Handling Value
    unfolding call_back
    on_message s bytes = elim (decode bytes) [
      | none ↦ record { called_with = none; escapes = false }
      | some v ↦ elim (s.onmessage) [
        | none ↦ record { called_with = none; escapes = false }
        | some callback ↦ elim (s.msg_type) [
          | none ↦ call_back callback v
          | some read ↦ elim (read v) [
            | none ↦ record { called_with = none; escapes = false }
            | some m ↦ call_back callback m
          ]
        ]
      ]
    ]

  module _ {Payload : Type 0} (encode : Value → Option Payload) (refuses : ℕ → Bool)
      (slashes : ℕ → ℕ) where
    -- MQTTTransport.publish with its serializer, at QoS 0; `none` is an exception.
    unfoldable pub send : ℕ → Value → MqttTransport Payload → Option (MqttTransport Payload)
    unfolding publish
    send topic v t = elim (encode v) [
      | none ↦ none
      | some bytes ↦ elim (publish refuses slashes topic bytes 0 t) [
        | returned ok t1 ↦ some t1
        | raised e t1 ↦ none
      ]
    ]

    -- The transport after a publication, and the next number of a message
    unfoldable pub count_sent :
        Publisher Payload → Option (MqttTransport Payload) → Option (Publisher Payload)
    count_sent p none = none
    count_sent p (some t) = some (record p { transport = t; msg_seq = p.msg_seq + 1 })

    -- `topic if topic else self._topic`; a publisher without either passes `None` on, whose `replace` raises.
    unfoldable pub topic_or : Option ℕ → Option ℕ → Option ℕ
    topic_or (some topic) own = some topic
    topic_or none own = own

    -- Publisher.publish
    unfoldable pub publish_msg :
        Message Value → Option ℕ → Publisher Payload → Option (Publisher Payload)
    unfolding prepare_msg topic_or send count_sent
    publish_msg msg topic p = elim (prepare_msg p.typed msg) [
      | none ↦ none
      | some v ↦ elim (topic_or topic p.topic) [
        | none ↦ none
        | some x ↦ count_sent p (send x v p.transport)
      ]
    ]

    module _ (is_valid : ℕ → Bool) where
      -- MPublisher.publish
      unfoldable pub mpublish : Message Value → ℕ → Publisher Payload → Option (Publisher Payload)
      unfolding prepare_msg send count_sent
      mpublish msg topic p =
          if is_valid topic
          then elim (prepare_msg p.typed msg) [
            | none ↦ none
            | some v ↦ count_sent p (send topic v p.transport)
          ]
          else none

      -- `self._msg_type is not None and not isinstance(msg, PubSubMessage)`
      unfoldable pub is_refused : Bool → Message Value → Bool
      is_refused typed (pubsub_message v) = false
      is_refused typed (mapping v) = typed
      is_refused typed (anything_else v) = typed

      -- WPublisher.publish
      unfoldable pub wpublish :
          WPublisher → Message Value → Publisher Payload → Option (Publisher Payload)
      unfolding is_refused mpublish
      wpublish w msg p = if is_refused w.typed msg then none else mpublish msg w.topic p
