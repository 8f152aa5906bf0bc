-- ===== src/Mqtt/Tasks.antt =====
-- commlib/transports/mqtt.py: what TaskProducer and TaskWorker publish, through MQTTTransport.publish with its
-- JSONSerializer. The JSON of a value is a payload, and `str_of` is the same as Python's str. The compression of
-- the payload is left out. `none` is an exception.
use commlib_py.Prelude.{ℕ, ◌+◌, ◌≡◌, refl, Bool, true, false, Option, none, some, ◌∷◌, arith}
use commlib_py.Topic.Text.{Text}
use commlib_py.Serial.Value.{Value, text, dict, Fields, is_primitive}
use commlib_py.Serial.Primitives.{serialize, deserialize, serialize_primitive}
use commlib_py.Mqtt.Transport.{PahoEvent, MqttTransport, returned, raised, log, ask, publish}

module _ {Payload : Type 0} (decode : Text → Option Text) (to_float : ℕ → ℕ)
    (dumps : Value → Option Payload) (loads : Payload → Option Value) (str_of : Payload → Text)
    (refuses : ℕ → Bool) (slashes : ℕ → ℕ) where
  -- MQTTTransport.publish, with its serializer
  unfoldable pub publish_value : ℕ → Value → MqttTransport Payload → Option (MqttTransport Payload)
  unfolding publish serialize
  publish_value topic v t = elim (serialize decode to_float dumps loads v) [
    | none ↦ none
    | some p ↦ elim (publish refuses slashes topic p 0 t) [
      | returned ok t1 ↦ some t1
      | raised e t1 ↦ none
    ]
  ]

  -- The four methods serialize what they publish, and hand the text to the transport.
  unfoldable pub publish_serialized :
      ℕ → Value → MqttTransport Payload → Option (MqttTransport Payload)
  unfolding publish_value
  publish_serialized topic v t = elim (serialize decode to_float dumps loads v) [
    | none ↦ none
    | some p ↦ publish_value topic (text (str_of p)) t
  ]

  unfoldable pub send_task : ℕ → Fields → MqttTransport Payload → Option (MqttTransport Payload)
  unfolding publish_serialized
  send_task task_topic envelope t = publish_serialized task_topic (dict envelope) t

  unfoldable pub publish_result :
      ℕ → Fields → MqttTransport Payload → Option (MqttTransport Payload)
  unfolding publish_serialized
  publish_result result_topic result t = publish_serialized result_topic (dict result) t

  unfoldable pub publish_progress :
      ℕ → Fields → MqttTransport Payload → Option (MqttTransport Payload)
  unfolding publish_serialized
  publish_progress progress_topic progress t = publish_serialized progress_topic (dict progress) t

  -- `_send_to_dlq`, of the envelope with its error
  unfoldable pub send_to_dlq : ℕ → Fields → MqttTransport Payload → Option (MqttTransport Payload)
  unfolding publish_serialized
  send_to_dlq dlq_topic envelope t = publish_serialized dlq_topic (dict envelope) t

  serialized_never :
      (topic : ℕ) (v : Value) (t : MqttTransport Payload) → publish_serialized topic v t ≡ none
  unfolding publish_serialized publish_value serialize
  serialized_never topic v t = ground arith

  -- A dict of null, booleans, numbers, texts, lists and dicts, which the JSON library writes and reads as it was,
  -- and which the transport would publish as it is, with a client whose call is not refused, is never sent by a
  -- task producer or worker, as a task, a result, a progress report or a dead letter: they hand over its text,
  -- which the transport cannot serialize again.
  pub send_task_twice :
      (topic : ℕ) (fields : Fields) (p : Payload) (t : MqttTransport Payload)
      → dumps (dict fields) ≡ some p
      → loads p ≡ some (dict fields)
      → is_primitive (dict fields) ≡ true
      → t.has_client ≡ true
      → refuses t.exchanges ≡ false
      → (t1 : MqttTransport Payload) × (publish_value topic (dict fields) t ≡ some t1)
        × (t1.events ≡ PahoEvent.publishes (slashes topic) p 0 ∷ t.events)
        × (deserialize decode to_float dumps loads p ≡ some (dict fields))
        × (send_task topic fields t ≡ none)
        × (publish_result topic fields t ≡ none)
        × (publish_progress topic fields t ≡ none)
        × (send_to_dlq topic fields t ≡ none)
  unfolding send_task publish_result publish_progress send_to_dlq deserialize
  send_task_twice topic fields p t writes reads h made free =
      let e = serialize_primitive decode to_float dumps loads fields h in
      (
        record t {
          exchanges = t.exchanges + 1;
          events = PahoEvent.publishes (slashes topic) p 0 ∷ t.events;
        },
        unfold publish_value publish ask log in ground (arith, e, writes, made, free),
        refl,
        reads,
        serialized_never topic (dict fields) t,
        serialized_never topic (dict fields) t,
        serialized_never topic (dict fields) t,
        serialized_never topic (dict fields) t,
      )
