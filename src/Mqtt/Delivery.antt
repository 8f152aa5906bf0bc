-- ===== src/Mqtt/Delivery.antt =====
-- commlib/transports/mqtt.py: a message from its publisher to the callback of a subscriber.
use commlib_py.Prelude.{
  ℕ, ◌+◌, ◌≡◌, refl, Bool, true, false, Option, none, some, List, ◌∷◌, arith, ==_refl,
}
use commlib_py.Prelude.Dict.{put}
use commlib_py.Mqtt.Transport.{
  PahoEvent, MqttTransport, returned, up, log, ask, publish, end_subscribe, subscribe,
}
use commlib_py.Mqtt.Session.{Paho, Hears}
use commlib_py.Mqtt.Pubsub.{
  Message, Publisher, Noted, Handling, escapes_of, prepare_msg, on_message, send, count_sent,
  topic_or, publish_msg,
}

module _ {Value Payload : Type 0} (encode : Value → Option Payload)
    (decode : Payload → Option Value) (refuses : ℕ → Bool) (transform slashes : ℕ → ℕ)
    (paho : Paho Payload) where
  published :
      (msg : Message Value) (topic : Option ℕ) (x : ℕ) (v : Value) (bytes : Payload)
      (p : Publisher Payload)
      → prepare_msg p.typed msg ≡ some v
      → topic_or encode refuses slashes topic p.topic ≡ some x
      → encode v ≡ some bytes
      → p.transport.has_client ≡ true
      → refuses p.transport.exchanges ≡ false
      → publish_msg encode refuses slashes msg topic p
        ≡ some (record p {
          transport = record p.transport {
            exchanges = p.transport.exchanges + 1;
            events = PahoEvent.publishes (slashes x) bytes 0 ∷ p.transport.events;
          };
          msg_seq = p.msg_seq + 1;
        })
  unfolding publish_msg send count_sent publish ask log
  published msg topic x v bytes p a o e h r = ground (arith, a, o, e, h, r)

  subscribed-Hears :
      (x wrapper qos : ℕ) (t : MqttTransport Payload)
      → t.has_client ≡ true
      → up t.events ≡ true
      → refuses t.exchanges ≡ false
      → (t1 : MqttTransport Payload) × (subscribe refuses transform (some x) wrapper qos t
          ≡ returned (some (transform x)) t1)
        × Hears paho t1 (transform x) wrapper
  unfolding subscribe end_subscribe ask log up
  subscribed-Hears x wrapper qos t h u r =
      let y = transform x in
      let es : List (PahoEvent Payload) = PahoEvent.subscribes y qos ∷ t.events in
      (
        record t {
          subscriptions = put y (wrapper, qos) t.subscriptions;
          exchanges = t.exchanges + 1;
          events = PahoEvent.adds_callback y wrapper ∷ es;
        },
        ground (arith, h, r),
        (
          ground (
            arith,
            paho.holds_adds_callback es y wrapper y,
            paho.holds_subscribes t.events y qos y u,
            ==_refl y,
          ),
          ground (arith, paho.handler_adds_callback es y wrapper y, ==_refl y),
        ),
      )

  -- What the callback is called with, if the data are of the subscriber's type.
  abbrev pub heard_as : (Value → Noted) → Option Value → Handling Value
  heard_as callback none = record { called_with = none; escapes = false }
  heard_as callback (some m) = record { called_with = some m; escapes = escapes_of (callback m) }

  -- A publisher whose message is of its kind, and a connected subscriber to the same topic, which has no
  -- wildcard; paho refuses neither's call, and a payload is read as it was written: the message is
  -- published on the filter that the subscriber's session then holds for its callback, and what that
  -- callback makes of the payload is one call of `onmessage`, with the data, or with what the subscriber's
  -- type makes of them if it has one; if that raises what the subscriber catches, `onmessage` is not
  -- called. The next message has the next number.
  pub on_message-publish_msg :
      (msg : Message Value) (topic : Option ℕ) (x wrapper : ℕ) (v : Value) (bytes : Payload)
      (callback : Value → Noted) (msg_type : Option (Value → Option Value)) (p : Publisher Payload)
      (t : MqttTransport Payload)
      → prepare_msg p.typed msg ≡ some v
      → topic_or encode refuses slashes topic p.topic ≡ some x
      → slashes x ≡ transform x
      → encode v ≡ some bytes
      → decode bytes ≡ some v
      → (p.transport.has_client ≡ true) × (t.has_client ≡ true)
      → up t.events ≡ true
      → (refuses p.transport.exchanges ≡ false) × (refuses t.exchanges ≡ false)
      → (p1 : Publisher Payload) × (t1 : MqttTransport Payload) × (publish_msg encode refuses
            slashes msg topic p
          ≡ some p1)
        × (p1.transport.events ≡ PahoEvent.publishes (transform x) bytes 0 ∷ p.transport.events)
        × (p1.msg_seq ≡ p.msg_seq + 1)
        × (subscribe refuses transform (some x) wrapper 0 t ≡ returned (some (transform x)) t1)
        × Hears paho t1 (transform x) wrapper
        × (on_message decode (record { onmessage = some callback; msg_type = msg_type }) bytes
            ≡ heard_as callback (elim msg_type [ none ↦ some v | some read ↦ read v ]))
  on_message-publish_msg msg topic x wrapper v bytes callback msg_type p t a o same e d (h, k) u
        (r, q) =
      let (t1, subscribes, heard) = subscribed-Hears x wrapper 0 t k u q in
      (
        record p {
          transport = record p.transport {
            exchanges = p.transport.exchanges + 1;
            events = PahoEvent.publishes (slashes x) bytes 0 ∷ p.transport.events;
          };
          msg_seq = p.msg_seq + 1;
        },
        t1,
        published msg topic x v bytes p a o e h r,
        ground (arith, same),
        refl,
        subscribes,
        heard,
        unfold on_message in ground (arith, d),
      )
