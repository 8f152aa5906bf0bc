-- ===== src/Mqtt/Transport.antt =====
-- commlib/transports/mqtt.py: MQTTTransport over paho's client, whose calls are kept in order, the latest
-- first, with what happens to its connection. `refuses n` tells whether the n-th call that can fail
-- raises. Topics are numbers; `transform` is `_transform_topic` and `slashes` is `replace(".", "/")` on them
-- (Topic/Names models them on texts). A callback is a number. The serializer and the compression have been
-- applied to a payload.
use commlib_py.Prelude.{
  ℕ, zero, suc, ◌+◌, Bool, true, false, ◌==◌, Option, none, some, List, ◌∷◌, if◌then◌else◌,
}
use commlib_py.Prelude.Dict.{Dict, put}

pub data PahoEvent (Payload : Type 0) : Type 0 where
  makes connects loop_starts loop_stops disconnects accepts drops : PahoEvent Payload
  subscribes adds_callback : ℕ → ℕ → PahoEvent Payload
  unsubscribes : ℕ → PahoEvent Payload
  publishes : ℕ → Payload → ℕ → PahoEvent Payload

pub record MqttTransport (Payload : Type 0) : Type 0 where
  pub reconnect_attempts : ℕ
  -- `_client is not None`
  pub has_client : Bool
  pub connected : Bool
  pub stopped : Bool
  -- `_subscriptions`: the callback and the QoS of a topic
  pub subscriptions : Dict (ℕ × ℕ)
  pub exchanges : ℕ
  pub events : List (PahoEvent Payload)

-- What a method raises.
pub data Raised : Type 0 where
  assertion_error connection_error subscriber_error refused : Raised

pub data Result (Payload : Type 0) (A : Type 0) : Type 0 where
  returned : A → MqttTransport Payload → Result Payload A
  raised : Raised → MqttTransport Payload → Result Payload A

-- Whether the broker has accepted the connection of the client, which is paho's `is_connected()`.
unfoldable pub up : {Payload : Type 0} → List (PahoEvent Payload) → Bool
up List.[] = false
up (makes ∷ es) = false
up (connects ∷ es) = up es
up (loop_starts ∷ es) = up es
up (loop_stops ∷ es) = up es
up (disconnects ∷ es) = false
up (accepts ∷ es) = true
up (drops ∷ es) = false
up (subscribes topic qos ∷ es) = up es
up (adds_callback topic callback ∷ es) = up es
up (unsubscribes topic ∷ es) = up es
up (publishes topic payload qos ∷ es) = up es

module _ {Payload : Type 0} where
  unfoldable pub new_mqtt_transport : ℕ → MqttTransport Payload
  new_mqtt_transport reconnect_attempts = record {
    reconnect_attempts = reconnect_attempts;
    has_client = false;
    connected = false;
    stopped = false;
    subscriptions = List.[];
    exchanges = 0;
    events = List.[];
  }

  -- is_connected
  unfoldable pub is_connected : MqttTransport Payload → Bool
  unfolding up
  is_connected t = if t.has_client then up t.events else false

  unfoldable pub log : PahoEvent Payload → MqttTransport Payload → MqttTransport Payload
  log e t = record t { events = e ∷ t.events }

  -- disconnect
  unfoldable pub disconnect : MqttTransport Payload → Result Payload Unit
  unfolding log
  disconnect t =
      if t.has_client
      then returned tt (log disconnects (log loop_stops t))
      else raised assertion_error t

  -- stop
  unfoldable pub stop : MqttTransport Payload → Result Payload Unit
  unfolding disconnect
  stop t = disconnect (record t { stopped = true })

  -- unsubscribe: of the topic as it is given
  unfoldable pub unsubscribe : ℕ → MqttTransport Payload → Result Payload Unit
  unfolding log
  unsubscribe topic t =
      if t.has_client then returned tt (log (unsubscribes topic) t) else raised assertion_error t

  -- on_disconnect
  unfoldable pub on_disconnect : ℕ → MqttTransport Payload → MqttTransport Payload
  on_disconnect rc t =
      let t1 = record t { connected = false } in
      if t.stopped
      then t1
      else if rc == 5
      then t1
      else if rc == 4
      then t1
      else if rc == 0
      then t1
      else if t.reconnect_attempts == 0
      then record t1 { stopped = true }
      else t1

  module _ (refuses : ℕ → Bool) where
    -- A call that can raise.
    unfoldable pub ask : PahoEvent Payload → MqttTransport Payload → Result Payload Unit
    unfolding log
    ask e t =
        let t1 = record t { exchanges = t.exchanges + 1 } in
        if refuses t.exchanges then raised refused t1 else returned tt (log e t1)

    -- The client is made and asked to connect.
    unfoldable pub dial : MqttTransport Payload → Result Payload Unit
    unfolding log ask
    dial t = elim (ask connects (log makes (record t { stopped = false; has_client = true }))) [
      | returned ok t1 ↦ returned tt (log loop_starts t1)
      | raised e t1 ↦ raised e t1
    ]

    -- connect
    unfoldable pub connect : MqttTransport Payload → Result Payload Unit
    unfolding dial
    connect t = if t.connected then raised connection_error t else dial t

    -- one turn of the loop of `_restore_subscriptions`: a refusal is logged
    unfoldable pub restore_one : ℕ → ℕ → ℕ → MqttTransport Payload → MqttTransport Payload
    unfolding ask log
    restore_one topic callback qos t = elim (ask (subscribes topic qos) t) [
      | returned ok t1 ↦ log (adds_callback topic callback) t1
      | raised e t1 ↦ t1
    ]

    -- the loop of `_restore_subscriptions`
    unfoldable pub restore_all : Dict (ℕ × ℕ) → MqttTransport Payload → MqttTransport Payload
    unfolding restore_one
    restore_all List.[] t = t
    restore_all ((topic, (callback, qos)) ∷ more) t =
        restore_all more (restore_one topic callback qos t)

    unfoldable pub restore_subscriptions : MqttTransport Payload → MqttTransport Payload
    unfolding restore_all
    restore_subscriptions t = restore_all t.subscriptions t

    -- on_connect
    unfoldable pub on_connect : ℕ → MqttTransport Payload → MqttTransport Payload
    unfolding restore_subscriptions
    on_connect rc t = if rc == 0 then restore_subscriptions (record t { connected = true }) else t

    -- publish
    unfoldable pub publish : (ℕ → ℕ) → ℕ → Payload → ℕ → MqttTransport Payload → Result Payload Unit
    unfolding ask
    publish slashes topic payload qos t =
        if t.has_client
        then ask (publishes (slashes topic) payload qos) t
        else raised assertion_error t

    -- the end of `subscribe`, for the transport that keeps the topic already
    unfoldable pub end_subscribe : ℕ → ℕ → ℕ → MqttTransport Payload → Result Payload (Option ℕ)
    unfolding ask log
    end_subscribe topic callback qos t = elim (ask (subscribes topic qos) t) [
      | returned ok t1 ↦ returned (some topic) (log (adds_callback topic callback) t1)
      | raised e t1 ↦ raised subscriber_error t1
    ]

    -- subscribe; `none` is the empty topic and the result "".
    unfoldable pub subscribe :
        (ℕ → ℕ) → Option ℕ → ℕ → ℕ → MqttTransport Payload → Result Payload (Option ℕ)
    unfolding put end_subscribe
    subscribe transform none callback qos t = returned none t
    subscribe transform (some topic) callback qos t =
        if t.has_client
        then end_subscribe (transform topic) callback qos
            (record t { subscriptions = put (transform topic) (callback, qos) t.subscriptions })
        else raised assertion_error t

    -- `start`, with what other threads and the broker make of the transport while it sleeps; `none` if
    -- the fuel is used up.
    unfoldable pub start :
        (ℕ → MqttTransport Payload → MqttTransport Payload)
        → ℕ
        → MqttTransport Payload
        → Option (Result Payload Unit)
    unfolding connect stop
    start meanwhile zero t = none
    start meanwhile (suc fuel) t = elim (connect t) [
      | returned ok t1 ↦ some (returned tt t1)
      | raised e t1 ↦ if t1.reconnect_attempts == 0 then some (returned tt t1) else elim (stop t1) [
        | returned ok t2 ↦ start meanwhile fuel (meanwhile t2.exchanges t2)
        | raised e2 t2 ↦ some (raised e2 t2)
      ]
    ]
