-- ===== src/Mqtt/Dropped.antt =====
-- commlib/transports/mqtt.py: what is left of a transport when paho reconnects it: topics that had been
-- unsubscribed, and the flag of one that was told not to reconnect.
use commlib_py.Prelude.{
  ℕ, ◌+◌, ◌≡◌, ◌≢◌, refl, ◌∙◌, Bool, true, false, Option, none, some, List, [], ◌∷◌, arith, ==_ne,
}
use commlib_py.Prelude.Dict.{Dict, get, Distinct}
use commlib_py.Rpc.Messages.{Argument, prepare_call_data}
use commlib_py.Mqtt.Transport.{
  PahoEvent, MqttTransport, returned, up, is_connected, log, ask, unsubscribe, on_disconnect,
  on_connect, restore_one, restore_all, restore_subscriptions,
}
use commlib_py.Mqtt.Session.{Paho, Hears, position, on_connect_restores}
use commlib_py.Mqtt.Rpc.{
  MqttClient, Poll, MqttCodec, timeout_error, wait_for_response, end_call, call,
}
use commlib_py.Mqtt.Calls.{waiting, send_up}

module _ {Payload : Type 0} (refuses : ℕ → Bool) where
  -- The connection is lost, and paho makes another one that the broker accepts.
  abbrev pub reconnected : ℕ → MqttTransport Payload → MqttTransport Payload
  reconnected rc t =
      on_connect refuses 0 (log PahoEvent.accepts (on_disconnect rc (log PahoEvent.drops t)))

  restore_all_keeps :
      (d : Dict (ℕ × ℕ)) (t : MqttTransport Payload)
      → (up (restore_all refuses d t).events ≡ up t.events)
        × ((restore_all refuses d t).has_client ≡ t.has_client)
        × ((restore_all refuses d t).stopped ≡ t.stopped)
  unfolding restore_all restore_one ask log up
  restore_all_keeps [] t = (refl, refl, refl)
  restore_all_keeps ((topic, (callback, qos)) ∷ d) t =
      let (u, h, s) = restore_all_keeps d (restore_one refuses topic callback qos t) in
      (u ∙ ground arith, h ∙ ground arith, s ∙ ground arith)

  -- `unsubscribe` takes a topic out of the broker's session, but not out of `_subscriptions`: once the
  -- connection was lost and is back, the messages of the topic reach the old callback again.
  pub unsubscribe_undone :
      (paho : Paho Payload) (x callback qos rc : ℕ) (t : MqttTransport Payload)
      → Distinct t.subscriptions
      → get x t.subscriptions ≡ some (callback, qos)
      → is_connected t ≡ true
      → ((n : ℕ) → refuses n ≡ false)
      → (t1 : MqttTransport Payload) × (unsubscribe x t ≡ returned tt t1)
        × (paho.holds t1.events x ≡ false)
        × Hears paho (reconnected rc t1) x callback
  unfolding unsubscribe log is_connected
  unsubscribe_undone paho x callback qos rc t o g u free =
      let t1 : MqttTransport Payload = record t { events = PahoEvent.unsubscribes x ∷ t.events } in
      let t2 = on_disconnect rc (log PahoEvent.drops t1) in
      let same : t2.subscriptions ≡ t.subscriptions = unfold on_disconnect log in ground arith in
      (
        t1,
        ground arith,
        ground (arith, paho.holds_unsubscribes t.events x x (ground arith)),
        on_connect_restores paho refuses x callback qos t2 (rw same o) (rw same g)
            (free (t2.exchanges + position x t2.subscriptions)),
      )

  -- With no attempts to reconnect, a lost connection stops the transport; but paho connects again, and the
  -- flag stays: the transport is connected, and each `call` of its client gives up at its first look.
  pub call_after_drop :
      {Value : Type 0} (codec : MqttCodec Value Payload) (transform slashes : ℕ → ℕ) (typed : Bool)
      (read_response : Value → Option Value) (rc wrapper name reply : ℕ) (arg : Argument Value)
      (fields : Value) (p : Poll Payload) (ps : List (Poll Payload)) (c : MqttClient Value Payload)
      (t : MqttTransport Payload)
      → ((n : ℕ) → refuses n ≡ false)
      → t.reconnect_attempts ≡ 0
      → is_connected t ≡ true
      → t.stopped ≡ false
      → rc ≢ 0
      → rc ≢ 4
      → rc ≢ 5
      → c.transport ≡ reconnected rc t
      → c.response ≡ none
      → prepare_call_data typed arg ≡ some fields
      → (c1 : MqttClient Value Payload) × (is_connected c.transport ≡ true)
        × (call codec refuses transform slashes typed read_response wrapper name reply arg
              (p ∷ ps)
              c
            ≡ timeout_error c1)
  call_after_drop codec transform slashes typed read_response rc wrapper name reply arg fields p ps
        c t free a u s n0 n4 n5 e o m =
      let t1 = log PahoEvent.accepts (on_disconnect rc (log PahoEvent.drops t)) in
      let t2 = record t1 { connected = true } in
      let (k1, k2, k3) = restore_all_keeps t2.subscriptions t2 in
      let s2 : t2.stopped ≡ true =
        unfold on_disconnect log in ground (arith, ==_ne rc 0 n0, ==_ne rc 4 n4, ==_ne rc 5 n5) in
      let h2 : t2.has_client ≡ true = unfold on_disconnect log is_connected in ground arith in
      let u2 : up t2.events ≡ true = unfold on_disconnect log up in ground arith in
      let r : reconnected rc t ≡ restore_all refuses t2.subscriptions t2 =
        unfold on_connect restore_subscriptions in refl in
      let w = waiting codec refuses transform slashes wrapper name reply fields c in
      let made : c.transport.has_client ≡ true = ground (arith, e, r, k2, h2) in
      let stops : c.transport.stopped ≡ true = ground (arith, e, r, k3, s2) in
      let is_up : up c.transport.events ≡ true = ground (arith, e, r, k1, u2) in
      (
        w,
        unfold is_connected in ground (arith, made, is_up),
        unfold call wait_for_response end_call is_connected up in
            ground (
              arith,
              send_up codec refuses transform slashes typed wrapper name reply arg fields c m made
                  (free c.transport.exchanges) (free (c.transport.exchanges + 1)),
            ),
      )
