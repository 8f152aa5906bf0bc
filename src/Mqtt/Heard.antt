-- ===== src/Mqtt/Heard.antt =====
-- commlib/transports/mqtt.py: a transport hears every topic it keeps, whatever is subscribed, published,
-- lost and restored, as long as nothing is refused and nothing is unsubscribed.
use mathlib.Core.Path.{subst, sym}
use commlib_py.Prelude.{
  ℕ, ◌+◌, ◌≡◌, ◌≢◌, refl, ap, ◌∙◌, ==_ne, Bool, true, false, ◌==◌, Option, none, some, Bool-cases,
  inl, inr, List, [], ◌∷◌, arith,
}
use commlib_py.Prelude.Dict.{Dict, get, put, get-put, Distinct, Distinct-put}
use commlib_py.Mqtt.Transport.{
  PahoEvent, MqttTransport, Result, returned, raised, assertion_error, connection_error, up,
  new_mqtt_transport, log, on_disconnect, ask, dial, connect, restore_one, restore_all,
  restore_subscriptions, on_connect, publish, end_subscribe, subscribe, disconnect, stop,
}
use commlib_py.Mqtt.Session.{Paho, Hears, HearsAll, position, on_connect_restores}

-- The transport that a method leaves, whether it returns or raises.
abbrev pub left_by : {Payload A : Type 0} → Result Payload A → MqttTransport Payload
left_by (returned a t) = t
left_by (raised e t) = t

module _ {Payload : Type 0} (refuses : ℕ → Bool) (transform slashes : ℕ → ℕ) where
  -- What happens to a transport, but for `unsubscribe`: its methods are called, the connection is lost, and
  -- the broker accepts it or does not.
  pub data Step (t : MqttTransport Payload) : MqttTransport Payload → Type 0 where
    subscribing :
        (topic : Option ℕ) (callback qos : ℕ)
        → Step t (left_by (subscribe refuses transform topic callback qos t))
    publishing :
        (topic : ℕ) (payload : Payload) (qos : ℕ)
        → Step t (left_by (publish refuses slashes topic payload qos t))
    connecting : Step t (left_by (connect refuses t))
    stopping : Step t (left_by (stop t))
    disconnecting : Step t (left_by (disconnect t))
    lost : (rc : ℕ) → Step t (on_disconnect rc (log PahoEvent.drops t))
    accepted : Step t (on_connect refuses 0 (log PahoEvent.accepts t))
    rejected : (rc : ℕ) → rc ≢ 0 → Step t (on_connect refuses rc t)

  pub data Reach (t : MqttTransport Payload) : MqttTransport Payload → Type 0 where
    here : Reach t t
    next : {u v : MqttTransport Payload} → Reach t u → Step u v → Reach t v

  module _ (paho : Paho Payload) where
    subscribe-Hears :
        (topic callback qos x c q : ℕ) (t : MqttTransport Payload)
        → ((n : ℕ) → refuses n ≡ false)
        → HearsAll paho t
        → up t.events ≡ true
        → get x (put (transform topic) (callback, qos) t.subscriptions) ≡ some (c, q)
        → Hears paho
            (record t {
              exchanges = t.exchanges + 1;
              events =
                  PahoEvent.adds_callback (transform topic) callback
                  ∷ PahoEvent.subscribes (transform topic) qos
                  ∷ t.events;
            })
            x
            c
    subscribe-Hears topic callback qos x c q t free (o, h) u g =
        let y = transform topic in
        let es : List (PahoEvent Payload) = PahoEvent.subscribes y qos ∷ t.events in
        let found = get-put y x (callback, qos) t.subscriptions in
        let holds1 = paho.holds_adds_callback es y callback x in
        let holds2 = paho.holds_subscribes t.events y qos x u in
        let handler1 = paho.handler_adds_callback es y callback x in
        let handler2 = paho.handler_subscribes t.events y qos x in
        elim (Bool-cases (y == x)) [
          | inl same ↦ (ground arith, ground arith)
          | inr apart ↦ let heard = h u x c q (ground arith) in (ground arith, ground arith)
        ]

    subscribe-HearsAll :
        (topic : Option ℕ) (callback qos : ℕ) (t : MqttTransport Payload)
        → ((n : ℕ) → refuses n ≡ false)
        → HearsAll paho t
        → HearsAll paho (left_by (subscribe refuses transform topic callback qos t))
    unfolding subscribe end_subscribe ask log up
    subscribe-HearsAll none callback qos t free h = h
    subscribe-HearsAll (some topic) callback qos t free (o, h) =
        let y = transform topic in
        let u : MqttTransport Payload = record t {
          subscriptions = put y (callback, qos) t.subscriptions;
          exchanges = t.exchanges + 1;
          events = PahoEvent.adds_callback y callback ∷ PahoEvent.subscribes y qos ∷ t.events;
        } in
        elim (Bool-cases t.has_client) [
          | inl made ↦
              let same : subscribe refuses transform (some topic) callback qos t
                  ≡ returned (some y) u =
                ground (arith, free t.exchanges) in
              subst (λ r. HearsAll paho (left_by r)) (sym same)
                (
                  Distinct-put y (callback, qos) t.subscriptions o,
                  λ l x c q g. subscribe-Hears topic callback qos x c q t free (o, h) l g,
                )
          | inr unmade ↦
              let same : subscribe refuses transform (some topic) callback qos t
                  ≡ raised assertion_error t =
                ground arith in
              subst (λ r. HearsAll paho (left_by r)) (sym same) (o, h)
        ]

    publish-HearsAll :
        (topic : ℕ) (payload : Payload) (qos : ℕ) (t : MqttTransport Payload)
        → ((n : ℕ) → refuses n ≡ false)
        → HearsAll paho t
        → HearsAll paho (left_by (publish refuses slashes topic payload qos t))
    unfolding publish ask log up
    publish-HearsAll topic payload qos t free (o, h) =
        let y = slashes topic in
        let u : MqttTransport Payload = record t {
          exchanges = t.exchanges + 1;
          events = PahoEvent.publishes y payload qos ∷ t.events;
        } in
        elim (Bool-cases t.has_client) [
          | inl made ↦
              let same : publish refuses slashes topic payload qos t ≡ returned tt u =
                ground (arith, free t.exchanges) in
              subst (λ r. HearsAll paho (left_by r)) (sym same)
                (
                  o,
                  λ l x c q g. (
                    paho.holds_publishes t.events y qos x payload ∙ (h l x c q g).0,
                    paho.handler_publishes t.events y qos x payload ∙ (h l x c q g).1,
                  ),
                )
          | inr unmade ↦
              let same : publish refuses slashes topic payload qos t ≡ raised assertion_error t =
                ground arith in
              subst (λ r. HearsAll paho (left_by r)) (sym same) (o, h)
        ]

    -- A transport that is not connected hears nothing, and need not.
    silent-HearsAll :
        (t u : MqttTransport Payload)
        → HearsAll paho t
        → u.subscriptions ≡ t.subscriptions
        → up u.events ≡ false
        → HearsAll paho u
    silent-HearsAll t u h same d = (subst Distinct (sym same) h.0, λ l. absurd (ground arith))

    connect-HearsAll :
        (t : MqttTransport Payload) → HearsAll paho t → HearsAll paho (left_by (connect refuses t))
    unfolding connect dial ask log up
    connect-HearsAll t (o, h) = elim (Bool-cases t.connected) [
      | inl connected ↦
          let same : connect refuses t ≡ raised connection_error t = ground arith in
          subst (λ r. HearsAll paho (left_by r)) (sym same) (o, h)
      | inr apart ↦
          silent-HearsAll t (left_by (connect refuses t)) (o, h) (ground arith) (ground arith)
    ]

    disconnect-HearsAll :
        (t : MqttTransport Payload) → HearsAll paho t → HearsAll paho (left_by (disconnect t))
    unfolding disconnect log up
    disconnect-HearsAll t (o, h) = elim (Bool-cases t.has_client) [
      | inl made ↦ silent-HearsAll t (left_by (disconnect t)) (o, h) (ground arith) (ground arith)
      | inr unmade ↦
          let same : disconnect t ≡ raised assertion_error t = ground arith in
          subst (λ r. HearsAll paho (left_by r)) (sym same) (o, h)
    ]

    lost-HearsAll :
        (rc : ℕ) (t : MqttTransport Payload)
        → HearsAll paho t
        → HearsAll paho (on_disconnect rc (log PahoEvent.drops t))
    unfolding on_disconnect log up
    lost-HearsAll rc t h =
        silent-HearsAll t (on_disconnect rc (log PahoEvent.drops t)) h (ground arith) (ground arith)

    rejected-HearsAll :
        (rc : ℕ) (t : MqttTransport Payload)
        → rc ≢ 0
        → HearsAll paho t
        → HearsAll paho (on_connect refuses rc t)
    unfolding on_connect
    rejected-HearsAll rc t n h = rw (==_ne rc 0 n) h

    restore_all-subscriptions :
        (d : Dict (ℕ × ℕ)) (t : MqttTransport Payload)
        → (restore_all refuses d t).subscriptions ≡ t.subscriptions
    unfolding restore_all restore_one ask log
    restore_all-subscriptions [] t = refl
    restore_all-subscriptions ((topic, (callback, qos)) ∷ d) t =
        restore_all-subscriptions d (restore_one refuses topic callback qos t) ∙ ground arith

    accepted-HearsAll :
        (t : MqttTransport Payload)
        → ((n : ℕ) → refuses n ≡ false)
        → HearsAll paho t
        → HearsAll paho (on_connect refuses 0 (log PahoEvent.accepts t))
    unfolding on_connect restore_subscriptions log
    accepted-HearsAll t free (o, h) =
        let t1 = record t { connected = true; events = PahoEvent.accepts ∷ t.events } in
        let same = restore_all-subscriptions t.subscriptions t1 in
        (
          subst Distinct (sym same) o,
          λ l x c q g.
              on_connect_restores paho refuses x c q t o (ap (get x) (sym same) ∙ g)
                (free (t.exchanges + position x t.subscriptions)),
        )

    step-HearsAll :
        (t u : MqttTransport Payload)
        → ((n : ℕ) → refuses n ≡ false)
        → Step t u
        → HearsAll paho t
        → HearsAll paho u
    unfolding stop
    step-HearsAll t u free (subscribing topic callback qos) h =
        subscribe-HearsAll topic callback qos t free h
    step-HearsAll t u free (publishing topic payload qos) h =
        publish-HearsAll topic payload qos t free h
    step-HearsAll t u free connecting h = connect-HearsAll t h
    step-HearsAll t u free stopping h = disconnect-HearsAll (record t { stopped = true }) h
    step-HearsAll t u free disconnecting h = disconnect-HearsAll t h
    step-HearsAll t u free (lost rc) h = lost-HearsAll rc t h
    step-HearsAll t u free accepted h = accepted-HearsAll t free h
    step-HearsAll t u free (rejected rc n) h = rejected-HearsAll rc t n h

    reach-HearsAll :
        (t u : MqttTransport Payload)
        → ((n : ℕ) → refuses n ≡ false)
        → Reach t u
        → HearsAll paho t
        → HearsAll paho u
    reach-HearsAll t _ free here h = h
    reach-HearsAll t u free (next {u = v} reach step) h =
        step-HearsAll v u free step (reach-HearsAll t v free reach h)

    -- If paho refuses no call, then after any sequence of subscriptions, publications, connects, stops, losses
    -- of the connection and answers to it, without an `unsubscribe`, a transport whose connection is up
    -- hears each topic of `_subscriptions` with the callback that was given last.
    pub Reach-Hears :
        (attempts x callback qos : ℕ) (t : MqttTransport Payload)
        → ((n : ℕ) → refuses n ≡ false)
        → Reach (new_mqtt_transport attempts) t
        → up t.events ≡ true
        → get x t.subscriptions ≡ some (callback, qos)
        → Hears paho t x callback
    unfolding new_mqtt_transport get
    Reach-Hears attempts x callback qos t free reach u g =
        (reach-HearsAll (new_mqtt_transport attempts) t free reach
            (tt, λ l y c q e. absurd (ground arith))).1
          u x callback qos g
