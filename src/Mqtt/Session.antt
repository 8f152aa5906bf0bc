-- ===== src/Mqtt/Session.antt =====
-- commlib/transports/mqtt.py: what the broker's session of a client holds, and that a transport hears
-- every topic it keeps.
use commlib_py.Prelude.{
  ℕ, zero, suc, ◌+◌, ◌≡◌, refl, ◌∙◌, Bool, true, false, ◌==◌, ◌||◌, Option, none, some, Bool-cases,
  inl, inr, List, [], ◌∷◌, if◌then◌else◌, arith,
}
use commlib_py.Prelude.Dict.{Dict, get, Distinct}
use commlib_py.Mqtt.Transport.{
  PahoEvent, MqttTransport, up, log, ask, restore_one, restore_all, restore_subscriptions,
  on_connect,
}

-- paho's client and a broker, for a client that asks for a clean session: whether the session holds a
-- filter, and which callback `message_callback_add` has set for it.
pub record Paho (Payload : Type 0) : Type 0 where
  pub holds : List (PahoEvent Payload) → ℕ → Bool
  pub handler : List (PahoEvent Payload) → ℕ → Option ℕ
  pub holds_subscribes :
      (es : List (PahoEvent Payload)) (topic qos x : ℕ)
      → up es ≡ true
      → holds (PahoEvent.subscribes topic qos ∷ es) x ≡ (topic == x || holds es x)
  pub holds_adds_callback :
      (es : List (PahoEvent Payload)) (topic callback x : ℕ)
      → holds (PahoEvent.adds_callback topic callback ∷ es) x ≡ holds es x
  pub holds_unsubscribes :
      (es : List (PahoEvent Payload)) (topic x : ℕ)
      → up es ≡ true
      → holds (PahoEvent.unsubscribes topic ∷ es) x ≡ (if topic == x then false else holds es x)
  pub holds_publishes :
      (es : List (PahoEvent Payload)) (topic qos x : ℕ) (payload : Payload)
      → holds (PahoEvent.publishes topic payload qos ∷ es) x ≡ holds es x
  pub handler_subscribes :
      (es : List (PahoEvent Payload)) (topic qos x : ℕ)
      → handler (PahoEvent.subscribes topic qos ∷ es) x ≡ handler es x
  pub handler_adds_callback :
      (es : List (PahoEvent Payload)) (topic callback x : ℕ)
      → handler (PahoEvent.adds_callback topic callback ∷ es) x
        ≡ (if topic == x then some callback else handler es x)
  pub handler_publishes :
      (es : List (PahoEvent Payload)) (topic qos x : ℕ) (payload : Payload)
      → handler (PahoEvent.publishes topic payload qos ∷ es) x ≡ handler es x

-- How many entries stand before that of a key.
unfoldable pub position : ℕ → Dict (ℕ × ℕ) → ℕ
position x [] = zero
position x ((topic, v) ∷ d) = if topic == x then zero else suc (position x d)

module _ {Payload : Type 0} (paho : Paho Payload) where
  -- A message of this topic reaches this callback.
  abbrev pub Hears : MqttTransport Payload → ℕ → ℕ → Type 0
  Hears t x callback = (paho.holds t.events x ≡ true) × (paho.handler t.events x ≡ some callback)

  -- While the connection is up, every topic of `_subscriptions` reaches its callback.
  abbrev pub HearsAll : MqttTransport Payload → Type 0
  HearsAll t =
      Distinct t.subscriptions
      × (up t.events ≡ true
          → (x callback qos : ℕ) → get x t.subscriptions ≡ some (callback, qos)
          → Hears t x callback)

  module _ (refuses : ℕ → Bool) where
    restore_one_taken :
        (topic callback qos x : ℕ) (t : MqttTransport Payload)
        → up t.events ≡ true
        → refuses t.exchanges ≡ false
        → (up (restore_one refuses topic callback qos t).events ≡ true)
          × ((restore_one refuses topic callback qos t).exchanges ≡ t.exchanges + 1)
          × (paho.holds (restore_one refuses topic callback qos t).events x
              ≡ (topic == x || paho.holds t.events x))
          × (paho.handler (restore_one refuses topic callback qos t).events x
              ≡ (if topic == x then some callback else paho.handler t.events x))
    unfolding restore_one ask log up
    restore_one_taken topic callback qos x t u r =
        let es : List (PahoEvent Payload) = PahoEvent.subscribes topic qos ∷ t.events in
        (
          ground arith,
          ground arith,
          ground (
            arith,
            paho.holds_subscribes t.events topic qos x u,
            paho.holds_adds_callback es topic callback x,
          ),
          ground (
            arith,
            paho.handler_subscribes t.events topic qos x,
            paho.handler_adds_callback es topic callback x,
          ),
        )

    restore_one_apart :
        (topic callback qos x : ℕ) (t : MqttTransport Payload)
        → up t.events ≡ true
        → (topic == x) ≡ false
        → (up (restore_one refuses topic callback qos t).events ≡ true)
          × ((restore_one refuses topic callback qos t).exchanges ≡ t.exchanges + 1)
          × (paho.holds (restore_one refuses topic callback qos t).events x ≡ paho.holds t.events x)
          × (paho.handler (restore_one refuses topic callback qos t).events x
              ≡ paho.handler t.events x)
    unfolding restore_one ask log up
    restore_one_apart topic callback qos x t u r =
        let es : List (PahoEvent Payload) = PahoEvent.subscribes topic qos ∷ t.events in
        (
          ground arith,
          ground arith,
          ground (
            arith,
            paho.holds_subscribes t.events topic qos x u,
            paho.holds_adds_callback es topic callback x,
          ),
          ground (
            arith,
            paho.handler_subscribes t.events topic qos x,
            paho.handler_adds_callback es topic callback x,
          ),
        )

    restore_all_absent :
        (x : ℕ) (d : Dict (ℕ × ℕ)) (t : MqttTransport Payload)
        → up t.events ≡ true
        → get x d ≡ none
        → (paho.holds (restore_all refuses d t).events x ≡ paho.holds t.events x)
          × (paho.handler (restore_all refuses d t).events x ≡ paho.handler t.events x)
    unfolding restore_all get
    restore_all_absent x [] t u g = (refl, refl)
    restore_all_absent x ((topic, (callback, qos)) ∷ d) t u g =
        let apart : (topic == x) ≡ false = ground arith in
        let (u1, n1, h1, c1) = restore_one_apart topic callback qos x t u apart in
        let (h, c) =
          restore_all_absent x d (restore_one refuses topic callback qos t) u1 (ground arith) in
        (h ∙ h1, c ∙ c1)

    restore_all-Hears :
        (x callback qos : ℕ) (d : Dict (ℕ × ℕ)) (t : MqttTransport Payload)
        → up t.events ≡ true
        → Distinct d
        → get x d ≡ some (callback, qos)
        → refuses (t.exchanges + position x d) ≡ false
        → Hears (restore_all refuses d t) x callback
    unfolding restore_all get position
    restore_all-Hears x callback qos [] t u o g r = absurd (ground arith)
    restore_all-Hears x callback qos ((topic, (c, q)) ∷ d) t u o g r =
        elim (Bool-cases (topic == x)) [
          | inl same ↦
              let (u1, n1, h1, c1) = restore_one_taken topic c q x t u (ground arith) in
              let (h, k) =
                restore_all_absent x d (restore_one refuses topic c q t) u1 (ground arith) in
              (ground arith, ground arith)
          | inr apart ↦
              let (u1, n1, h1, c1) = restore_one_apart topic c q x t u apart in
              restore_all-Hears x callback qos d (restore_one refuses topic c q t) u1 o.1
                (ground arith) (ground arith)
        ]

    -- When the broker accepts a connection, first or again, every topic of `_subscriptions` whose own
    -- subscription paho does not refuse reaches its callback again, whatever becomes of the others.
    pub on_connect_restores :
        (x callback qos : ℕ) (t : MqttTransport Payload)
        → Distinct t.subscriptions
        → get x t.subscriptions ≡ some (callback, qos)
        → refuses (t.exchanges + position x t.subscriptions) ≡ false
        → Hears (on_connect refuses 0 (log PahoEvent.accepts t)) x callback
    unfolding on_connect restore_subscriptions log up
    on_connect_restores x callback qos t o g r =
        restore_all-Hears x callback qos t.subscriptions
          (record t { connected = true; events = PahoEvent.accepts ∷ t.events }) refl o g r
