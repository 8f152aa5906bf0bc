-- ===== src/Mqtt/Start.antt =====
-- commlib/transports/mqtt.py: the attempts of `start`.
use commlib_py.Prelude.{
  ℕ, zero, suc, ◌+◌, ◌≡◌, ◌≢◌, ◌<◌, refl, ◌∙◌, Bool, true, false, none, some, List, ◌∷◌, arith,
  ==_ne,
}
use commlib_py.Mqtt.Transport.{
  PahoEvent, MqttTransport, returned, log, ask, dial, connect, disconnect, stop, start,
}

module _ {Payload : Type 0} (refuses : ℕ → Bool)
    (meanwhile : ℕ → MqttTransport Payload → MqttTransport Payload) where
  -- A `start` that fails and is tried again: the client is made, asked, and stopped.
  abbrev pub tried : MqttTransport Payload → MqttTransport Payload
  tried t = record t {
    has_client = true;
    stopped = true;
    exchanges = t.exchanges + 1;
    events = PahoEvent.disconnects ∷ PahoEvent.loop_stops ∷ PahoEvent.makes ∷ t.events;
  }

  start_fails :
      (fuel : ℕ) (t : MqttTransport Payload)
      → ((n : ℕ) (u : MqttTransport Payload) → meanwhile n u ≡ u)
      → t.reconnect_attempts ≢ 0
      → t.connected ≡ false
      → refuses t.exchanges ≡ true
      → start refuses meanwhile (suc fuel) t ≡ start refuses meanwhile fuel (tried t)
  unfolding start connect dial ask stop disconnect log
  start_fails fuel t still a c r =
      ground (arith, still (t.exchanges + 1) (tried t), ==_ne t.reconnect_attempts 0 a)

  -- With any number of attempts but 0, and if nothing else touches the transport, `start` never gives up: while the broker is away it neither
  -- returns nor raises, however many attempts were asked for.
  pub start_unbounded :
      (fuel : ℕ) (t : MqttTransport Payload)
      → ((n : ℕ) (u : MqttTransport Payload) → meanwhile n u ≡ u)
      → t.reconnect_attempts ≢ 0
      → t.connected ≡ false
      → ((n : ℕ) → refuses n ≡ true)
      → start refuses meanwhile fuel t ≡ none
  start_unbounded zero t still a c r = unfold start in refl
  start_unbounded (suc fuel) t still a c r =
      start_fails fuel t still a c (r t.exchanges) ∙ start_unbounded fuel (tried t) still a c r

  -- With any number of attempts but 0, and if nothing else touches the transport, `start` returns as soon
  -- as the broker is back: after k refusals
  -- the attempt that follows makes a client that is asked to connect, and the transport is not stopped.
  pub start_returns :
      (k : ℕ) (t : MqttTransport Payload)
      → ((n : ℕ) (u : MqttTransport Payload) → meanwhile n u ≡ u)
      → t.reconnect_attempts ≢ 0
      → t.connected ≡ false
      → ((i : ℕ) → i < k → refuses (t.exchanges + i) ≡ true)
      → refuses (t.exchanges + k) ≡ false
      → (t1 : MqttTransport Payload) × (start refuses meanwhile (suc k) t ≡ some (returned tt t1))
        × (t1.exchanges ≡ t.exchanges + k + 1)
        × (t1.stopped ≡ false)
        × (t1.subscriptions ≡ t.subscriptions)
        × (es : List (PahoEvent Payload)) × (t1.events
            ≡ PahoEvent.loop_starts ∷ PahoEvent.connects ∷ PahoEvent.makes ∷ es)
  start_returns zero t still a c down up_again = (
    record t {
      has_client = true;
      stopped = false;
      exchanges = t.exchanges + 1;
      events = PahoEvent.loop_starts ∷ PahoEvent.connects ∷ PahoEvent.makes ∷ t.events;
    },
    unfold start connect dial ask log in ground arith,
    omega arith,
    refl,
    refl,
    t.events,
    refl,
  )
  start_returns (suc k) t still a c down up_again =
      let (t1, ends, n, s, subs, es, e) =
        start_returns k (tried t) still a c (λ i l. ground (arith, down (suc i))) (ground arith) in
      (
        t1,
        start_fails (suc k) t still a c (ground (arith, down 0)) ∙ ends,
        omega (arith, n),
        s,
        subs,
        es,
        e,
      )
