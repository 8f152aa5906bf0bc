-- ===== src/Mock/Delivery.antt =====
-- commlib/transports/mock.py: who hears a message.
use commlib_py.Prelude.{
  ℕ, ◌+◌, ◌≡◌, refl, true, false, ◌==◌, List, [], ◌∷◌, ◌++◌, if◌then◌else◌, arith, map, append-nil,
  append_assoc, sym, ap, ◌∙◌,
}
use commlib_py.Prelude.Dict.{get-put}
use commlib_py.Mock.Bus.{
  Bus, Subscriber, entry_of, call_all, publish, subscribe, run_subscriber, stop_subscriber,
}

abbrev pub count : ℕ → List ℕ → ℕ
count x [] = 0
count x (y ∷ ys) = (if y == x then 1 else 0) + count x ys

count-append : (x : ℕ) (ys zs : List ℕ) → count x (ys ++ zs) ≡ count x ys + count x zs
count-append x [] zs = omega arith
count-append x (y ∷ ys) zs = omega (arith, count-append x ys zs)

module _ {Value : Type 0} where
  -- The callbacks hear the message one after the other.
  call_all_lem :
      (m : Value) (cs : List ℕ) (heard : List (ℕ × Value))
      → call_all m cs heard ≡ heard ++ map (λ c. (c, m)) cs
  unfolding call_all
  call_all_lem m [] heard = sym (append-nil heard)
  call_all_lem m (c ∷ cs) heard =
      call_all_lem m cs (heard ++ (c, m) ∷ [])
      ∙ append_assoc heard ((c, m) ∷ []) (map (λ d. (d, m)) cs)

  -- What a message of topic t is heard by: its subscribers, in the order in which they came. The message
  -- joins those of the topic, and nothing else of the bus changes.
  pub publish_lem :
      (t : ℕ) (m : Value) (b : Bus Value)
      → let b' = publish t m b in
        (b'.heard ≡ b.heard ++ map (λ c. (c, m)) (entry_of t b.subscribers))
        × (b'.subscribers ≡ b.subscribers)
        × ((j : ℕ)
            → entry_of j b'.messages
              ≡ (if t == j then entry_of t b.messages ++ m ∷ [] else entry_of j b.messages))
  unfolding publish entry_of
  publish_lem t m b = (
    call_all_lem m (entry_of t b.subscribers) b.heard,
    refl,
    λ j. ground (arith, get-put t j (entry_of t b.messages ++ m ∷ []) b.messages),
  )

  entry_of-subscribe :
      (t c : ℕ) (b : Bus Value)
      → entry_of t (subscribe t c b).subscribers ≡ entry_of t b.subscribers ++ c ∷ []
  unfolding subscribe entry_of
  entry_of-subscribe t c b =
      ground (arith, get-put t t (entry_of t b.subscribers ++ c ∷ []) b.subscribers)

  first_run :
      (s : Subscriber) (b : Bus Value)
      → s.has_onmessage ≡ true
      → s.callback_registered ≡ false
      → ((run_subscriber s b).1 ≡ subscribe s.topic s.id b)
        × ((run_subscriber s b).0 ≡ record s {
          transport_connected = true;
          callback_registered = true;
          connected_state = true;
        })
  unfolding run_subscriber
  first_run s b h r = ground arith

  later_run :
      (s : Subscriber) (b : Bus Value) → s.callback_registered ≡ true → (run_subscriber s b).1 ≡ b
  unfolding run_subscriber
  later_run s b r = ground arith

  -- A subscriber that is run, stopped and run again is registered once: the second run leaves the bus
  -- as the first one did, with one more entry for the subscriber's callback.
  pub run_subscriber-stop_subscriber :
      (s : Subscriber) (b : Bus Value)
      → s.has_onmessage ≡ true
      → s.callback_registered ≡ false
      → let first = run_subscriber s b in
        let stopped = stop_subscriber first.0 first.1 in
        let again = run_subscriber stopped.0 stopped.1 in
        (again.1 ≡ first.1)
        × (count s.id (entry_of s.topic again.1.subscribers)
            ≡ count s.id (entry_of s.topic b.subscribers) + 1)
  unfolding stop_subscriber
  run_subscriber-stop_subscriber s b h r =
      let first = run_subscriber s b in
      let stopped = stop_subscriber first.0 first.1 in
      let (on_bus, itself) = first_run s b h r in
      let same : (run_subscriber stopped.0 stopped.1).1 ≡ first.1 =
        later_run stopped.0 stopped.1 (ap (λ x. x.callback_registered) itself) in
      (
        same,
        ap (λ x. count s.id (entry_of s.topic x.subscribers)) (same ∙ on_bus)
            ∙ (ap (count s.id) (entry_of-subscribe s.topic s.id b)
                ∙ ground (arith, count-append s.id (entry_of s.topic b.subscribers) (s.id ∷ []))),
      )

  -- A subscriber that was run and then stopped, so that it is disconnected, still hears the messages of
  -- its topic, after the earlier subscribers.
  pub stop_subscriber-publish :
      (s : Subscriber) (m : Value) (b : Bus Value)
      → s.has_onmessage ≡ true
      → s.callback_registered ≡ false
      → let first = run_subscriber s b in
        let stopped = stop_subscriber first.0 first.1 in
        (stopped.0.connected_state ≡ false)
        × ((publish s.topic m stopped.1).heard
            ≡ b.heard ++ map (λ c. (c, m)) (entry_of s.topic b.subscribers ++ s.id ∷ []))
  unfolding stop_subscriber subscribe
  stop_subscriber-publish s m b h r =
      let (on_bus, itself) = first_run s b h r in
      (
        refl,
        ap (λ x. (publish s.topic m x).heard) on_bus
            ∙ ((publish_lem s.topic m (subscribe s.topic s.id b)).0
                ∙ ap (λ cs. (subscribe s.topic s.id b).heard ++ map (λ c. (c, m)) cs)
                    (entry_of-subscribe s.topic s.id b)),
      )
