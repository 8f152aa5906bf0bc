-- ===== src/Redis/Delivery.antt =====
-- commlib/transports/redis.py: from a wrapped publisher to a wrapped subscriber, WPublisher and WSubscriber.
use commlib_py.Prelude.{
  ℕ, suc, ◌+◌, ◌≡◌, refl, ◌∙◌, Bool, true, false, Option, none, some, ◌∷◌, arith,
}
use commlib_py.Mqtt.Pubsub.{Message, WPublisher, Noted, prepare_msg, call_back}
use commlib_py.Prelude.Dict.{Distinct}
use commlib_py.Redis.Queues.{Unanswered}
use commlib_py.Redis.Publish.{
  RedisPublisher, done, count_published, mpublish_on, wpublish_on, is_wrong, publish_up,
}
use commlib_py.Redis.Subscribers.{
  WSubscriber, hear, wsubscribe, run_wsubscriber, on_wmessage, heard_as, hear-wsubscribe,
}

module _ {Value Payload : Type 0} (encode : Value → Payload) (deserialize : Payload → Option Value)
    (link : ℕ → Bool) (taken : ℕ → Unanswered) (is_valid : ℕ → Bool) where
  -- While the server answers, a wrapped publisher whose type accepts a message publishes it once on its topic
  -- and counts it; a wrapped subscriber that subscribes to that topic and is run after that handles it with its
  -- new callback, called with the message's data, or with what the subscriber's type makes of them if it has
  -- one, when the server hands on what was published, if the serializer reads what it writes.
  pub hear-wpublish_on :
      (fuel : ℕ) (w : WPublisher) (msg : Message Value) (v : Value) (b : RedisPublisher Payload)
      (s s' : WSubscriber Value) (callback : Value → Noted)
      → ((n : ℕ) → link n ≡ true)
      → ((u : Value) → deserialize (encode u) ≡ some u)
      → b.transport.has_redis ≡ true
      → prepare_msg b.typed msg ≡ some v
      → is_wrong w.typed msg ≡ false
      → Distinct s.subs
      → wsubscribe is_valid w.topic callback s ≡ some s'
      → (b' : RedisPublisher Payload) × (wpublish_on link taken encode is_valid (suc fuel) w msg b
          ≡ some (done b'))
        × (b'.told ≡ (w.topic, encode v) ∷ b.told)
        × (b'.msg_seq ≡ b.msg_seq + 1)
        × (hear deserialize (run_wsubscriber s') (record { channel = w.topic; body = encode v })
            ≡ heard_as callback (elim (s.msg_type) [ none ↦ some v | some read ↦ read v ]))
  unfolding wpublish_on mpublish_on count_published wsubscribe on_wmessage call_back
  hear-wpublish_on fuel w msg v b s s' callback up reads h p x n e = (
    record b {
      transport = record b.transport { exchanges = b.transport.exchanges + 1 + 1 };
      told = (w.topic, encode v) ∷ b.told;
      msg_seq = b.msg_seq + 1;
    },
    ground (arith, p, x, e, publish_up link taken fuel w.topic (encode v) b.transport b.told up h),
    refl,
    refl,
    (hear-wsubscribe deserialize is_valid w.topic callback s s'
            (record { channel = w.topic; body = encode v }) n e).0
          refl
        ∙ ground (arith, reads v),
  )
