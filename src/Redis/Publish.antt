-- ===== src/Redis/Publish.antt =====
-- commlib/transports/redis.py: RedisTransport.publish, and Publisher, MPublisher and WPublisher over it.
-- Topics are numbers, and what the server was told to publish is a list, the latest first. A command that is
-- not answered may have been carried out all the same: `taken n` says so for the n-th exchange, with its error. `encode` is
-- the serializer with the compression.
use commlib_py.Prelude.{
  ℕ, zero, suc, ◌+◌, ◌≡◌, Bool, true, false, Option, none, some, List, ◌∷◌, if◌then◌else◌, arith,
}
use commlib_py.Mqtt.Pubsub.{
  Message, mapping, pubsub_message, anything_else, WPublisher, prepare_msg,
}
use commlib_py.Redis.Transport.{Transport, is_connected, attempt_reconnect}
use commlib_py.Redis.Queues.{Unanswered, next}

-- How a publication ends: done, or with an exception, "Maximum connection attempts exceeded" or a TimeoutError.
pub data Published (Payload : Type 0) : Type 0 where
  published unpublished : Transport → List (ℕ × Payload) → Published Payload

pub record RedisPublisher (Payload : Type 0) : Type 0 where
  pub transport : Transport
  pub topic : Option ℕ
  -- `_msg_type is not None`
  pub typed : Bool
  pub msg_seq : ℕ
  -- what the server was told to publish
  pub told : List (ℕ × Payload)

-- How `publish` of a publisher ends: it returns, it raises before it sends, or its transport gives up.
pub data Publication (Payload : Type 0) : Type 0 where
  done raised : RedisPublisher Payload → Publication Payload

-- `topic if topic else self._topic`
unfoldable pub given_or : Option ℕ → Option ℕ → Option ℕ
given_or none own = own
given_or (some topic) own = some topic

-- `self._msg_type is not None and not isinstance(msg, PubSubMessage)`
unfoldable pub is_wrong : {Value : Type 0} → Bool → Message Value → Bool
is_wrong typed (pubsub_message v) = false
is_wrong typed (mapping v) = typed
is_wrong typed (anything_else v) = typed

module _ {Payload : Type 0} (link : ℕ → Bool) (taken : ℕ → Unanswered) where
  -- RedisTransport.publish, with the payload ready; `none` is no fuel left.
  unfoldable pub publish_payload :
      ℕ → ℕ → Payload → Transport → List (ℕ × Payload) → Option (Published Payload)
  unfolding next
  publish_payload zero topic p t told = none
  publish_payload (suc fuel) topic p t told =
      let answer = is_connected link t in
      elim (answer.0) [
        | false ↦ elim (attempt_reconnect link answer.1) [
          | none ↦ some (unpublished answer.1 told)
          | some (tried, t') ↦ publish_payload fuel topic p t' told
        ]
        | true ↦ elim (link answer.1.exchanges) [
          | true ↦ some (published (next answer.1) ((topic, p) ∷ told))
          | false ↦
              let lost = taken answer.1.exchanges in
              let told' = if lost.carried then (topic, p) ∷ told else told in
              elim (lost.times_out) [
                | true ↦ some (unpublished (next answer.1) told')
                | false ↦ elim (attempt_reconnect link (next answer.1)) [
                  | none ↦ some (unpublished (next answer.1) told')
                  | some (tried, t') ↦ publish_payload fuel topic p t' told'
                ]
              ]
        ]
      ]

  -- `self._msg_seq += 1`, unless the transport has raised
  unfoldable pub count_published :
      RedisPublisher Payload → Option (Published Payload) → Option (Publication Payload)
  count_published b none = none
  count_published b (some (published t told)) =
      some (done (record b { transport = t; told = told; msg_seq = b.msg_seq + 1 }))
  count_published b (some (unpublished t told)) =
      some (raised (record b { transport = t; told = told }))

  module _ {Value : Type 0} (encode : Value → Payload) (is_valid : ℕ → Bool) (fuel : ℕ) where
    -- Publisher.publish; a publisher without a topic sends `None`, which redis-py refuses.
    unfoldable pub publish_on :
        Message Value → Option ℕ → RedisPublisher Payload → Option (Publication Payload)
    unfolding publish_payload count_published
    publish_on msg topic b = elim (prepare_msg b.typed msg) [
      | none ↦ some (raised b)
      | some v ↦ elim (given_or topic b.topic) [
        | none ↦ some (raised b)
        | some x ↦ count_published b (publish_payload fuel x (encode v) b.transport b.told)
      ]
    ]

    -- MPublisher.publish
    unfoldable pub mpublish_on :
        Message Value → ℕ → RedisPublisher Payload → Option (Publication Payload)
    unfolding publish_payload count_published
    mpublish_on msg topic b =
        if is_valid topic
        then elim (prepare_msg b.typed msg) [
          | none ↦ some (raised b)
          | some v ↦ count_published b (publish_payload fuel topic (encode v) b.transport b.told)
        ]
        else some (raised b)

    -- WPublisher.publish, of a message that is not `None`
    unfoldable pub wpublish_on :
        WPublisher → Message Value → RedisPublisher Payload → Option (Publication Payload)
    unfolding mpublish_on is_wrong
    wpublish_on w msg b =
        if is_wrong w.typed msg then some (raised b) else mpublish_on msg w.topic b

  -- While the server answers, one exchange after the ping publishes the message once.
  pub publish_up :
      (fuel topic : ℕ) (p : Payload) (t : Transport) (told : List (ℕ × Payload))
      → ((n : ℕ) → link n ≡ true)
      → t.has_redis ≡ true
      → publish_payload (suc fuel) topic p t told
        ≡ some (published (record t { exchanges = t.exchanges + 1 + 1 }) ((topic, p) ∷ told))
  unfolding publish_payload is_connected next
  publish_up fuel topic p t told up h = ground (arith, up t.exchanges, up (t.exchanges + 1))
