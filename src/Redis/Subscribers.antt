-- ===== src/Redis/Subscribers.antt =====
-- commlib/transports/redis.py: RedisTransport._on_msg_internal, and the `_on_message` of Subscriber,
-- WSubscriber and PSubscriber with their `_unpack_comm_msg`. `deflate` is the decompression and `deserialize`
-- the serializer, `none` where they raise what a subscriber catches; `text_of` decodes the bytes of a channel.
use commlib_py.Prelude.{
  ℕ, ◌≡◌, Bool, true, false, Option, none, some, if◌then◌else◌, [], ◌∷◌, arith,
}
use commlib_py.Prelude.Dict.{Dict, Distinct, Distinct-put, get, put, get-put}
use commlib_py.Mqtt.Pubsub.{Noted, Subscriber, Handling, escapes_of, call_back}

-- The dict that redis-py hands on.
pub record RedisMessage (Payload : Type 0) : Type 0 where
  pub channel : ℕ
  pub body : Payload

-- A PSubscriber: its callback takes the data and the topic.
pub record PSubscriber (Value : Type 0) : Type 0 where
  pub onmessage : Option (Value → ℕ → Noted)
  pub msg_type : Option (Value → Option Value)

-- A WSubscriber: `_subs`, `msg_type(**data)`, if it has a type, and the callbacks that the transport has.
pub record WSubscriber (Value : Type 0) : Type 0 where
  pub subs : Dict (Value → Noted)
  pub bound : Dict (Value → Noted)
  pub msg_type : Option (Value → Option Value)

-- No callback is called, and nothing leaves `_on_message`.
abbrev pub unheard : {Value : Type 0} → Handling Value
unheard = record { called_with = none; escapes = false }

module _ {Value : Type 0} where
  -- What a callback is called with, if the data are of the subscriber's type.
  abbrev pub heard_as : (Value → Noted) → Option Value → Handling Value
  heard_as callback none = unheard
  heard_as callback (some m) = record { called_with = some m; escapes = escapes_of (callback m) }

  -- WSubscriber.subscribe; `none` is the ValueError of an invalid topic.
  unfoldable pub wsubscribe :
      (ℕ → Bool) → ℕ → (Value → Noted) → WSubscriber Value → Option (WSubscriber Value)
  wsubscribe is_valid topic callback w =
      if is_valid topic then some (record w { subs = put topic callback w.subs }) else none

  -- WSubscriber.run_forever, up to its loop, with a live transport: `msubscribe` takes the callbacks that are there
  -- then, and psubscribe sets each of them for its topic.
  unfoldable pub bind_all : Dict (Value → Noted) → Dict (Value → Noted) → Dict (Value → Noted)
  bind_all [] bound = bound
  bind_all ((topic, callback) ∷ subs) bound = bind_all subs (put topic callback bound)

  unfoldable pub run_wsubscriber : WSubscriber Value → WSubscriber Value
  unfolding bind_all
  run_wsubscriber w = record w { bound = bind_all w.subs w.bound }

  -- `self.onmessage(data, topic)`
  unfoldable pub call_with_topic : (Value → ℕ → Noted) → Value → ℕ → Handling (Value × ℕ)
  unfolding escapes_of
  call_with_topic callback v topic = record {
    called_with = some (v, topic);
    escapes = escapes_of (callback v topic);
  }

  module _ {Payload : Type 0} (deserialize : Payload → Option Value) where
    -- WSubscriber._on_message
    unfoldable pub on_wmessage :
        Option (Value → Option Value)
        → Option (Value → Noted)
        → RedisMessage Payload
        → Handling Value
    unfolding call_back
    on_wmessage msg_type callback m = elim (deserialize m.body) [
      | none ↦ unheard
      | some v ↦ elim callback [
        | none ↦ unheard
        | some f ↦ elim msg_type [
          | none ↦ call_back f v
          | some read ↦ elim (read v) [ none ↦ unheard | some w ↦ call_back f w ]
        ]
      ]
    ]

    -- Subscriber._on_message
    unfoldable pub on_rmessage : Subscriber Value → RedisMessage Payload → Handling Value
    unfolding call_back
    on_rmessage s m = elim (deserialize m.body) [
      | none ↦ unheard
      | some v ↦ elim (s.onmessage) [
        | none ↦ unheard
        | some f ↦ elim (s.msg_type) [
          | none ↦ call_back f v
          | some read ↦ elim (read v) [ none ↦ unheard | some w ↦ call_back f w ]
        ]
      ]
    ]

    module _ (text_of : ℕ → Option ℕ) where
      -- PSubscriber._unpack_comm_msg
      unfoldable pub unpack_pmessage : RedisMessage Payload → Option (Value × ℕ)
      unpack_pmessage m = elim (text_of m.channel) [
        | none ↦ none
        | some topic ↦ elim (deserialize m.body) [ none ↦ none | some v ↦ some (v, topic) ]
      ]

      -- PSubscriber._on_message
      unfoldable pub on_pmessage : PSubscriber Value → RedisMessage Payload → Handling (Value × ℕ)
      unfolding unpack_pmessage call_with_topic
      on_pmessage s m = elim (unpack_pmessage m) [
        | none ↦ unheard
        | some (v, topic) ↦ elim (s.onmessage) [
          | none ↦ unheard
          | some f ↦ elim (s.msg_type) [
            | none ↦ call_with_topic f v topic
            | some read ↦ elim (read v) [ none ↦ unheard | some w ↦ call_with_topic f w topic ]
          ]
        ]
      ]

    -- A message on a topic of a WSubscriber reaches the callback that the transport has for it.
    unfoldable pub hear : WSubscriber Value → RedisMessage Payload → Handling Value
    unfolding on_wmessage
    hear w m = elim (get m.channel w.bound) [
      | none ↦ unheard
      | some callback ↦ on_wmessage w.msg_type (some callback) m
    ]

-- RedisTransport._on_msg_internal: a payload that does not decompress raises outside the subscriber's `try`.
unfoldable pub on_msg_internal :
    {Payload A : Type 0}
    → Bool
    → (Payload → Option Payload)
    → (RedisMessage Payload → Handling A)
    → RedisMessage Payload
    → Handling A
on_msg_internal compressed deflate callback m =
    if compressed
    then elim (deflate m.body) [
      | none ↦ record { called_with = none; escapes = true }
      | some body ↦ callback (record m { body = body })
    ]
    else callback m

module _ {Value Payload : Type 0} (deserialize : Payload → Option Value) where
  get-bind_all :
      (k : ℕ) (subs bound : Dict (Value → Noted))
      → Distinct subs
      → get k (bind_all subs bound) ≡ elim (get k subs) [ none ↦ get k bound | some f ↦ some f ]
  unfolding bind_all get
  get-bind_all k [] bound d = ground arith
  get-bind_all k ((j, f) ∷ subs) bound (absent, d) =
      ground (arith, get-bind_all k subs (put j f bound) d, get-put j k f bound, absent)

  -- A WSubscriber that subscribes to a valid topic and is run after that handles a message on the topic with the new
  -- callback, and no older one; if it was run before and is not run again, nothing changes for any message.
  pub hear-wsubscribe :
      (is_valid : ℕ → Bool) (topic : ℕ) (callback : Value → Noted) (w w' : WSubscriber Value)
      (m : RedisMessage Payload)
      → Distinct w.subs
      → wsubscribe is_valid topic callback w ≡ some w'
      → (m.channel ≡ topic
          → hear deserialize (run_wsubscriber w') m
            ≡ on_wmessage deserialize w.msg_type (some callback) m)
        × (hear deserialize w' m ≡ hear deserialize w m)
  unfolding hear wsubscribe run_wsubscriber
  hear-wsubscribe is_valid topic callback w w' m d h =
      let subscribed : w' ≡ record w { subs = put topic callback w.subs } = ground (arith, h) in
      (
        λ e. ground (
          arith,
          e,
          subscribed,
          get-bind_all m.channel (put topic callback w.subs) w.bound
              (Distinct-put topic callback w.subs d),
          get-put topic m.channel callback w.subs,
        ),
        ground (arith, subscribed),
      )

  -- A PSubscriber handles a message as the Subscriber of the same type does whose callback is its own at the
  -- topic of the channel, if that is a text: the data that the callback gets is the same, and so is whether an
  -- exception leaves `_on_message`.
  pub on_pmessage_as_rmessage :
      (text_of : ℕ → Option ℕ) (s : PSubscriber Value) (r : Subscriber Value)
      (f : Value → ℕ → Noted) (topic : ℕ) (m : RedisMessage Payload)
      → s.onmessage ≡ some f
      → r ≡ record { onmessage = some (λ v. f v topic); msg_type = s.msg_type }
      → text_of m.channel ≡ some topic
      → ((on_pmessage deserialize text_of s m).escapes ≡ (on_rmessage deserialize r m).escapes)
        × ((on_pmessage deserialize text_of s m).called_with
            ≡ elim ((on_rmessage deserialize r m).called_with) [
              | none ↦ none
              | some v ↦ some (v, topic)
            ])
  unfolding on_pmessage on_rmessage unpack_pmessage call_back call_with_topic
  on_pmessage_as_rmessage text_of s r f topic m h j t =
      (ground (arith, h, j, t), ground (arith, h, j, t))

  -- With a compression, a payload that does not decompress leaves the transport's callback as an exception,
  -- whatever the subscriber is; without one, a payload that cannot be read is dropped.
  pub on_msg_internal_corrupt :
      (deflate : Payload → Option Payload) (s : Subscriber Value) (m : RedisMessage Payload)
      → deflate m.body ≡ none
      → deserialize m.body ≡ none
      → ((on_msg_internal true deflate (on_rmessage deserialize s) m).escapes ≡ true)
        × ((on_msg_internal false deflate (on_rmessage deserialize s) m).escapes ≡ false)
  unfolding on_msg_internal on_rmessage
  on_msg_internal_corrupt deflate s m h d = (ground (arith, h), ground (arith, d))
