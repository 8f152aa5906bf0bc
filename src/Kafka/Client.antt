-- ===== src/Kafka/Client.antt =====
-- commlib/transports/kafka.py: RPCClient, whose calls share one reply topic.
-- A correlation id is a number, and uuid4 gives each call a new one; so is the object `entry` of a call. The thread
-- that reads the reply topic and the threads that call come in any order. The message object `_comm_obj` is shared
-- by them all, without a lock: a call writes its id there in one step, and reads it back in a later one.
use commlib_py.Prelude.{ℕ, Option, none, some, List, [], ◌∷◌}
use commlib_py.Prelude.Dict.{Dict, get, put, remove}

-- How a call ends: with the data of its reply, or with an RPCClientTimeoutError.
pub data Called (Value : Type 0) : Type 0 where
  returned : Value → Called Value
  timed_out : Called Value

pub record KafkaClient (Value : Type 0) : Type 0 where
  -- `_comm_obj.header.correlation_id`
  pub comm_id : Option ℕ
  -- `_pending`: the entry of each id
  pub pending : Dict ℕ
  -- the data of each entry, `none` for an event that is not set
  pub entries : Dict (Option Value)

-- What happens to the client: a call stamps the message with its id, begins with an entry, or ends with its id and
-- entry. A reply that cannot be decoded is only logged.
pub data Event (Value : Type 0) : Type 0 where
  stamps : ℕ → Event Value
  begins : ℕ → Event Value
  replies : ℕ → Value → Event Value
  ends : ℕ → ℕ → Event Value
  garbled : Event Value

module _ {Value : Type 0} where
  -- _prepare_request, up to the id
  unfoldable pub stamp : ℕ → KafkaClient Value → KafkaClient Value
  stamp corr_id c = record c { comm_id = some corr_id }

  -- `model_dump`, and `call` up to the publication: its id is the one that the message has by then.
  unfoldable pub begin_call : ℕ → KafkaClient Value → KafkaClient Value
  begin_call entry c = elim (c.comm_id) [
    | none ↦ c
    | some corr_id ↦ record c {
      pending = put corr_id entry c.pending;
      entries = put entry none c.entries;
    }
  ]

  -- _on_reply
  unfoldable pub on_reply : ℕ → Value → KafkaClient Value → KafkaClient Value
  on_reply corr_id fields c = elim (get corr_id c.pending) [
    | none ↦ c
    | some entry ↦ record c { entries = put entry (some fields) c.entries }
  ]

  -- The end of `call`, once its event is set or its time is over
  unfoldable pub end_call : ℕ → ℕ → KafkaClient Value → Called Value × KafkaClient Value
  end_call corr_id entry c =
      let popped = record c { pending = remove corr_id c.pending } in
      elim (get entry c.entries) [
        | none ↦ (timed_out, popped)
        | some answer ↦ elim answer [
          | none ↦ (timed_out, popped)
          | some fields ↦ (returned fields, popped)
        ]
      ]

  unfoldable pub happen : Event Value → KafkaClient Value → KafkaClient Value
  unfolding stamp begin_call on_reply end_call
  happen (stamps n) c = stamp n c
  happen (begins m) c = begin_call m c
  happen (replies n fields) c = on_reply n fields c
  happen (ends n m) c = (end_call n m c).1
  happen garbled c = c

  unfoldable pub happen_all : List (Event Value) → KafkaClient Value → KafkaClient Value
  unfolding happen
  happen_all [] c = c
  happen_all (e ∷ more) c = happen_all more (happen e c)
