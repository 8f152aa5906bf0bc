-- ===== src/Redis/Rpc.antt =====
-- commlib/transports/redis.py: RPCService and RPCClient.
use commlib_py.Prelude.{ℕ, suc, Bool, Option, none, some, List, if◌then◌else◌}
use commlib_py.Prelude.Dict.{Dict}
use commlib_py.Rpc.Messages.{
  CommMessage, Argument, Handled, answers, fails, fails_uncaught, queue_name, validate_rpc_req_msg,
  prepare_call_data, prepare_request, unpack_request, unpack_reply,
}
use commlib_py.Redis.Transport.{Transport}
use commlib_py.Redis.Queues.{
  Unanswered, Sent, sent, unsent, Received, got, timed_out, gave_up, push_payload, wait_payload,
  delete_queue,
}

-- The loop of a service goes on, or an exception has ended it.
pub data Round (Payload : Type 0) : Type 0 where
  alive dead : Transport → Dict (List Payload) → Round Payload

-- How the second half of `call` ends: with a response or `None`, or with an exception.
pub data Called (Payload Value : Type 0) : Type 0 where
  returned : Option Value → Transport → Dict (List Payload) → Called Payload Value
  raised : Transport → Dict (List Payload) → Called Payload Value

-- `encode` is the serializer with the compression, as push_msg_to_queue applies them, and `decode`
-- what wait_for_msg and the unpacking do to a payload. `is_init` tells the payload "QueueInit".
pub record Codec (Value Payload : Type 0) : Type 0 where
  pub encode : CommMessage Value → Payload
  pub decode : Payload → Option (CommMessage Value)
  pub is_init : Payload → Bool

-- A service: `msg_type is not None`, `msg_type.Request(**data)`, its callback, and the dict {}.
pub record RpcService (Value : Type 0) : Type 0 where
  pub typed : Bool
  pub read_request : Value → Option Value
  pub on_request : Value → Handled Value
  pub empty : Value

module _ {Value : Type 0} where
  unfoldable pub response_of : RpcService Value → Handled Value → Option Value
  response_of v (answers r) = some r
  response_of v fails = some v.empty
  response_of v fails_uncaught = none

  -- `_on_request_internal`, up to the response; `none` is an exception that leaves it.
  unfoldable pub respond : RpcService Value → CommMessage Value → Option Value
  unfolding response_of validate_rpc_req_msg
  respond v m =
      if validate_rpc_req_msg m
      then (if v.typed
          then elim (v.read_request m.payload) [
            | none ↦ some v.empty
            | some r ↦ response_of v (v.on_request r)
          ]
          else response_of v (v.on_request m.payload))
      else some v.empty

-- What the executor's thread raises is dropped.
unfoldable pub after_push : {Payload : Type 0} → Option (Sent Payload) → Option (Round Payload)
after_push none = none
after_push (some (sent t s)) = some (alive t s)
after_push (some (unsent t s)) = some (alive t s)

module _ {Value Payload : Type 0} (codec : Codec Value Payload) (link : ℕ → Bool)
    (taken : ℕ → Unanswered) where
  -- `_on_request_internal`. The header of a response has no `reply_to`.
  unfoldable pub on_request_internal :
      RpcService Value
      → ℕ
      → CommMessage Value
      → Transport
      → Dict (List Payload)
      → Option (Round Payload)
  unfolding respond after_push
  on_request_internal v fuel m t s = elim (respond v m) [
    | none ↦ some (alive t s)
    | some r ↦ after_push (
        push_payload link taken fuel (queue_name m.reply_to)
          (codec.encode (record { reply_to = none; payload = r })) t s)
  ]

  unfoldable pub on_request_handle :
      RpcService Value → ℕ → Payload → Transport → Dict (List Payload) → Option (Round Payload)
  unfolding on_request_internal
  on_request_handle v fuel bytes t s = elim (unpack_request codec.decode bytes) [
    | none ↦ some (alive t s)
    | some m ↦ on_request_internal v fuel m t s
  ]

  unfoldable pub after_wait :
      RpcService Value → ℕ → Option (Received Payload) → Option (Round Payload)
  unfolding on_request_handle
  after_wait v fuel none = none
  after_wait v fuel (some (got p t s)) = on_request_handle v fuel p t s
  after_wait v fuel (some (timed_out t s)) = some (alive t s)
  after_wait v fuel (some (gave_up t s)) = some (dead t s)

  -- one round of the loop of RPCService.run_forever
  unfoldable pub service_round :
      RpcService Value → ℕ → ℕ → Transport → Dict (List Payload) → Option (Round Payload)
  unfolding after_wait
  service_round v fuel rpc_name t s =
      after_wait v fuel (wait_payload link taken codec.is_init fuel (suc rpc_name) t s)

  -- RPCClient.call up to the push; an argument of the wrong kind is `none`, an RPCRequestError.
  unfoldable pub call_send :
      Bool
      → ℕ
      → ℕ
      → ℕ
      → Argument Value
      → Transport
      → Dict (List Payload)
      → Option (Option (Sent Payload))
  call_send typed fuel rpc_name fresh arg t s = elim (prepare_call_data typed arg) [
    | none ↦ none
    | some v ↦ some (
        push_payload link taken fuel (suc rpc_name) (codec.encode (prepare_request v none fresh)) t
          s)
  ]

  module _ (typed : Bool) (read_response : Value → Option Value) where
    -- the response, of the client's type if it has one: `msg_type.Response(**data)`
    unfoldable pub read_reply :
        Option Value → Transport → Dict (List Payload) → Called Payload Value
    read_reply none t s = raised t s
    read_reply (some v) t s =
        if typed
        then elim (read_response v) [ none ↦ raised t s | some r ↦ returned (some r) t s ]
        else returned (some v) t s

    unfoldable pub after_reply : ℕ → Option (Received Payload) → Option (Called Payload Value)
    unfolding read_reply
    after_reply q none = none
    after_reply q (some (got p t s)) =
        some (read_reply (unpack_reply codec.decode p) t (delete_queue q s).1)
    after_reply q (some (timed_out t s)) = some (returned none t (delete_queue q s).1)
    after_reply q (some (gave_up t s)) = some (raised t s)

    -- the rest of `call`, for the name that its request carries
    unfoldable pub call_receive :
        ℕ → ℕ → Transport → Dict (List Payload) → Option (Called Payload Value)
    unfolding after_reply
    call_receive fuel fresh t s =
        after_reply (suc fresh) (wait_payload link taken codec.is_init fuel (suc fresh) t s)
