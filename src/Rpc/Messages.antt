-- ===== src/Rpc/Messages.antt =====
-- commlib/rpc.py: the messages of a call.
-- `payload` is the field `data`. Of a header, `reply_to` is kept, with `none` for "" and `None`; a name that is one is a number, and
-- `queue_name` is the key of its queue. `decode` is the serializer's `deserialize` followed by the two
-- fields and pydantic's checks, `none` when any of them raises.
use commlib_py.Prelude.{ℕ, zero, suc, Bool, true, false, Option, none, some, if◌then◌else◌}

pub record CommMessage (Value : Type 0) : Type 0 where
  pub reply_to : Option ℕ
  pub payload : Value

-- What `call` is given: a dict, a request of the client's type, or something else.
pub data Argument (Value : Type 0) : Type 0 where
  mapping request : Value → Argument Value
  anything_else : Argument Value

-- How the callback of a service ends: with a response, with an exception that the service catches, or
-- with another one.
pub data Handled (Value : Type 0) : Type 0 where
  answers : Value → Handled Value
  fails : Handled Value
  fails_uncaught : Handled Value

-- How the future of `call_async` ends.
pub data CallEnd (Value : Type 0) : Type 0 where
  cancelled failed : CallEnd Value
  finished : Value → CallEnd Value

-- "" is the queue 0.
unfoldable pub queue_name : Option ℕ → ℕ
queue_name none = zero
queue_name (some n) = suc n

-- `a or b` for names
unfoldable pub name_or : Option ℕ → ℕ → ℕ
name_or none n = n
name_or (some m) n = m

module _ {Value : Type 0} where
  -- BaseRPCService._validate_rpc_req_msg
  unfoldable pub validate_rpc_req_msg : CommMessage Value → Bool
  validate_rpc_req_msg m = elim (m.reply_to) [ none ↦ false | some n ↦ true ]

  -- BaseRPCClient._prepare_call_data; `none` is its ValueError.
  unfoldable pub prepare_call_data : Bool → Argument Value → Option Value
  prepare_call_data false (mapping v) = some v
  prepare_call_data true (request v) = some v
  prepare_call_data _ _ = none

  -- BaseRPCClient._prepare_request; `fresh` is the name that `_gen_queue_name` makes.
  unfoldable pub prepare_request : Value → Option ℕ → ℕ → CommMessage Value
  unfolding name_or
  prepare_request fields reply_to fresh = record {
    reply_to = some (name_or reply_to fresh);
    payload = fields;
  }

  -- BaseRPCClient._done_callback: what it calls `on_response` with
  unfoldable pub done_callback : CallEnd Value → Option Value
  done_callback cancelled = none
  done_callback failed = none
  done_callback (finished v) = some v

  module _ {Payload : Type 0} (decode : Payload → Option (CommMessage Value)) where
    -- BaseRPCService._unpack_comm_msg; `none` is its ValueError.
    unfoldable pub unpack_request : Payload → Option (CommMessage Value)
    unfolding validate_rpc_req_msg
    unpack_request bytes = elim (decode bytes) [
      | none ↦ none
      | some m ↦ if validate_rpc_req_msg m then some m else none
    ]

    -- BaseRPCClient._unpack_comm_msg, of which the data are used
    unfoldable pub unpack_reply : Payload → Option Value
    unpack_reply bytes = elim (decode bytes) [ none ↦ none | some m ↦ some m.payload ]
