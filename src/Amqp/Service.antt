-- ===== src/Amqp/Service.antt =====
-- commlib/transports/amqp.py: RPCService.
-- The broker hands a request over while fewer than `prefetch_count` are not acknowledged, as
-- basic_qos has it; a request that it keeps back is not in the model. The requests are handled one after
-- the other.
use commlib_py.Prelude.{ℕ, ◌+◌, Option, none, some, List, [], ◌∷◌, ◌++◌, if◌then◌else◌, ltb}
use commlib_py.Amqp.Client.{Answer}

-- How `on_request` ends, with the request made for it: with a response, with an exception, or with what
-- has no `model_dump`.
pub data Invoked (Value : Type 0) : Type 0 where
  responds : Value → Invoked Value
  raises no_response : Invoked Value

-- A request: the correlation id in its properties, and its body. Its `reply_to` is the caller's.
pub record Request (Payload : Type 0) : Type 0 where
  pub correlation_id : Option ℕ
  pub body : Payload

-- `decode` is _unpack_comm_msg, `none` for an exception, and `encode` the serialization in
-- _send_response, `none` if it raises. `empty` is {} or `msg_type.Response()`.
pub record RpcService (Value Payload : Type 0) : Type 0 where
  pub decode : Payload → Option Value
  pub encode : Value → Option Payload
  pub on_request : Value → Invoked Value
  pub empty : Value

pub record Serving (Payload : Type 0) : Type 0 where
  -- `_max_workers`, the prefetch count
  pub max_workers : ℕ
  -- the requests that were handed over and not acknowledged
  pub unacked : ℕ
  pub answered : List (Answer Payload)

module _ {Value Payload : Type 0} (v : RpcService Value Payload) where
  -- _invoke_onrequest_callback; `none` is an exception that leaves it.
  unfoldable pub invoke_onrequest_callback : Value → Option Value
  invoke_onrequest_callback fields = elim (v.on_request fields) [
    | responds r ↦ some r
    | raises ↦ some v.empty
    | no_response ↦ none
  ]

  -- _send_response: the answer goes out, and the request is acknowledged.
  unfoldable pub send_response : Value → Option ℕ → Serving Payload → Serving Payload
  send_response r correlation_id w = elim (v.encode r) [
    | none ↦ record w { unacked = w.unacked + 1 }
    | some body ↦ record w {
      answered = w.answered ++ record { correlation_id = correlation_id; body = body } ∷ [];
    }
  ]

  -- _on_request_callback: what raises is logged.
  unfoldable pub on_request_callback : Request Payload → Serving Payload → Serving Payload
  unfolding invoke_onrequest_callback send_response
  on_request_callback q w = elim (v.decode q.body) [
    | none ↦ record w { unacked = w.unacked + 1 }
    | some fields ↦ elim (invoke_onrequest_callback fields) [
      | none ↦ record w { unacked = w.unacked + 1 }
      | some r ↦ send_response r q.correlation_id w
    ]
  ]

  -- run_forever with these requests in the queue
  unfoldable pub serve : List (Request Payload) → Serving Payload → Serving Payload
  unfolding on_request_callback
  serve [] w = w
  serve (q ∷ more) w =
      serve more (if ltb w.unacked w.max_workers then on_request_callback q w else w)
