-- ===== src/Amqp/Client.antt =====
-- commlib/transports/amqp.py: RPCClient, which takes its answers from the broker's reply queue.
-- A correlation id is a number, `none` where there is none. `decode` is the decompression with
-- BaseRPCClient._unpack_comm_msg, `none` for an exception on the way, and `empty` is the dict {}. The call
-- and the handler of answers run on two threads; they meet in the client's fields.
use commlib_py.Prelude.{
  ℕ, Bool, true, false, ◌==◌, Option, none, some, List, [], ◌∷◌, if◌then◌else◌,
}

pub record RpcClient (Value : Type 0) : Type 0 where
  pub use_corr_id : Bool
  pub corr_id : Option ℕ
  pub response : Option Value
  pub response_event : Bool

-- An answer: the correlation id in its properties, and its body.
pub record Answer (Payload : Type 0) : Type 0 where
  pub correlation_id : Option ℕ
  pub body : Payload

-- The handler's thread: it looks at an answer, and what it has accepted it stores later.
pub data Event (Payload : Type 0) : Type 0 where
  takes : Answer Payload → Event Payload
  stores : Event Payload

-- The client, with the answer that its handler has accepted and not stored yet.
pub record Handling (Value Payload : Type 0) : Type 0 where
  pub client : RpcClient Value
  pub in_hand : Option (Answer Payload)

-- `==` of two ids
unfoldable pub same_id : Option ℕ → Option ℕ → Bool
same_id none none = true
same_id none (some n) = false
same_id (some m) none = false
same_id (some m) (some n) = m == n

module _ {Value : Type 0} where
  -- `RPCClient.__init__`
  unfoldable pub new_client : Bool → RpcClient Value
  new_client use_corr_id = record {
    use_corr_id = use_corr_id;
    corr_id = none;
    response = none;
    response_event = false;
  }

  -- `call`, up to the hand-over of the message, which goes out with `corr_id`
  unfoldable pub begin_call : ℕ → RpcClient Value → RpcClient Value
  begin_call fresh c = record c {
    response = none;
    response_event = false;
    corr_id = if c.use_corr_id then some fresh else c.corr_id;
  }

  -- _wait_for_response, once the event is set or the time is over
  unfoldable pub wait_for_response : RpcClient Value → Option Value
  wait_for_response c = if c.response_event then c.response else none

  module _ {Payload : Type 0} (decode : Payload → Option Value) (empty : Value) where
    -- _on_response_handle: whether it goes on
    unfoldable pub accepts : RpcClient Value → Answer Payload → Bool
    unfolding same_id
    accepts c a = if c.use_corr_id then same_id c.corr_id a.correlation_id else true

    -- the rest of it
    unfoldable pub set_response : Answer Payload → RpcClient Value → RpcClient Value
    set_response a c = record c {
      response = elim (decode a.body) [ none ↦ some empty | some v ↦ some v ];
      response_event = true;
    }

    unfoldable pub on_response_handle : Answer Payload → RpcClient Value → RpcClient Value
    unfolding accepts set_response
    on_response_handle a c = if accepts c a then set_response a c else c

    -- What happens: the handler's thread takes an answer, or stores the one that it has accepted.
    unfoldable pub happen : Event Payload → Handling Value Payload → Handling Value Payload
    unfolding accepts set_response
    happen (takes a) h = if accepts h.client a then record h { in_hand = some a } else h
    happen stores h = elim (h.in_hand) [
      | none ↦ h
      | some a ↦ record { client = set_response a h.client; in_hand = none }
    ]

    unfoldable pub happen_all :
        List (Event Payload) → Handling Value Payload → Handling Value Payload
    unfolding happen
    happen_all [] h = h
    happen_all (e ∷ more) h = happen_all more (happen e h)
