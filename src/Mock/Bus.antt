-- ===== src/Mock/Bus.antt =====
-- commlib/transports/mock.py: MockTransport, and the endpoints Publisher and Subscriber.
-- Topics are numbers. A callback is the number of the subscriber whose `wrapper` it is, and what a
-- callback does is recorded: `heard` has the subscriber and the message. The bus swallows what a
-- callback raises, as `wrapper` does, so it is not in the model.
use commlib_py.Prelude.{
  ℕ, Bool, true, false, ◌==◌, ◌&&◌, ◌||◌, not, Option, none, some, List, [], ◌∷◌, ◌++◌,
  if◌then◌else◌,
}
use commlib_py.Prelude.Dict.{Dict, get, put}

pub record Bus (Value : Type 0) : Type 0 where
  -- _MOCK_MESSAGE_BUS and _MOCK_SUBSCRIBERS
  pub messages : Dict (List Value)
  pub subscribers : Dict (List ℕ)
  pub heard : List (ℕ × Value)

pub record Subscriber : Type 0 where
  pub id : ℕ
  pub topic : ℕ
  -- `onmessage is not None`
  pub has_onmessage : Bool
  pub callback_registered : Bool
  -- `is_connected` of its transport, and its state CONNECTED
  pub transport_connected : Bool
  pub connected_state : Bool
  pub stop_event : Bool

-- The entry of a topic, [] where it has none.
unfoldable pub entry_of : {V : Type 0} → ℕ → Dict (List V) → List V
entry_of topic d = elim (get topic d) [ none ↦ [] | some vs ↦ vs ]

-- list.remove(x)
unfoldable pub remove_first : ℕ → List ℕ → List ℕ
remove_first x [] = []
remove_first x (y ∷ ys) = let rest = remove_first x ys in if y == x then ys else y ∷ rest

unfoldable pub contains : ℕ → List ℕ → Bool
contains x [] = false
contains x (y ∷ ys) = y == x || contains x ys

module _ {Value : Type 0} where
  -- `for callback in _MOCK_SUBSCRIBERS[topic]: callback(message)`
  unfoldable pub call_all : Value → List ℕ → List (ℕ × Value) → List (ℕ × Value)
  call_all message [] heard = heard
  call_all message (c ∷ cs) heard = call_all message cs (heard ++ (c, message) ∷ [])

  -- MockTransport.publish
  unfoldable pub publish : ℕ → Value → Bus Value → Bus Value
  unfolding entry_of call_all
  publish topic message b = record b {
    messages = put topic (entry_of topic b.messages ++ message ∷ []) b.messages;
    heard = call_all message (entry_of topic b.subscribers) b.heard;
  }

  -- MockTransport.subscribe
  unfoldable pub subscribe : ℕ → ℕ → Bus Value → Bus Value
  unfolding entry_of
  subscribe topic callback b = record b {
    subscribers = put topic (entry_of topic b.subscribers ++ callback ∷ []) b.subscribers;
  }

  -- MockTransport.unsubscribe; no callback means all
  unfoldable pub unsubscribe : ℕ → Option ℕ → Bus Value → Bus Value
  unfolding remove_first contains
  unsubscribe topic callback b = elim (get topic b.subscribers) [
    | none ↦ b
    | some cs ↦ elim callback [
      | none ↦ record b { subscribers = put topic [] b.subscribers }
      | some c ↦
          if contains c cs
          then record b { subscribers = put topic (remove_first c cs) b.subscribers }
          else b
    ]
  ]

  -- Subscriber.run
  unfoldable pub run_subscriber : Subscriber → Bus Value → Subscriber × Bus Value
  unfolding subscribe
  run_subscriber s b =
      if not s.callback_registered && s.has_onmessage
      then (
        record s { transport_connected = true; callback_registered = true; connected_state = true },
        subscribe s.topic s.id b,
      )
      else (record s { transport_connected = true; connected_state = true }, b)

  -- Subscriber.stop: the bus is left as it is.
  unfoldable pub stop_subscriber : Subscriber → Bus Value → Subscriber × Bus Value
  stop_subscriber s b =
      (record s { stop_event = true; transport_connected = false; connected_state = false }, b)
