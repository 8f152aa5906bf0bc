-- ===== src/Amqp/Answers.antt =====
-- commlib/transports/amqp.py: which answer a call of RPCClient returns.
use commlib_py.Prelude.{ℕ, ◌≡◌, ◌≢◌, ◌⊎◌, true, false, Option, none, some, List, [], ◌∷◌, arith}
use commlib_py.Amqp.Client.{
  RpcClient, Answer, Event, takes, stores, Handling, same_id, begin_call, wait_for_response,
  accepts, set_response, on_response_handle,
}

module _ {Value Payload : Type 0} (decode : Payload → Option Value) (empty : Value) where
  -- What an answer is read as
  abbrev pub value_of : Answer Payload → Value
  value_of a = elim (decode a.body) [ none ↦ empty | some v ↦ v ]

  -- The handler looks at this answer in one of the events.
  abbrev pub IsTaken : Answer Payload → List (Event Payload) → Type 0
  IsTaken a [] = ⊥
  IsTaken a (takes b ∷ more) = (a ≡ b) ⊎ IsTaken a more
  IsTaken a (stores ∷ more) = IsTaken a more

  -- What a wait yields after the events: what it would before them, or the value of an answer that was in hand, or
  -- that carries the call's id and is looked at in the events.
  abbrev Source : ℕ → List (Event Payload) → Handling Value Payload → Option Value → Type 0
  Source n events h result =
      (result ≡ wait_for_response h.client)
      ⊎ ((a : Answer Payload) × ((h.in_hand ≡ some a)
            ⊎ ((a.correlation_id ≡ some n) × IsTaken a events))
          × (result ≡ some (value_of a)))

  abbrev Strict : ℕ → Handling Value Payload → Type 0
  Strict n h = (h.client.use_corr_id ≡ true) × (h.client.corr_id ≡ some n)

  -- A late answer, that of an earlier call which has timed out, is what a call without correlation ids
  -- returns; with them it is dropped if it comes after the call has begun, but one that had been
  -- accepted before, and is stored after, is still returned.
  pub on_response_handle_late :
      (c : RpcClient Value) (old fresh : ℕ) (a : Answer Payload) (v : Value)
      → old ≢ fresh
      → a.correlation_id ≡ some old
      → decode a.body ≡ some v
      → let plain = record c { use_corr_id = false } in
        let strict = record c { use_corr_id = true; corr_id = some old } in
        (wait_for_response (on_response_handle decode empty a (begin_call fresh plain)) ≡ some v)
        × (wait_for_response (on_response_handle decode empty a (begin_call fresh strict)) ≡ none)
        × (accepts decode empty strict a ≡ true)
        × (wait_for_response (set_response decode empty a (begin_call fresh strict)) ≡ some v)
  unfolding on_response_handle accepts set_response begin_call wait_for_response same_id
  on_response_handle_late c old fresh a v d e h = ground arith
