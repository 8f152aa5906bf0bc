-- ===== src/Redis/Queues.antt =====
-- commlib/transports/redis.py: the queues of RedisTransport, push_msg_to_queue and wait_for_msg.
-- Queue names and the server's lists: a name is a number, and a list that is empty is as one that is
-- absent, as Redis has it. A command that is not answered raises redis-py's ConnectionError or its TimeoutError, and
-- may have been carried out all the same: `taken n` says which for the n-th exchange. The serializer, the compression and the payload "QueueInit"
-- are parameters. `blpop` of an empty list is the time-out.
use commlib_py.Prelude.{
  ℕ, zero, suc, ◌+◌, Bool, true, false, Option, none, some, List, [], ◌∷◌, ◌++◌, if◌then◌else◌,
}
use commlib_py.Prelude.Dict.{Dict, get, put, remove}
use commlib_py.Redis.Transport.{Transport, is_connected, attempt_reconnect}

-- One more exchange.
unfoldable pub next : Transport → Transport
next t = record t { exchanges = t.exchanges + 1 }

-- A command that is not answered: whether the server has carried it out, and whether redis-py raises its
-- TimeoutError, which is no ConnectionError
pub record Unanswered : Type 0 where
  pub carried : Bool
  pub times_out : Bool

-- How a push ends: done, or with an exception, "Maximum connection attempts exceeded" or the TimeoutError.
pub data Sent (Payload : Type 0) : Type 0 where
  sent unsent : Transport → Dict (List Payload) → Sent Payload

-- How a wait ends: with a message, with ("", None), or with the error.
pub data Received (Payload : Type 0) : Type 0 where
  got : Payload → Transport → Dict (List Payload) → Received Payload
  timed_out gave_up : Transport → Dict (List Payload) → Received Payload

module _ {Payload : Type 0} where
  unfoldable pub queue_of : ℕ → Dict (List Payload) → List Payload
  queue_of q s = elim (get q s) [ none ↦ [] | some ps ↦ ps ]

  -- the server's RPUSH
  unfoldable pub rpush : ℕ → Payload → Dict (List Payload) → Dict (List Payload)
  unfolding queue_of
  rpush q p s = put q (queue_of q s ++ p ∷ []) s

  abbrev pub rest : List Payload → List Payload
  rest [] = []
  rest (p ∷ ps) = ps

  -- the server's BLPOP leaves this
  unfoldable pub popped : ℕ → Dict (List Payload) → Dict (List Payload)
  unfolding queue_of
  popped q s = put q (rest (queue_of q s)) s

  -- queue_exists, delete_queue
  unfoldable pub queue_exists : ℕ → Dict (List Payload) → Bool
  unfolding queue_of
  queue_exists q s = elim (queue_of q s) [ [] ↦ false | p ∷ ps ↦ true ]

  unfoldable pub delete_queue : ℕ → Dict (List Payload) → Bool × Dict (List Payload)
  unfolding queue_exists
  delete_queue q s = (queue_exists q s, remove q s)

  module _ (link : ℕ → Bool) (taken : ℕ → Unanswered) where
    -- push_msg_to_queue, with the payload ready
    unfoldable pub push_payload :
        ℕ → ℕ → Payload → Transport → Dict (List Payload) → Option (Sent Payload)
    unfolding next
    push_payload zero q p t s = none
    push_payload (suc fuel) q p t s =
        let answer = is_connected link t in
        elim (answer.0) [
          | false ↦ elim (attempt_reconnect link answer.1) [
            | none ↦ some (unsent answer.1 s)
            | some (done, t') ↦ push_payload fuel q p t' s
          ]
          | true ↦ elim (link answer.1.exchanges) [
            | true ↦ some (sent (next answer.1) (rpush q p s))
            | false ↦
                let lost = taken answer.1.exchanges in
                let s' = if lost.carried then rpush q p s else s in
                elim (lost.times_out) [
                  | true ↦ some (unsent (next answer.1) s')
                  | false ↦ elim (attempt_reconnect link (next answer.1)) [
                    | none ↦ some (unsent (next answer.1) s')
                    | some (done, t') ↦ push_payload fuel q p t' s'
                  ]
                ]
          ]
        ]

    module _ (is_init : Payload → Bool) where
      -- wait_for_msg, up to the decompression
      unfoldable pub wait_payload :
          ℕ → ℕ → Transport → Dict (List Payload) → Option (Received Payload)
      unfolding next
      wait_payload zero q t s = none
      wait_payload (suc fuel) q t s =
          let answer = is_connected link t in
          elim (answer.0) [
            | false ↦ elim (attempt_reconnect link answer.1) [
              | none ↦ some (gave_up answer.1 s)
              | some (done, t') ↦ wait_payload fuel q t' s
            ]
            | true ↦ elim (link answer.1.exchanges) [
              | true ↦ elim (queue_of q s) [
                | [] ↦ some (timed_out (next answer.1) s)
                | p ∷ ps ↦ elim (is_init p) [
                  | true ↦ wait_payload fuel q (next answer.1) (popped q s)
                  | false ↦ some (got p (next answer.1) (popped q s))
                ]
              ]
              | false ↦
                  let lost = taken answer.1.exchanges in
                  let s' = if lost.carried then popped q s else s in
                  elim (lost.times_out) [
                    | true ↦ some (timed_out (next answer.1) s')
                    | false ↦ elim (attempt_reconnect link (next answer.1)) [
                      | none ↦ some (gave_up (next answer.1) s')
                      | some (done, t') ↦ wait_payload fuel q t' s'
                    ]
                  ]
            ]
          ]
