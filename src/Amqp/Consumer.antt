-- ===== src/Amqp/Consumer.antt =====
-- commlib/transports/amqp.py: TaskWorker._consume_loop. `read` is `json.loads` followed by `TaskEnvelope(**data)`,
-- `none` when either raises. `process` is `_process_task` on the state of the worker: whether it raises, or
-- `none` while it waits for the semaphore (TaskQueue/Worker models it).
use commlib_py.Prelude.{
  ℕ, ◌≡◌, refl, Bool, true, false, Option, none, some, Option-cases, inl, inr, List, [], ◌∷◌, ◌++◌,
  map, not, arith, if◌then◌else◌,
}

-- What `channel.consume` yields: nothing within its timeout, or a message with its tag.
pub data Delivery (Payload : Type 0) : Type 0 where
  nothing : Delivery Payload
  delivered : ℕ → Payload → Delivery Payload

-- basic_ack, and basic_nack without requeueing; either call may raise
pub data Settled : Type 0 where
  acks nacks : ℕ → Settled

-- What a message or the loop leads to: the calls in their order, whether an exception has ended the loop, and the
-- state of the worker.
pub record Consumed (State : Type 0) : Type 0 where
  pub calls : List Settled
  pub escaped : Bool
  pub state : State

module _ (ack_raises nack_raises : ℕ → Bool) where
  -- The `except` branch
  unfoldable pub reject : {State : Type 0} → ℕ → List Settled → State → Consumed State
  reject tag calls s = record {
    calls = calls ++ nacks tag ∷ [];
    escaped = nack_raises tag;
    state = s;
  }

  module _ {Payload Task State : Type 0} (read : Payload → Option Task)
      (process : Task → State → Option (Bool × State)) where
    -- One message: `basic_ack` is inside the `try`, so if it raises, the message is rejected after it.
    unfoldable pub consume_one : ℕ → Payload → State → Option (Consumed State)
    unfolding reject
    consume_one tag body s = elim (read body) [
      | none ↦ some (reject tag [] s)
      | some task ↦ elim (process task s) [
        | none ↦ none
        | some (raised, s1) ↦
            if raised
            then some (reject tag [] s1)
            else if ack_raises tag
            then some (reject tag (acks tag ∷ []) s1)
            else some (record { calls = acks tag ∷ []; escaped = false; state = s1 })
      ]
    ]

    -- The loop, from what `_stop_event.is_set()` and the channel give in each turn, up to the end of the
    -- turns that are given; `none` if it waits for the semaphore.
    unfoldable pub consume_loop : List (Bool × Delivery Payload) → State → Option (Consumed State)
    unfolding consume_one
    consume_loop [] s = some (record { calls = []; escaped = false; state = s })
    consume_loop ((true, d) ∷ turns) s = some (record { calls = []; escaped = false; state = s })
    consume_loop ((false, nothing) ∷ turns) s = consume_loop turns s
    consume_loop ((false, delivered tag body) ∷ turns) s = elim (consume_one tag body s) [
      | none ↦ none
      | some c ↦
          let rest = consume_loop turns c.state in
          if c.escaped
          then some c
          else elim rest [ none ↦ none | some r ↦ some (record r { calls = c.calls ++ r.calls }) ]
    ]

-- The tags of the messages that come before the loop sees the stop.
unfoldable pub tags_before_stop : {Payload : Type 0} → List (Bool × Delivery Payload) → List ℕ
tags_before_stop [] = []
tags_before_stop ((true, d) ∷ turns) = []
tags_before_stop ((false, nothing) ∷ turns) = tags_before_stop turns
tags_before_stop ((false, delivered tag body) ∷ turns) = tag ∷ tags_before_stop turns

module _ {Payload Task State : Type 0} (read : Payload → Option Task)
    (process : Task → State → Option (Bool × State)) where
  -- The verdicts on messages, with their tags: whether they could be read and their task ended without an
  -- exception.
  pub data Judged : List (Bool × Delivery Payload) → State → List (ℕ × Bool) → Type 0 where
    at_end : {s : State} → Judged [] s []
    at_stop :
        {d : Delivery Payload} {turns : List (Bool × Delivery Payload)} {s : State}
        → Judged ((true, d) ∷ turns) s []
    idle :
        {turns : List (Bool × Delivery Payload)} {s : State} {vs : List (ℕ × Bool)}
        → Judged turns s vs
        → Judged ((false, nothing) ∷ turns) s vs
    unread :
        {turns : List (Bool × Delivery Payload)} {s : State} {vs : List (ℕ × Bool)} {tag : ℕ}
        {body : Payload}
        → read body ≡ none
        → Judged turns s vs
        → Judged ((false, delivered tag body) ∷ turns) s ((tag, false) ∷ vs)
    processed :
        {turns : List (Bool × Delivery Payload)} {s s1 : State} {vs : List (ℕ × Bool)} {tag : ℕ}
        {body : Payload} {task : Task} {raised : Bool}
        → read body ≡ some task
        → process task s ≡ some (raised, s1)
        → Judged turns s1 vs
        → Judged ((false, delivered tag body) ∷ turns) s ((tag, not raised) ∷ vs)

  module _ (ack_raises nack_raises : ℕ → Bool) where
    -- What the verdicts ask for: an acknowledgement for a good one, and a rejection for a bad one and after an
    -- acknowledgement that raises.
    abbrev pub settle_all : List (ℕ × Bool) → List Settled
    settle_all [] = []
    settle_all ((tag, false) ∷ vs) = nacks tag ∷ settle_all vs
    settle_all ((tag, true) ∷ vs) =
        let rest = settle_all vs in
        if ack_raises tag then acks tag ∷ nacks tag ∷ rest else acks tag ∷ rest

    abbrev pub first : ℕ × Bool → ℕ
    first (tag, good) = tag

    loop_one :
        (tag : ℕ) (body : Payload) (turns : List (Bool × Delivery Payload)) (s : State)
        (c r : Consumed State)
        → consume_one ack_raises nack_raises read process tag body s ≡ some c
        → c.escaped ≡ false
        → consume_loop ack_raises nack_raises read process turns c.state ≡ some r
        → consume_loop ack_raises nack_raises read process ((false, delivered tag body) ∷ turns) s
          ≡ some (record r { calls = c.calls ++ r.calls })
    unfolding consume_loop
    loop_one tag body turns s c r one e rest = ground (arith, one, e, rest)

    -- If no task waits for the semaphore for ever and no rejection raises, the loop asks the channel for exactly
    -- this, in the order in which the messages come before it sees the stop: the acknowledgement of each message
    -- that could be read and whose task ended without an exception, the rejection of each other one, and a
    -- rejection after each acknowledgement that raised; no other message is settled, and no exception ends it.
    pub consume_loop_settles :
        (turns : List (Bool × Delivery Payload)) (s : State)
        → ((task : Task) (u : State)
            → (raised : Bool) × (v : State) × (process task u ≡ some (raised, v)))
        → ((tag : ℕ) → nack_raises tag ≡ false)
        → (vs : List (ℕ × Bool)) × (r : Consumed State) × Judged turns s vs
          × (consume_loop ack_raises nack_raises read process turns s ≡ some r)
          × (r.calls ≡ settle_all vs)
          × (r.escaped ≡ false)
          × (map first vs ≡ tags_before_stop turns)
    unfolding consume_loop tags_before_stop
    consume_loop_settles [] s ends quiet =
        ([], record { calls = []; escaped = false; state = s }, at_end, refl, refl, refl, refl)
    consume_loop_settles ((true, d) ∷ turns) s ends quiet =
        ([], record { calls = []; escaped = false; state = s }, at_stop, refl, refl, refl, refl)
    consume_loop_settles ((false, nothing) ∷ turns) s ends quiet =
        let (vs, r, judged, runs, calls, goes_on, tags) = consume_loop_settles turns s ends quiet in
        (vs, r, idle judged, runs, calls, goes_on, tags)
    consume_loop_settles ((false, delivered tag body) ∷ turns) s ends quiet =
        elim (Option-cases (read body)) [
          | inl garbled ↦
              let (vs, r, judged, runs, calls, goes_on, tags) =
                consume_loop_settles turns s ends quiet in
              let c = reject ack_raises nack_raises tag [] s in
              (
                (tag, false) ∷ vs,
                record r { calls = nacks tag ∷ r.calls },
                unread garbled judged,
                loop_one tag body turns s
                    (record { calls = nacks tag ∷ []; escaped = false; state = s }) r
                    (unfold consume_one reject in ground (arith, garbled, quiet tag)) refl runs,
                ground (arith, calls),
                goes_on,
                ground (arith, tags),
              )
          | inr (task, e) ↦
              let (raised, s1, p) = ends task s in
              let (vs, r, judged, runs, calls, goes_on, tags) =
                consume_loop_settles turns s1 ends quiet in
              (
                (tag, not raised) ∷ vs,
                record r { calls = settle_all ((tag, not raised) ∷ []) ++ r.calls },
                processed e p judged,
                loop_one tag body turns s
                    (record {
                      calls = settle_all ((tag, not raised) ∷ []);
                      escaped = false;
                      state = s1;
                    })
                    r (unfold consume_one reject in ground (arith, e, p, quiet tag)) refl runs,
                ground (arith, calls),
                goes_on,
                ground (arith, tags),
              )
        ]
