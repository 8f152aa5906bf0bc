-- ===== src/Action/Client.antt =====
-- commlib/action.py: BaseActionClient.
-- The answers of the service's endpoints come with the calls. A goal id is a `GoalRef`: `None` before
-- the first answer, and "" after an answer without an id. `read` is `msg_type.Result(**result)`.
-- A loop ends by its condition; its fuel counts the calls that it may make.
use commlib_py.Prelude.{
  ℕ, zero, suc, ◌+◌, Bool, true, false, ◌==◌, ◌&&◌, ◌||◌, not, Option, none, some, List, [], ◌∷◌,
  ◌++◌, if◌then◌else◌,
}
use commlib_py.Action.Goal.{GoalStatus, succeded, is_final, Ended, returns, raises}
use commlib_py.Action.Service.{
  GoalRef, blank, absent, goal, GoalResponse, Reported, ResultResponse, status_code,
}

pub record Client (Value : Type 0) : Type 0 where
  -- `_msg_type is not None`, and the callbacks that are not `None`
  pub typed : Bool
  pub has_on_result : Bool
  pub has_on_goal_reached : Bool
  pub has_on_feedback : Bool
  pub goal_id : GoalRef
  -- `None`, or what `get_result` returned, which may be `None` too
  pub result : Option (Option Value)
  -- `_status`, whose default has status 0
  pub status : Option GoalStatus
  -- the calls of the callbacks
  pub results : List (Option Value)
  pub goals_reached : List (Option Value)
  pub feedbacks : List Value

-- `msg_type.Result(**result)`: a result, one of the errors that `get_result` catches, or another.
pub data Read (Value : Type 0) : Type 0 where
  ok : Value → Read Value
  caught escapes : Read Value

unfoldable pub same_ref : GoalRef → GoalRef → Bool
same_ref blank blank = true
same_ref absent absent = true
same_ref (goal n) (goal m) = n == m
same_ref _ _ = false

-- `resp.goal_id`, "" by default
unfoldable pub ref_of : GoalResponse → GoalRef
ref_of r = elim (r.goal_id) [ none ↦ blank | some n ↦ goal n ]

-- `resp is not None and resp.status in terminal`
unfoldable pub is_terminal_code : ℕ → Bool
unfolding status_code
is_terminal_code n = n == 4 || (n == 6 || n == 5)

module _ {Value : Type 0} where
  -- `send_goal`, once the call has returned
  unfoldable pub receive_goal : GoalResponse → Client Value → Client Value
  unfolding ref_of
  receive_goal r c = record c { status = none; result = none; goal_id = ref_of r }

  -- `cancel_goal`: the id that it sends, or an `AssertionError`
  unfoldable pub cancel_goal_request : Client Value → Ended GoalRef
  cancel_goal_request c = elim (c.goal_id) [
    | absent ↦ raises
    | blank ↦ returns blank
    | goal n ↦ returns (goal n)
  ]

  unfoldable pub answers : Option (ResultResponse Value) → Bool
  unfolding is_terminal_code
  answers none = false
  answers (some r) = is_terminal_code r.status

  -- The loop of `get_result`: the k-th call returns `replies k`, after which the deadline has passed
  -- if `expired k`.
  unfoldable pub poll :
      (ℕ → Option (ResultResponse Value))
      → (ℕ → Bool)
      → Bool
      → ℕ
      → ℕ
      → Option (Option (ResultResponse Value))
  unfolding answers
  poll replies expired wait zero k = none
  poll replies expired wait (suc fuel) k =
      let rest = poll replies expired wait fuel (k + 1) in
      if answers (replies k) || (not wait || expired k) then some (replies k) else rest

  -- the part of `get_result` behind the loop
  unfoldable pub read_reply :
      (Reported Value → Read Value)
      → (Reported Value → Option Value)
      → Bool
      → Option (ResultResponse Value)
      → Ended (Option Value)
  read_reply read plain typed none = returns none
  read_reply read plain false (some r) = returns (plain r.result)
  read_reply read plain true (some r) = elim (read r.result) [
    | ok v ↦ returns (some v)
    | caught ↦ returns none
    | escapes ↦ raises
  ]

  -- the callbacks of `_on_status`
  unfoldable pub call_back : GoalStatus → Option Value → Client Value → Client Value
  call_back status resp c =
      let c' =
        if status_code status == status_code succeded && c.has_on_goal_reached
        then record c { goals_reached = c.goals_reached ++ resp ∷ [] }
        else c in
      if c.has_on_result then record c' { results = c'.results ++ resp ∷ [] } else c'

  -- `_on_status`; `reply` is how its call of `get_result` ends.
  unfoldable pub on_status :
      Ended (Option Value) → GoalRef → GoalStatus → Client Value → Client Value
  unfolding same_ref is_final call_back
  on_status reply ref status c =
      let c' = record c { status = some status } in
      if not (same_ref ref c.goal_id)
      then c
      else if is_final status
      then elim reply [
        | raises ↦ c'
        | returns resp ↦ call_back status resp (record c' { result = some resp })
      ]
      else c'

  -- `_on_feedback`; `feedback` is what the message's data are read as.
  unfoldable pub on_feedback : GoalRef → Value → Client Value → Client Value
  unfolding same_ref
  on_feedback ref feedback c =
      if same_ref ref c.goal_id && c.has_on_feedback
      then record c { feedbacks = c.feedbacks ++ feedback ∷ [] }
      else c
