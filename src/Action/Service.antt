-- ===== src/Action/Service.antt =====
-- commlib/action.py: the handlers of BaseActionService.
-- Parameters: `decode` is `msg_type.Goal(**data)`, `none` when pydantic raises, and `empty` is what a
-- new handler holds, `msg_type.Result()` or `{}`. A new goal's id comes with the call, from
-- `gen_random_id`. Ids are numbers.
use commlib_py.Prelude.{
  ℕ, Bool, true, false, ◌==◌, Option, none, some, List, [], ◌∷◌, ◌++◌, if◌then◌else◌,
}
use commlib_py.Action.Goal.{
  GoalStatus, accepted, running, canceling, succeded, aborted, canceled, is_final, Future, Goal,
  Ended, returns, raises, new_goal, start, task_ends, set_status, cancel,
}

-- The `goal_id` of a request: the default "", `None`, or an id.
pub data GoalRef : Type 0 where
  blank absent : GoalRef
  goal : ℕ → GoalRef

-- The messages of `_notify`.
pub data Note (Value : Type 0) : Type 0 where
  set_goal_request : Value → Note Value
  goal_started : ℕ → Value → Note Value
  goal_cancelled : GoalRef → ℕ → Note Value

pub record Service (Value : Type 0) : Type 0 where
  -- `msg_type is not None`
  pub typed : Bool
  -- `_notify_pub is not None`
  pub has_notify_pub : Bool
  pub current_goal : Option (Goal Value)
  pub notes : List (Note Value)

-- `_ActionGoalMessage.Response`; `error` holds the id that the text names.
pub record GoalResponse : Type 0 where
  pub status : ℕ
  pub goal_id : Option ℕ
  pub error : Option ℕ

-- The `result` of a response: the default `{}`, a model's dump, or the attribute as it is.
pub data Reported (Value : Type 0) : Type 0 where
  no_fields : Reported Value
  dumped : Value → Reported Value
  raw : Option Value → Reported Value

pub record ResultResponse (Value : Type 0) : Type 0 where
  pub status : ℕ
  pub result : Reported Value

unfoldable pub status_code : GoalStatus → ℕ
status_code accepted = 1
status_code running = 2
status_code canceling = 3
status_code succeded = 4
status_code aborted = 5
status_code canceled = 6

unfoldable pub refers_to : GoalRef → ℕ → Bool
refers_to (goal n) id = n == id
refers_to _ id = false

module _ {Value : Type 0} where
  unfoldable pub notify : Note Value → Service Value → Service Value
  notify note s = if s.has_notify_pub then record s { notes = s.notes ++ note ∷ [] } else s

  -- `self._current_goal.start()`; `early` is how the task ends when it does so before `start` sets the
  -- status RUNNING.
  unfoldable pub started : Option (Future Value) → Goal Value → Goal Value
  unfolding start task_ends set_status
  started none g = start g
  started (some f) g = set_status running (task_ends f g)

  unfoldable pub start_goal :
      Option (Future Value)
      → Value
      → Goal Value
      → Service Value
      → Ended GoalResponse × Service Value
  unfolding started notify
  start_goal early fields g s = (
    returns (record { status = 1; goal_id = some g.id; error = none }),
    notify (goal_started g.id fields) (record s { current_goal = some (started early g) }),
  )

  -- An accepted goal, or the refusal.
  unfoldable pub accept_goal :
      Option (Future Value)
      → Value
      → Goal Value
      → Service Value
      → Ended GoalResponse × Service Value
  unfolding start_goal
  accept_goal early fields g s = elim (g.status) [
    | accepted ↦ start_goal early fields g s
    | _ ↦ (returns (record { status = 0; goal_id = none; error = some g.id }), s)
  ]

  unfoldable pub needs_goal : Option (Goal Value) → Bool
  unfolding is_final
  needs_goal none = true
  needs_goal (some g) = is_final g.status

  module _ (decode : Value → Option Value) (empty : Value) where
    -- `self._current_goal.data = ...`
    unfoldable pub payload_of : Bool → Value → Option Value
    payload_of typed fields = if typed then decode fields else some fields

    -- The new handler is the current goal before its data are read.
    unfoldable pub replace_goal :
        ℕ → Option (Future Value) → Value → Service Value → Ended GoalResponse × Service Value
    unfolding new_goal payload_of start_goal
    replace_goal id early fields s =
        let g = new_goal id empty in
        elim (payload_of s.typed fields) [
          | none ↦ (raises, record s { current_goal = some g })
          | some d ↦ start_goal early fields (record g { payload = d }) s
        ]

    unfoldable pub send_to :
        ℕ
        → Option (Future Value)
        → Value
        → Option (Goal Value)
        → Service Value
        → Ended GoalResponse × Service Value
    unfolding replace_goal accept_goal
    send_to id early fields none s = replace_goal id early fields s
    send_to id early fields (some g) s =
        if is_final g.status then replace_goal id early fields s else accept_goal early fields g s

    unfoldable pub handle_send_goal :
        ℕ → Option (Future Value) → Value → Service Value → Ended GoalResponse × Service Value
    unfolding notify send_to
    handle_send_goal id early fields s =
        send_to id early fields s.current_goal (notify (set_goal_request fields) s)

  -- the part of `_handle_cancel_goal` behind its guards, once `cancel` has ended
  unfoldable pub answer_cancel :
      GoalRef → Ended ℕ × Goal Value → Service Value → Ended ℕ × Service Value
  unfolding notify
  answer_cancel ref (returns n, g) s =
      (returns n, notify (goal_cancelled ref n) (record s { current_goal = some g }))
  answer_cancel ref (raises, g) s = (raises, record s { current_goal = some g })

  -- `ending` is how the running task of the goal ends while `cancel` waits for it.
  unfoldable pub handle_cancel_goal :
      Future Value → GoalRef → Service Value → Ended ℕ × Service Value
  unfolding answer_cancel cancel refers_to
  handle_cancel_goal ending ref s = elim (s.current_goal) [
    | none ↦ (returns 0, s)
    | some g ↦ if refers_to ref g.id then answer_cancel ref (cancel ending g) s else (returns 0, s)
  ]

  unfoldable pub report : Bool → Option Value → Reported Value
  report true none = no_fields
  report true (some v) = dumped v
  report false v = raw v

  unfoldable pub result_response : Bool → Goal Value → ResultResponse Value
  unfolding status_code is_final report
  result_response typed g = record {
    status = status_code g.status;
    result = if is_final g.status then report typed g.result else no_fields;
  }

  unfoldable pub handle_get_result : GoalRef → Service Value → Ended (ResultResponse Value)
  unfolding result_response refers_to
  handle_get_result blank s = elim (s.current_goal) [
    | none ↦ raises
    | some g ↦ returns (result_response s.typed g)
  ]
  handle_get_result ref s = elim (s.current_goal) [
    | none ↦ returns (record { status = 0; result = no_fields })
    | some g ↦
        if refers_to ref g.id
        then returns (result_response s.typed g)
        else returns (record { status = 0; result = no_fields })
  ]
