-- ===== src/Action/Run.antt =====
-- The life of an action service, commlib/action.py: requests and the goal's task, in any order.
-- Goals of a replaced handler are finished, so only the task of the current goal is followed.
use commlib_py.Prelude.{ℕ, Option, none, some, List, [], ◌∷◌}
use commlib_py.Action.Goal.{Future, in_thread, Goal, pick_up, task_ends}
use commlib_py.Action.Service.{GoalRef, Service, handle_send_goal, handle_cancel_goal}

pub data Event (Value : Type 0) : Type 0 where
  -- a request, with the id of a new goal and how the task ends, if before RUNNING is set
  send_goal : ℕ → Option (Future Value) → Value → Event Value
  -- a request, with how the task ends while `cancel` waits
  cancel_goal : Future Value → GoalRef → Event Value
  task_starts : Event Value
  task_finishes : Future Value → Event Value

module _ {Value : Type 0} where
  unfoldable pub task_step : (Goal Value → Goal Value) → Service Value → Service Value
  task_step f s = elim (s.current_goal) [
    | none ↦ s
    | some g ↦ record s { current_goal = some (f g) }
  ]

  -- Only a running task ends.
  unfoldable pub finish_task : Future Value → Goal Value → Goal Value
  unfolding task_ends
  finish_task f g = elim (g.goal_task) [ some in_thread ↦ task_ends f g | _ ↦ g ]

  module _ (decode : Value → Option Value) (empty : Value) where
    unfoldable pub step : Event Value → Service Value → Service Value
    unfolding handle_send_goal handle_cancel_goal task_step pick_up finish_task
    step (send_goal id early fields) s = (handle_send_goal decode empty id early fields s).1
    step (cancel_goal ending ref) s = (handle_cancel_goal ending ref s).1
    step task_starts s = task_step pick_up s
    step (task_finishes f) s = task_step (finish_task f) s

    unfoldable pub run : List (Event Value) → Service Value → Service Value
    unfolding step
    run [] s = s
    run (e ∷ es) s = run es (step e s)
