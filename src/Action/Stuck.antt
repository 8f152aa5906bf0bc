-- ===== src/Action/Stuck.antt =====
-- commlib/action.py: a task that ends before `start` sets the status RUNNING.
use commlib_py.Prelude.{
  ℕ, ◌≡◌, Bool, true, false, ◌&&◌, Option, none, some, List, [], ◌∷◌, arith, ◌==◌,
}
use commlib_py.Action.Goal.{
  GoalStatus, running, canceling, is_final, Future, Goal, new_goal, task_ends, set_status, cancel,
  cancel_task, pick_up, done_callback, store_result, is_done, no_cancel,
}
use commlib_py.Action.Service.{
  Service, handle_send_goal, handle_cancel_goal, started, start_goal, accept_goal, replace_goal,
  send_to, notify, payload_of, answer_cancel, needs_goal,
}
use commlib_py.Action.Run.{
  Event, send_goal, cancel_goal, task_starts, task_finishes, step, run, task_step, finish_task,
}

abbrev busy : GoalStatus → Bool
busy running = true
busy canceling = true
busy _ = false

module _ {Value : Type 0} where
  abbrev task_is_done : Option (Future Value) → Bool
  task_is_done none = false
  task_is_done (some f) = is_done f

  abbrev holds : (Goal Value → Bool) → Option (Goal Value) → Bool
  holds p none = false
  holds p (some g) = p g

  -- RUNNING or CANCELING with a task that is done.
  abbrev stuck : ℕ → Goal Value → Bool
  stuck id g = (g.id == id && busy g.status) && task_is_done g.goal_task

  abbrev Stuck : ℕ → Service Value → Type 0
  Stuck id s = holds (stuck id) s.current_goal ≡ true

  cancel-stuck :
      (id : ℕ) (f : Future Value) (g : Goal Value)
      → stuck id g ≡ true
      → stuck id (cancel f g).1 ≡ true
  unfolding cancel cancel_task set_status no_cancel is_done
  cancel-stuck id f g h = ground arith

  pick_up-stuck : (id : ℕ) (g : Goal Value) → stuck id g ≡ true → stuck id (pick_up g) ≡ true
  unfolding pick_up is_done
  pick_up-stuck id g h = ground arith

  finish_task-stuck :
      (id : ℕ) (f : Future Value) (g : Goal Value)
      → stuck id g ≡ true
      → stuck id (finish_task f g) ≡ true
  unfolding finish_task is_done
  finish_task-stuck id f g h = ground arith

  module _ (decode : Value → Option Value) (empty : Value) where
    step-Stuck :
        (id : ℕ) (e : Event Value) (s : Service Value)
        → Stuck id s
        → Stuck id (step decode empty e s)
    unfolding step task_step handle_send_goal send_to accept_goal handle_cancel_goal answer_cancel
        notify is_final
    step-Stuck id (send_goal id' early fields) s h = ground arith
    step-Stuck id (cancel_goal f ref) s h = grind (arith, cancel-stuck id f)
    step-Stuck id task_starts s h = grind (arith, pick_up-stuck id)
    step-Stuck id (task_finishes f) s h = grind (arith, finish_task-stuck id f)

    run-Stuck :
        (id : ℕ) (es : List (Event Value)) (s : Service Value)
        → Stuck id s
        → Stuck id (run decode empty es s)
    unfolding run
    run-Stuck id [] s h = h
    run-Stuck id (e ∷ es) s h = run-Stuck id es (step decode empty e s) (step-Stuck id e s h)

    send_goal-Stuck :
        (id : ℕ) (f : Future Value) (fields d : Value) (s : Service Value)
        → is_done f ≡ true
        → payload_of decode empty s.typed fields ≡ some d
        → needs_goal s.current_goal ≡ true
        → Stuck id (handle_send_goal decode empty id (some f) fields s).1
    unfolding handle_send_goal send_to replace_goal start_goal notify is_final needs_goal payload_of
        started new_goal set_status task_ends done_callback store_result
    send_goal-Stuck id f fields d s o t n = ground arith

    -- The service is ready for a goal and can read its data. If the goal's task ends, in any way, before
    -- `start` sets the status, then after every sequence of requests that goal is still the current
    -- goal, and it is not final: no goal is accepted again.
    pub send_goal_stuck :
        (id : ℕ) (f : Future Value) (fields d : Value) (s : Service Value) (es : List (Event Value))
        → is_done f ≡ true
        → payload_of decode empty s.typed fields ≡ some d
        → needs_goal s.current_goal ≡ true
        → let s' = run decode empty es (handle_send_goal decode empty id (some f) fields s).1 in
          needs_goal s'.current_goal ≡ false
          × ((g : Goal Value) → s'.current_goal ≡ some g → g.id ≡ id)
    unfolding needs_goal is_final
    send_goal_stuck id f fields d s es o t n =
        let s' = (handle_send_goal decode empty id (some f) fields s).1 in
        let h = run-Stuck id es s' (send_goal-Stuck id f fields d s o t n) in
        (ground arith, λ g e. ground arith)
