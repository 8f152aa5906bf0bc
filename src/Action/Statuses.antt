-- ===== src/Action/Statuses.antt =====
-- commlib/action.py: the statuses that a goal can take.
use commlib_py.Prelude.{
  ℕ, ◌≡◌, ◌≢◌, refl, Bool, true, false, Option, none, some, List, [], ◌∷◌, arith,
}
use commlib_py.Action.Goal.{
  GoalStatus, canceling, aborted, Future, queued, in_thread, cancelled, returned, failed, Goal,
  Ended, raises, new_goal, start, task_ends, set_status, cancel, cancel_task, pick_up,
  done_callback, store_result,
}
use commlib_py.Action.Service.{
  GoalRef, GoalResponse, Service, handle_send_goal, handle_cancel_goal, start_goal, accept_goal,
  replace_goal, send_to, notify, payload_of, started, answer_cancel, set_goal_request,
}
use commlib_py.Action.Run.{
  Event, send_goal, cancel_goal, task_starts, task_finishes, step, run, task_step, finish_task,
}

abbrev unaborted : GoalStatus → Bool
unaborted aborted = false
unaborted _ = true

module _ {Value : Type 0} where
  -- The status of a goal is not ABORTED.
  abbrev Unaborted : Goal Value → Type 0
  Unaborted g = unaborted g.status ≡ true

  done_callback-Unaborted :
      (f : Future Value) (g : Goal Value) → Unaborted g → Unaborted (done_callback f g)
  unfolding done_callback store_result set_status
  done_callback-Unaborted f g h = ground arith

  started-Unaborted :
      (early : Option (Future Value)) (g : Goal Value) → Unaborted g → Unaborted (started early g)
  unfolding started start set_status
  started-Unaborted none g h = ground arith
  started-Unaborted (some f) g h = ground arith

  cancel_task-Unaborted :
      (f : Future Value) (t : Option (Future Value)) (g : Goal Value)
      → Unaborted g
      → Unaborted (cancel_task f t g).1
  unfolding cancel_task task_ends
  cancel_task-Unaborted f none g h = h
  cancel_task-Unaborted f (some queued) g h =
      done_callback-Unaborted cancelled (record g { goal_task = some cancelled }) h
  cancel_task-Unaborted f (some in_thread) g h =
      done_callback-Unaborted f (record g { cancel_event = true; goal_task = some f }) h
  cancel_task-Unaborted f (some cancelled) g h = h
  cancel_task-Unaborted f (some (returned v)) g h = h
  cancel_task-Unaborted f (some (failed e)) g h = h

  cancel-Unaborted : (f : Future Value) (g : Goal Value) → Unaborted g → Unaborted (cancel f g).1
  unfolding cancel set_status
  cancel-Unaborted f g h =
      ground (arith, cancel_task-Unaborted f g.goal_task (set_status canceling g))

  finish_task-Unaborted :
      (f : Future Value) (g : Goal Value) → Unaborted g → Unaborted (finish_task f g)
  unfolding finish_task task_ends
  finish_task-Unaborted f g h =
      ground (arith, done_callback-Unaborted f (record g { goal_task = some f }))

  pick_up-Unaborted : (g : Goal Value) → Unaborted g → Unaborted (pick_up g)
  unfolding pick_up
  pick_up-Unaborted g h = ground arith

  abbrev clean : Option (Goal Value) → Bool
  clean none = true
  clean (some g) = unaborted g.status

  -- The status of the current goal, if there is one, is not ABORTED.
  abbrev Clean : Service Value → Type 0
  Clean s = clean s.current_goal ≡ true

  module _ (decode : Value → Option Value) (empty : Value) where
    start_goal-Clean :
        (early : Option (Future Value)) (fields : Value) (g : Goal Value) (s : Service Value)
        → Unaborted g
        → Clean (start_goal early fields g s).1
    unfolding start_goal notify
    start_goal-Clean early fields g s h = ground (arith, started-Unaborted early g h)

    new_goal-Unaborted : (id : ℕ) → Unaborted (new_goal id empty)
    unfolding new_goal set_status
    new_goal-Unaborted id = refl

    replace_goal-Clean :
        (id : ℕ) (early : Option (Future Value)) (fields : Value) (s : Service Value)
        → Clean (replace_goal decode empty id early fields s).1
    unfolding replace_goal
    replace_goal-Clean id early fields s =
        let g = new_goal id empty in
        elim (payload_of decode empty s.typed fields)
          as (λ o.
            clean
              (elim o as (λ x. Ended GoalResponse × Service Value) [
                | none ↦ (raises, record s { current_goal = some g })
                | some d ↦ start_goal early fields (record g { payload = d }) s
              ]).1.current_goal
            ≡ true) [
              | none ↦ new_goal-Unaborted id
              | some d ↦
                  start_goal-Clean early fields (record g { payload = d }) s (new_goal-Unaborted id)
            ]

    accept_goal-Clean :
        (early : Option (Future Value)) (fields : Value) (g : Goal Value) (s : Service Value)
        → Unaborted g
        → Clean s
        → Clean (accept_goal early fields g s).1
    unfolding accept_goal
    accept_goal-Clean early fields g s h k = ground (arith, start_goal-Clean early fields g s h)

    send_goal-Clean :
        (id : ℕ) (early : Option (Future Value)) (fields : Value) (s : Service Value)
        → Clean s
        → Clean (handle_send_goal decode empty id early fields s).1
    unfolding handle_send_goal send_to notify
    send_goal-Clean id early fields s h = ground (
      arith,
      replace_goal-Clean id early fields (notify (set_goal_request fields) s),
      accept_goal-Clean early fields,
    )

  cancel_goal-Clean :
      (f : Future Value) (ref : GoalRef) (s : Service Value)
      → Clean s
      → Clean (handle_cancel_goal f ref s).1
  unfolding handle_cancel_goal answer_cancel notify
  cancel_goal-Clean f ref s h = ground (arith, cancel-Unaborted f)

  module _ (decode : Value → Option Value) (empty : Value) where
    step-Clean : (e : Event Value) (s : Service Value) → Clean s → Clean (step decode empty e s)
    unfolding step task_step
    step-Clean (send_goal id early fields) s h = send_goal-Clean decode empty id early fields s h
    step-Clean (cancel_goal f ref) s h = cancel_goal-Clean f ref s h
    step-Clean task_starts s h = grind (arith, pick_up-Unaborted)
    step-Clean (task_finishes f) s h = grind (arith, finish_task-Unaborted f)

    run-Clean :
        (es : List (Event Value)) (s : Service Value) → Clean s → Clean (run decode empty es s)
    unfolding run
    run-Clean [] s h = h
    run-Clean (e ∷ es) s h = run-Clean es (step decode empty e s) (step-Clean e s h)

    -- Whatever the requests are, and however the tasks end, failures included, no goal of a service that
    -- began without one is ever ABORTED.
    pub run_never_aborted :
        (es : List (Event Value)) (s : Service Value) (g : Goal Value)
        → s.current_goal ≡ none
        → (run decode empty es s).current_goal ≡ some g
        → g.status ≢ aborted
    run_never_aborted es s g h e = ground (arith, run-Clean es s)
