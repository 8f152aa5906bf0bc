-- ===== src/Action/Requests.antt =====
-- commlib/action.py: what the handlers of BaseActionService answer.
use commlib_py.Prelude.{
  ℕ, ◌≡◌, ◌⊎◌, ◌≢◌, Bool, true, false, ◌||◌, Option, none, some, [], ◌∷◌, ◌++◌, arith,
  if◌then◌else◌,
}
use commlib_py.Action.Goal.{
  Ended, accepted, running, canceling, canceled, is_final, Future, queued, in_thread, returned,
  Goal, returns, raises, new_goal, start, task_ends, set_status, cancel, cancel_task, pick_up,
  done_callback, store_result, is_done, was_cancelled, await_result, no_cancel,
}
use commlib_py.Action.Service.{
  GoalResponse, Service, GoalRef, blank, goal, handle_send_goal, handle_cancel_goal,
  handle_get_result, started, start_goal, accept_goal, replace_goal, send_to, notify, payload_of,
  answer_cancel, refers_to, needs_goal, result_response, status_code, report, no_fields,
}
use commlib_py.Action.Run.{task_starts, task_finishes, step, run, task_step, finish_task}

abbrev is_blank : GoalRef → Bool
is_blank blank = true
is_blank _ = false

module _ {Value : Type 0} (decode : Value → Option Value) (empty : Value) where
  -- A request for a goal is refused with the id of the current goal exactly when that goal is RUNNING
  -- or CANCELING, and then the goal stays as it is.
  pub send_goal_refused :
      (id : ℕ) (early : Option (Future Value)) (fields : Value) (s : Service Value) (g : Goal Value)
      → s.current_goal ≡ some g
      → let r = handle_send_goal decode empty id early fields s in
        let refusal : Ended GoalResponse =
          returns (record { status = 0; goal_id = none; error = some g.id }) in
        ((g.status ≡ running ⊎ g.status ≡ canceling)
          × (r.0 ≡ refusal)
          × (r.1.current_goal ≡ some g))
        ⊎ ((g.status ≢ running) × (g.status ≢ canceling) × (r.0 ≢ refusal))
  unfolding handle_send_goal send_to replace_goal accept_goal start_goal notify is_final
  send_goal_refused id early fields s g e = ground arith

  -- A goal whose data pydantic refuses makes the handler raise, and stays the current goal, ACCEPTED.
  -- The next request, whatever its data are, starts that goal, with the default data in place of its
  -- own.
  pub send_goal_malformed :
      (id id' : ℕ) (early : Option (Future Value)) (fields fields' : Value) (s : Service Value)
      → s.typed ≡ true
      → needs_goal s.current_goal ≡ true
      → decode fields ≡ none
      → let r = handle_send_goal decode empty id early fields s in
        let r' = handle_send_goal decode empty id' none fields' r.1 in
        (r.0 ≡ raises)
        × (r'.0 ≡ returns (record { status = 1; goal_id = some id; error = none }))
        × (r'.1.current_goal
            ≡ some (record {
              id = id;
              status = running;
              payload = empty;
              result = some empty;
              cancel_event = false;
              goal_task = some queued;
              published = accepted ∷ running ∷ [];
            }))
  unfolding handle_send_goal send_to replace_goal accept_goal start_goal notify is_final needs_goal
      payload_of started new_goal start set_status
  send_goal_malformed id id' early fields fields' s t n d = ground arith

  -- A goal that a ready service can read, whose task starts after `start` has returned and then ends
  -- with a value: the service reports SUCCEDED with that value, under the id that the answer named.
  pub send_goal-get_result :
      (id : ℕ) (fields d v : Value) (s : Service Value)
      → payload_of decode empty s.typed fields ≡ some d
      → needs_goal s.current_goal ≡ true
      → let r = handle_send_goal decode empty id none fields s in
        let s' = run decode empty (task_starts ∷ task_finishes (returned (some v)) ∷ []) r.1 in
        (r.0 ≡ returns (record { status = 1; goal_id = some id; error = none }))
        × (handle_get_result (goal id) s'
            ≡ returns (record { status = 4; result = report s.typed (some v) }))
  unfolding handle_send_goal send_to replace_goal start_goal notify is_final needs_goal payload_of
      started new_goal start set_status run step task_step pick_up finish_task task_ends
      done_callback was_cancelled is_done store_result handle_get_result result_response status_code
      refers_to
  send_goal-get_result id fields d v s t n = ground arith

module _ {Value : Type 0} where
  -- A cancel of a goal whose task is running ends it CANCELED, however `on_goal` ends, even with a value
  -- or a failure; the answer is 1 for a value, 0 for the two failures that `cancel` catches, and any
  -- other failure leaves the handler.
  pub cancel_goal_running :
      (ending : Future Value) (s : Service Value) (g : Goal Value)
      → s.current_goal ≡ some g
      → g.status ≡ running
      → g.goal_task ≡ some in_thread
      → let r = handle_cancel_goal ending (goal g.id) s in
        (r.0 ≡ await_result ending)
        × (r.1.current_goal
            ≡ some (
                store_result ending (record g {
                  status = canceled;
                  cancel_event = true;
                  goal_task = some ending;
                  published = (g.published ++ canceling ∷ []) ++ canceled ∷ [];
                })))
  unfolding handle_cancel_goal refers_to cancel no_cancel cancel_task set_status task_ends
      done_callback was_cancelled answer_cancel notify
  cancel_goal_running ending s g e r t = ground arith

  -- While the goal has not ended, `get_result` reports no result; its status is the goal's for the
  -- goal's id and for a blank one, and 0 for any other.
  pub get_result_early :
      (ref : GoalRef) (s : Service Value) (g : Goal Value)
      → s.current_goal ≡ some g
      → is_final g.status ≡ false
      → handle_get_result ref s
        ≡ returns (record {
          status = if is_blank ref || refers_to ref g.id then status_code g.status else 0;
          result = no_fields;
        })
  unfolding handle_get_result result_response
  get_result_early ref s g e f = ground arith
