-- ===== src/Action/Tests.antt =====
-- Runs of the action service on small inputs, and the theorems at inputs where their hypotheses hold.
-- Values are numbers; odd data are malformed.
use commlib_py.Prelude.{
  Bool, zero, suc, ◌==◌, ◌≤◌, ◌<◌, ◌||◌, ℕ, ◌≡◌, ◌≢◌, refl, true, false, Option, none, some, [],
  ◌∷◌, ◌==◌, ◌%◌, if◌then◌else◌,
}
use commlib_py.Action.Goal.{
  start, set_status, new_goal, pick_up, task_ends, done_callback, was_cancelled, is_done,
  store_result, is_final, cancel, cancel_task, no_cancel, await_result, Goal, accepted, running,
  succeded, aborted, queued, in_thread, returned, failed, other_error, returns,
}
use commlib_py.Action.Service.{
  GoalResponse, ResultResponse, Service, goal, handle_send_goal, handle_cancel_goal,
  handle_get_result, no_fields, raw, needs_goal, send_to, replace_goal, accept_goal, start_goal,
  notify, payload_of, started, result_response, status_code, report, refers_to, answer_cancel,
}
use commlib_py.Action.Run.{
  run, send_goal, cancel_goal, task_starts, task_finishes, step, task_step, finish_task,
}
use commlib_py.Action.Statuses.{run_never_aborted}
use commlib_py.Action.Requests.{send_goal-get_result}
use commlib_py.Action.Client.{
  Client, poll, answers, is_terminal_code, on_status, same_ref, call_back,
}
use commlib_py.Action.Polls.{get_result_waits}
use commlib_py.Action.Stuck.{send_goal_stuck}

abbrev decode : ℕ → Option ℕ
decode n = if n % 2 == 0 then some n else none

abbrev idle : Service ℕ
idle = record { typed = false; has_notify_pub = true; current_goal = none; notes = [] }

abbrev typed_idle : Service ℕ
typed_idle = record { typed = true; has_notify_pub = true; current_goal = none; notes = [] }

abbrev goal_seven : Goal ℕ
goal_seven = record {
  id = 7;
  status = running;
  payload = 4;
  result = some 0;
  cancel_event = false;
  goal_task = some in_thread;
  published = accepted ∷ running ∷ [];
}

abbrev busy_service : Service ℕ
busy_service = record idle { current_goal = some goal_seven }

program : Unit {0}
unfolding handle_send_goal handle_cancel_goal handle_get_result send_to replace_goal accept_goal
    start_goal notify payload_of started new_goal start set_status run step task_step pick_up
    finish_task task_ends done_callback was_cancelled is_done store_result result_response
    status_code report refers_to is_final needs_goal cancel cancel_task no_cancel await_result
    answer_cancel
program = tt

-- A second request while a goal is running, a failure of the task, then the result.
abbrev failing : Service ℕ
failing =
    run decode 0
      (send_goal 7 none 4
        ∷ task_starts
        ∷ send_goal 8 none 6
        ∷ task_finishes (failed (other_error []))
        ∷ [])
      idle

failing_result :
    handle_get_result (goal 7) failing ≡ returns (record { status = 4; result = raw (some 0) })
unfolding program
failing_result = refl

run_never_aborted_example : succeded ≢ aborted
unfolding program
run_never_aborted_example =
    run_never_aborted decode 0
      (send_goal 7 none 4 ∷ task_starts ∷ task_finishes (failed (other_error [])) ∷ []) idle
      (record {
        id = 7;
        status = succeded;
        payload = 4;
        result = some 0;
        cancel_event = false;
        goal_task = some (failed (other_error []));
        published = accepted ∷ running ∷ succeded ∷ [];
      })
      refl refl

abbrev stale : Goal ℕ
stale = record {
  id = 7;
  status = running;
  payload = 0;
  result = some 0;
  cancel_event = false;
  goal_task = some queued;
  published = accepted ∷ running ∷ [];
}

send_goal-get_result_example :
    ((handle_send_goal decode 0 7 none 4 idle).0
      ≡ returns (record { status = 1; goal_id = some 7; error = none }))
    × (handle_get_result (goal 7) (
          run decode 0
            (task_starts ∷ task_finishes (returned (some 9)) ∷ [])
            (handle_send_goal decode 0 7 none 4 idle).1)
        ≡ returns (record { status = 4; result = raw (some 9) }))
unfolding program
send_goal-get_result_example = send_goal-get_result decode 0 7 4 4 9 idle refl refl

-- The service after an early end of goal 7 and a cancel of it.
abbrev jammed : Service ℕ
jammed =
    run decode 0 (cancel_goal (returned none) (goal 7) ∷ [])
      (handle_send_goal decode 0 7 (some (returned (some 9))) 4 idle).1

send_goal_stuck_example :
    (needs_goal jammed.current_goal ≡ false)
    × ((g : Goal ℕ) → jammed.current_goal ≡ some g → g.id ≡ 7)
unfolding program
send_goal_stuck_example =
    send_goal_stuck decode 0 7 (returned (some 9)) 4 4 idle
      (cancel_goal (returned none) (goal 7) ∷ []) refl refl refl

abbrev client : Client ℕ
client = record {
  typed = false;
  has_on_result = true;
  has_on_goal_reached = true;
  has_on_feedback = false;
  goal_id = goal 3;
  result = none;
  status = none;
  results = [];
  goals_reached = [];
  feedbacks = [];
}

-- No answer, then RUNNING, then the end.
abbrev replies : ℕ → Option (ResultResponse ℕ)
replies zero = none
replies (suc zero) = some (record { status = 2; result = no_fields })
replies (suc (suc n)) = some (record { status = 4; result = raw (some 9) })

abbrev expired : ℕ → Bool
expired n = n == 5

get_result_waits_example :
    (j : ℕ) × (j ≤ 5)
    × (poll replies expired true 6 0 ≡ some (replies j))
    × (answers (replies j) || expired j ≡ true)
    × ((i : ℕ) → i < j → answers (replies i) || expired i ≡ false)
get_result_waits_example = get_result_waits replies expired 5 refl

poll_twice : poll replies expired true 6 0 ≡ some (replies 2)
unfolding poll answers is_terminal_code
poll_twice = refl

-- The end of the client's own goal reaches both callbacks.
status_heard : (on_status (returns (some 9)) (goal 3) succeded client).results ≡ some 9 ∷ []
unfolding on_status same_ref call_back program
status_heard = refl

abbrev refusal : GoalResponse
refusal = record { status = 0; goal_id = none; error = some 7 }
