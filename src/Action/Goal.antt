-- ===== src/Action/Goal.antt =====
-- commlib/action.py: GoalStatus and GoalHandler.
-- The future of the goal's task is `concurrent.futures`': queued until a thread of the executor takes
-- it, running, and then done. A goal keeps the status messages that it has published. The status is set
-- once at the end of the constructor, so it is never `None` afterwards, and its publisher is there.
-- The callback of a task runs before a wait for the task returns. What `cancel` clears in the
-- interpreter's own tables of threads is not in the model.
use commlib_py.Prelude.{
  ℕ, Bool, true, false, ◌||◌, Option, none, some, List, [], ◌∷◌, ◌++◌, if◌then◌else◌,
}
use commlib_py.Topic.Text.{Text}

pub data GoalStatus : Type 0 where
  accepted running canceling succeded aborted canceled : GoalStatus

-- What `on_goal` raises: one of the classes that `cancel` catches, or any other.
pub data Failure : Type 0 where
  runtime_error timeout_error : Failure
  other_error : Text → Failure

pub data Future (Value : Type 0) : Type 0 where
  queued in_thread cancelled : Future Value
  returned : Option Value → Future Value
  failed : Failure → Future Value

pub record Goal (Value : Type 0) : Type 0 where
  pub id : ℕ
  pub status : GoalStatus
  -- the `data` attribute, which `on_goal` reads
  pub payload : Value
  pub result : Option Value
  pub cancel_event : Bool
  pub goal_task : Option (Future Value)
  pub published : List GoalStatus

-- What a handler's call ends with: a value, or an exception that leaves it.
pub data Ended (A : Type 0) : Type 0 where
  returns : A → Ended A
  raises : Ended A

unfoldable pub is_final : GoalStatus → Bool
is_final succeded = true
is_final canceled = true
is_final aborted = true
is_final _ = false

-- the statuses in which `cancel` returns 0 at once
unfoldable pub no_cancel : GoalStatus → Bool
no_cancel aborted = true
no_cancel canceled = true
no_cancel canceling = true
no_cancel succeded = true
no_cancel _ = false

module _ {Value : Type 0} where
  unfoldable pub is_finished : Goal Value → Bool
  unfolding is_final
  is_finished g = is_final g.status

  unfoldable pub set_status : GoalStatus → Goal Value → Goal Value
  set_status status g = record g { status = status; published = g.published ++ status ∷ [] }

  -- GoalHandler.__init__; `empty` is `msg_type.Result()`
  unfoldable pub new_goal : ℕ → Value → Goal Value
  unfolding set_status
  new_goal id empty = set_status accepted (record {
    id = id;
    status = accepted;
    payload = empty;
    result = some empty;
    cancel_event = false;
    goal_task = none;
    published = [];
  })

  -- future.cancelled()
  unfoldable pub was_cancelled : Future Value → Bool
  was_cancelled cancelled = true
  was_cancelled _ = false

  -- future.done()
  unfoldable pub is_done : Future Value → Bool
  is_done queued = false
  is_done in_thread = false
  is_done _ = true

  -- `res = future.result(); self.result = res`: without a result the call raises, and the executor
  -- drops what a callback raises.
  unfoldable pub store_result : Future Value → Goal Value → Goal Value
  store_result (returned v) g = record g { result = v }
  store_result f g = g

  unfoldable pub done_callback : Future Value → Goal Value → Goal Value
  unfolding was_cancelled is_done store_result set_status
  done_callback future g = store_result future (
      if was_cancelled future || g.cancel_event
      then set_status canceled g
      else if is_done future
      then set_status succeded g
      else g)

  -- `start`, with the callback registered before the future is done
  unfoldable pub start : Goal Value → Goal Value
  unfolding set_status
  start g = set_status running (record g { goal_task = some queued })

  -- A thread of the executor takes the task.
  unfoldable pub pick_up : Goal Value → Goal Value
  pick_up g = elim (g.goal_task) [ some queued ↦ record g { goal_task = some in_thread } | _ ↦ g ]

  -- The task ends as `future`, and its callback runs.
  unfoldable pub task_ends : Future Value → Goal Value → Goal Value
  unfolding done_callback
  task_ends future g = done_callback future (record g { goal_task = some future })

  -- `_ = self._goal_task.result()` and what follows it in the `try` of `cancel`
  unfoldable pub await_result : Future Value → Ended ℕ
  await_result (returned v) = returns 1
  await_result (failed runtime_error) = returns 0
  await_result (failed timeout_error) = returns 0
  await_result _ = raises

  -- `self._goal_task.cancel()`, `self._cancel_event.set()` and the wait, for each state of the task.
  -- A queued task is cancelled, and its callback runs at once. `ending` is how a running task ends
  -- while `cancel` waits for it.
  unfoldable pub cancel_task :
      Future Value → Option (Future Value) → Goal Value → Ended ℕ × Goal Value
  unfolding task_ends await_result
  cancel_task ending none g = (raises, g)
  cancel_task ending (some queued) g =
      (await_result cancelled, record (task_ends cancelled g) { cancel_event = true })
  cancel_task ending (some in_thread) g =
      (await_result ending, task_ends ending (record g { cancel_event = true }))
  cancel_task ending (some f) g = (await_result f, record g { cancel_event = true })

  unfoldable pub cancel : Future Value → Goal Value → Ended ℕ × Goal Value
  unfolding no_cancel set_status cancel_task
  cancel ending g =
      if no_cancel g.status
      then (returns 0, g)
      else cancel_task ending g.goal_task (set_status canceling g)
