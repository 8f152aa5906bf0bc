-- ===== src/TaskQueue/Tests.antt =====
-- Runs of the task queue on small inputs, and the theorems at inputs where their hypotheses hold.
-- Floats and values are numbers here, and a delay is exact.
use commlib_py.Prelude.{
  ℕ, ◌-◌, ◌*◌, ◌^◌, ◌≡◌, refl, Bool, true, false, Option, none, some, [], ◌∷◌, arith, ◌<◌, ◌≤◌, ◌⊎◌,
  ◌==◌, if◌then◌else◌, length,
}
use commlib_py.Prelude.Dict.{get, put, remove}
use commlib_py.Topic.Text.{Text, codes}
use commlib_py.TaskQueue.Types.{
  TaskEnvelope, TaskResult, TaskProgress, TaskQueueConfig, nothing, other, pending, auto,
  get_dlq_name,
}
use commlib_py.TaskQueue.Context.{
  Worker, returns, raises, Behaviour, ack, send_progress, run_calls, context_call,
}
use commlib_py.TaskQueue.Worker.{
  process_task, attempt, complete, handle_exception, give_up, retry, auto_ack, enter, leave,
  result_dict,
}
use commlib_py.TaskQueue.Attempt.{Did, again, success}
use commlib_py.TaskQueue.Lifecycle.{story, result_of, dead_of, waits, settle, run_timers}
use commlib_py.TaskQueue.Resources.{process_task_restores}
use commlib_py.TaskQueue.Refinement.{settle_story}
use commlib_py.TaskQueue.Threads.{Threads, arrive, acquire, Reach, here, next, threads_bounded}
use commlib_py.TaskQueue.Producer.{Producer, new_handle, is_done, set_result, submit, handle_result}
use commlib_py.TaskQueue.Outcomes.{submit_settles}

abbrev config : TaskQueueConfig ℕ
config = record {
  queue_name = codes "jobs";
  max_retries = 3;
  retry_delay = 10;
  retry_backoff_multiplier = 2;
  task_ttl = none;
  dlq_name = none;
  max_concurrent = 1;
  ack_policy = auto;
}

abbrev idle : Worker ℕ ℕ
idle = record {
  config = config;
  semaphore = 1;
  active_tasks = [];
  timers = [];
  delays = [];
  calls = 0;
  acked = [];
  nacked = [];
  progress = [];
  results = [];
  dead_letters = [];
}

abbrev job : TaskEnvelope ℕ ℕ
job = record {
  task_id = 7;
  queue_name = codes "jobs";
  priority = 0;
  status = pending;
  retry_count = 0;
  max_retries = 3;
  ttl = none;
  task_data = [];
}

abbrev backoff : ℕ → ℕ → ℕ → ℕ
backoff delay multiplier count = delay * multiplier ^ count

-- Acknowledges twice, and raises at the first call.
abbrev flaky : ℕ → TaskEnvelope ℕ ℕ → Behaviour ℕ ℕ
flaky n e = record {
  context_calls = ack ∷ send_progress nothing 50 ∷ ack ∷ [];
  outcome = if n == 0 then raises (codes "boom") else returns (other 5);
}

abbrev broken : ℕ → TaskEnvelope ℕ ℕ → Behaviour ℕ ℕ
broken n e = record { context_calls = []; outcome = raises (codes "boom") }

abbrev working : ℕ → TaskEnvelope ℕ ℕ → Behaviour ℕ ℕ
working n e = record { context_calls = []; outcome = returns nothing }

abbrev reliable : ℕ → Option Text
reliable n = none

abbrev failing : ℕ → Option Text
failing n = some (codes "offline")

dlq_default : get_dlq_name config ≡ codes "jobs.dlq"
unfolding get_dlq_name
dlq_default = refl

program : Unit {0}
unfolding process_task attempt complete handle_exception give_up retry auto_ack enter leave
    result_dict run_calls context_call put remove settle run_timers
program = tt

abbrev end_of : Option (Option Text × Worker ℕ ℕ) → Worker ℕ ℕ
end_of none = idle
end_of (some (escaped, w)) = w

abbrev after : (ℕ → TaskEnvelope ℕ ℕ → Behaviour ℕ ℕ) → (ℕ → Option Text) → Worker ℕ ℕ
after on_task publish_fails = end_of (process_task 0 backoff on_task publish_fails job idle)

flaky_runs : process_task 0 backoff flaky reliable job idle ≡ some (none, after flaky reliable)
unfolding program
flaky_runs = refl

flaky_log :
    ((after flaky reliable).acked ≡ 7 ∷ [])
    × ((after flaky reliable).delays ≡ 20 ∷ [])
    × ((after flaky reliable).timers ≡ again job ∷ [])
unfolding program
flaky_log = (refl, refl, refl)

working_offline :
    process_task 0 backoff working failing job idle ≡ some (none, after working failing)
unfolding program
working_offline = refl

process_task_restores_example :
    ((after flaky reliable).semaphore ≡ 1) × ((after flaky reliable).active_tasks ≡ remove 7 [])
process_task_restores_example =
    process_task_restores 0 backoff flaky reliable job idle none (after flaky reliable) flaky_runs

settle_story_example :
    (w' : Worker ℕ ℕ) × (settle 0 backoff flaky reliable 2 job idle ≡ some w')
    × Did
        (story flaky 2 job 0).attempts
        []
        (result_of (story flaky 2 job 0) ∷ [])
        (dead_of (story flaky 2 job 0))
        (waits backoff 10 2 0 ((story flaky 2 job 0).attempts - 1))
        idle
        w'
settle_story_example =
    settle_story 0 backoff flaky reliable (λ n. refl) 2 job idle (omega arith) refl (omega arith)

abbrev halfway : TaskProgress ℕ ℕ
halfway = record { task_id = 7; progress_data = ("value", 0) ∷ []; percent = 50 }

flaky_settles :
    settle 0 backoff flaky reliable 2 job idle
    ≡ some (record idle {
      calls = 2;
      acked = 7 ∷ 7 ∷ [];
      delays = 20 ∷ [];
      progress = halfway ∷ halfway ∷ [];
      results = success 7 (("value", 5) ∷ []) ∷ [];
    })
unfolding program
flaky_settles = refl

abbrev two_waiting : Threads ℕ ℕ
two_waiting = record { worker = idle; waiting = job ∷ job ∷ []; inside = [] }

abbrev one_inside : Threads ℕ ℕ
one_inside = record { worker = enter job idle; waiting = job ∷ []; inside = job ∷ [] }

one_starts :
    Reach 0 backoff flaky reliable (record { worker = idle; waiting = []; inside = [] }) one_inside
one_starts =
    next (next (next here (arrive job refl)) (arrive job refl))
      (acquire [] (job ∷ []) job refl (omega arith) refl)

threads_bounded_example :
    (length one_inside.inside ≤ 1)
    × ((length one_inside.inside ≡ 1) ⊎ (0 < one_inside.worker.semaphore))
threads_bounded_example = threads_bounded 0 backoff flaky reliable idle one_inside refl one_starts

abbrev client : Producer ℕ ℕ
client = record {
  queue_name = codes "jobs";
  config = config;
  handles = [];
  fresh = 0;
  pending_tasks = [];
  sent = [];
  on_result = [];
  on_progress = [];
}

abbrev never_zero : ℕ → Bool
never_zero t = t == 0

abbrev sends : TaskEnvelope ℕ ℕ → Option Text
sends e = none

abbrev done_seven : TaskResult ℕ
done_seven = success 7 []

abbrev submitted : Producer ℕ ℕ
submitted = (submit 0 never_zero sends 7 nothing 0 none false client).2

submit_settles_example :
    let (escaped, ref, p') = submit 0 never_zero sends 7 nothing 0 none false client in
    (e : TaskEnvelope ℕ ℕ) × (w' : Worker ℕ ℕ) × (r : TaskResult ℕ) × (p'.sent ≡ e ∷ [])
    × (settle 0 backoff flaky reliable 2 e idle ≡ some w')
    × (w'.results ≡ r ∷ [])
    × (get ref (handle_result true none r p').1.handles ≡ some (set_result r (new_handle 7)))
    × (is_done (set_result r (new_handle 7)) ≡ true)
submit_settles_example =
    submit_settles 0 never_zero sends backoff flaky reliable (λ n. refl) 7 nothing 0 none client
      true none idle refl (omega arith)
