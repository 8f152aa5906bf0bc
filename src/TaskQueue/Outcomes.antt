-- ===== src/TaskQueue/Outcomes.antt =====
-- What the exact story of a task means for the worker's owner and for the task's submitter.
use commlib_py.Prelude.{
  ℕ, zero, suc, ◌+◌, ◌-◌, ◌≡◌, refl, ap, Bool, true, false, Option, none, some, [], ◌∷◌, ◌++◌,
  arith, ◌<◌, ◌∙◌,
}
use commlib_py.Prelude.Dict.{get}
use commlib_py.Topic.Text.{Text}
use commlib_py.TaskQueue.Types.{TaskEnvelope, TaskResult, Payload, Fields, pending}
use commlib_py.TaskQueue.Context.{Worker, raises, Behaviour}
use commlib_py.TaskQueue.Attempt.{started, again, buried, failure}
use commlib_py.TaskQueue.Lifecycle.{
  Story, lost, story, result_of, story_raises_last, story_raises, settle,
}
use commlib_py.TaskQueue.Refinement.{settle_story}
use commlib_py.TaskQueue.Producer.{
  TaskHandle, new_handle, is_done, set_result, Producer, submit, handle_result, ttl_or,
  task_data_of,
}
use commlib_py.TaskQueue.Handles.{submit-handle_result}

module _ {Float Value : Type 0}
    (on_task : ℕ → TaskEnvelope Float Value → Behaviour Float Value) where
  story-task_id :
      (k : ℕ) (e : TaskEnvelope Float Value) (n : ℕ)
      → (story on_task k e n).last.task_id ≡ e.task_id
  unfolding story
  story-task_id zero e n = ground arith
  story-task_id (suc k) e n = ground (arith, story-task_id k (again e) (n + 1))

  story_all_raise :
      (exc : ℕ → Text) (k : ℕ) (e : TaskEnvelope Float Value) (n : ℕ)
      → ((m : ℕ) (e' : TaskEnvelope Float Value) → (on_task m e').outcome ≡ raises (exc m))
      → ((story on_task k e n).attempts ≡ k + 1) × ((story on_task k e n).fate ≡ lost (exc (n + k)))
  story_all_raise exc zero e n h =
      rw (story_raises_last on_task e n (exc n) (h n (started e)))
        (refl, ap (λ m. lost (exc m)) (omega arith))
  story_all_raise exc (suc k) e n h =
      let (count, fate) = story_all_raise exc k (again e) (n + 1) h in
      let last : n + 1 + k ≡ n + suc k = omega arith in
      rw (story_raises on_task k e n (exc n) (h n (started e)))
        (omega (arith, count), fate ∙ ap (λ m. lost (exc m)) last)

-- A fresh envelope, as `submit` makes it.
abbrev pub IsFresh : {Float Value : Type 0} → TaskEnvelope Float Value → Type 0
IsFresh e = e.retry_count ≡ 0

module _ {Float Value : Type 0} (null : Value) (backoff : Float → Float → ℕ → Float)
    (on_task : ℕ → TaskEnvelope Float Value → Behaviour Float Value)
    (publish_fails : ℕ → Option Text) (sends : (n : ℕ) → publish_fails n ≡ none) where
  -- A task whose callback always raises is tried `max_retries` times in all: its first attempt counts
  -- as one of them. Then one failure is published, with the exception of the last attempt, the task is
  -- among the dead letters, and no timer is left.
  pub settle_always_raising :
      (exc : ℕ → Text) (e : TaskEnvelope Float Value) (w : Worker Float Value)
      → ((m : ℕ) (e' : TaskEnvelope Float Value) → (on_task m e').outcome ≡ raises (exc m))
      → IsFresh e
      → 0 < e.max_retries
      → w.timers ≡ []
      → 0 < w.semaphore
      → (w' : Worker Float Value) × (last : TaskEnvelope Float Value) × (settle null backoff on_task
            publish_fails
            (e.max_retries - 1)
            e
            w
          ≡ some w')
        × (w'.calls ≡ w.calls + e.max_retries)
        × (w'.results ≡ w.results ++ failure e.task_id (exc (w.calls + (e.max_retries - 1))) ∷ [])
        × (w'.dead_letters
            ≡ w.dead_letters ++ (buried last, exc (w.calls + (e.max_retries - 1))) ∷ [])
        × (w'.timers ≡ [])
  settle_always_raising exc e w h fresh more idle free =
      let k = e.max_retries - 1 in
      let s = story on_task k e w.calls in
      let (count, fate) = story_all_raise on_task exc k e w.calls h in
      let (w', eq, did) =
        settle_story null backoff on_task publish_fails sends k e w (omega arith) idle free in
      (
        w',
        s.last,
        eq,
        omega (arith, count, did.calls_made),
        ground (arith, did, fate, story-task_id on_task k e w.calls),
        ground (arith, did, fate),
        ground (arith, did),
      )

is_done-result_of :
    {Float Value : Type 0} (s : Story Float Value) (h : TaskHandle Value)
    → is_done (set_result (result_of s) h) ≡ true
unfolding is_done set_result
is_done-result_of s h = ground arith

result_of-task_id :
    {Float Value : Type 0} (s : Story Float Value) → (result_of s).task_id ≡ s.last.task_id
result_of-task_id s = ground arith

module _ {Float Value : Type 0} (null : Value) (is_zero : Float → Bool)
    (send_fails : TaskEnvelope Float Value → Option Text) (backoff : Float → Float → ℕ → Float)
    (on_task : ℕ → TaskEnvelope Float Value → Behaviour Float Value)
    (publish_fails : ℕ → Option Text) (sends : (n : ℕ) → publish_fails n ≡ none) where
  -- From `submit`, not with fire_and_forget, to the handle: if publishing a result never raises, no timer
  -- waits at the worker and a permit is free, a worker that gets the envelope which was sent publishes one
  -- result, whatever its callback does, and with that result the submitter's handle is done.
  pub submit_settles :
      (uuid : ℕ) (msg : Payload Value) (priority : ℕ) (ttl : Option Float)
      (p : Producer Float Value) (has : Bool)
      (decode : Option (Fields Value → Option (Fields Value))) (w : Worker Float Value)
      → w.timers ≡ []
      → 0 < w.semaphore
      → let (escaped, ref, p') = submit null is_zero send_fails uuid msg priority ttl false p in
        (e : TaskEnvelope Float Value) × (w' : Worker Float Value) × (r : TaskResult Value)
        × (p'.sent ≡ p.sent ++ e ∷ [])
        × (settle null backoff on_task publish_fails (p.config.max_retries - 1) e w ≡ some w')
        × (w'.results ≡ w.results ++ r ∷ [])
        × (get ref (handle_result has decode r p').1.handles
            ≡ some (set_result r (new_handle uuid)))
        × (is_done (set_result r (new_handle uuid)) ≡ true)
  unfolding submit
  submit_settles uuid msg priority ttl p has decode w idle free =
      let e : TaskEnvelope Float Value = record {
        task_id = uuid;
        queue_name = p.queue_name;
        priority = priority;
        status = pending;
        retry_count = 0;
        max_retries = p.config.max_retries;
        ttl = ttl_or is_zero ttl p.config.task_ttl;
        task_data = task_data_of null msg;
      } in
      let k = p.config.max_retries - 1 in
      let s = story on_task k e w.calls in
      let (w', eq, did) =
        settle_story null backoff on_task publish_fails sends k e w (omega arith) idle free in
      let completed =
        submit-handle_result null is_zero send_fails uuid msg priority ttl p has decode
          (result_of s) (result_of-task_id s ∙ story-task_id on_task k e w.calls) in
      (
        e,
        w',
        result_of s,
        refl,
        eq,
        did.published,
        completed.0,
        is_done-result_of s (new_handle uuid),
      )
