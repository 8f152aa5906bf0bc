-- ===== src/TaskQueue/Threads.antt =====
-- The threads of a worker: any number of calls of `_process_task`, in any order. What an attempt does
-- to the worker is one step, placed where it ends; the waiting of the others goes on meanwhile.
use commlib_py.Prelude.{
  ◌⊎◌, ℕ, ◌+◌, ◌≡◌, Option, List, [], ◌∷◌, ◌++◌, arith, ◌<◌, ◌≤◌, length, length-append,
}
use commlib_py.Topic.Text.{Text}
use commlib_py.TaskQueue.Types.{TaskEnvelope}
use commlib_py.TaskQueue.Context.{Worker, Behaviour}
use commlib_py.TaskQueue.Resources.{attempt-semaphore}
use commlib_py.TaskQueue.Worker.{enter, leave, attempt}

-- `waiting` for the semaphore, and `inside` the `try`.
pub record Threads (Float Value : Type 0) : Type 0 where
  pub worker : Worker Float Value
  pub waiting : List (TaskEnvelope Float Value)
  pub inside : List (TaskEnvelope Float Value)

module _ {Float Value : Type 0} (null : Value) (backoff : Float → Float → ℕ → Float)
    (on_task : ℕ → TaskEnvelope Float Value → Behaviour Float Value)
    (publish_fails : ℕ → Option Text) where
  pub data Step (s t : Threads Float Value) : Type 0 where
    -- a transport delivers a task, or a timer fires
    arrive :
        (e : TaskEnvelope Float Value) → t ≡ record s { waiting = s.waiting ++ e ∷ [] } → Step s t
    acquire :
        (before after : List (TaskEnvelope Float Value)) (e : TaskEnvelope Float Value)
        → s.waiting ≡ before ++ e ∷ after
        → 0 < s.worker.semaphore
        → t ≡ record { worker = enter e s.worker; waiting = before ++ after; inside = e ∷ s.inside }
        → Step s t
    finish :
        (before after : List (TaskEnvelope Float Value)) (e : TaskEnvelope Float Value)
        → s.inside ≡ before ++ e ∷ after
        → t ≡ record {
          worker = leave e.task_id (attempt null backoff on_task publish_fails e s.worker).2;
          waiting = s.waiting;
          inside = before ++ after;
        }
        → Step s t

  pub data Reach (s : Threads Float Value) : Threads Float Value → Type 0 where
    here : Reach s s
    next : {t u : Threads Float Value} → Reach s t → Step t u → Reach s u

  -- Every permit is in the semaphore or with a thread.
  abbrev pub Permits : ℕ → Threads Float Value → Type 0
  Permits n s = s.worker.semaphore + length s.inside ≡ n

  Step-Permits : {s t : Threads Float Value} (n : ℕ) → Step s t → Permits n s → Permits n t
  unfolding enter leave
  Step-Permits n (arrive e eq) h = ground arith
  Step-Permits n (acquire before after e w p eq) h = ground arith
  Step-Permits {s} n (finish before after e i eq) h = ground (
    arith,
    attempt-semaphore null backoff on_task publish_fails e s.worker,
    length-append before (e ∷ after),
    length-append before after,
  )

  Reach-Permits : {s t : Threads Float Value} (n : ℕ) → Permits n s → Reach s t → Permits n t
  Reach-Permits n h here = h
  Reach-Permits n h (next r st) = Step-Permits n st (Reach-Permits n h r)

  -- From a worker at rest, in every order of arrivals, starts and ends, at most `max_concurrent` tasks
  -- are inside `_process_task`, and unless there are that many, a waiting task can start.
  pub threads_bounded :
      (w : Worker Float Value) (s : Threads Float Value)
      → w.semaphore ≡ w.config.max_concurrent
      → Reach (record { worker = w; waiting = []; inside = [] }) s
      → (length s.inside ≤ w.config.max_concurrent)
        × ((length s.inside ≡ w.config.max_concurrent) ⊎ (0 < s.worker.semaphore))
  threads_bounded w s full r =
      let h = Reach-Permits w.config.max_concurrent (omega arith) r in (omega arith, ground arith)
