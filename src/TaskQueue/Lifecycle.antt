-- ===== src/TaskQueue/Lifecycle.antt =====
-- A task from its first attempt to its last, with a transport whose publishing does not fail: its
-- timers fire one after the other, and `story` is the specification, a recursion over the attempts.
use commlib_py.Prelude.{
  ℕ, zero, suc, ◌+◌, ◌-◌, ◌≡◌, refl, Option, none, some, List, [], ◌∷◌, arith, ◌<◌, ◌≤◌,
}
use commlib_py.Topic.Text.{Text}
use commlib_py.TaskQueue.Types.{TaskEnvelope, TaskResult, Payload, Fields}
use commlib_py.TaskQueue.Context.{Worker, returns, raises, Behaviour}
use commlib_py.TaskQueue.Worker.{result_dict, process_task}
use commlib_py.TaskQueue.Attempt.{started, again, buried, success, failure}

-- How a task ends: with the fields of its result, or with the exception of its last attempt.
pub data Fate (Value : Type 0) : Type 0 where
  delivered : Fields Value → Fate Value
  lost : Text → Fate Value

-- The number of attempts, the fate, and the envelope of the last attempt.
pub record Story (Float Value : Type 0) : Type 0 where
  pub attempts : ℕ
  pub fate : Fate Value
  pub last : TaskEnvelope Float Value

module _ {Float Value : Type 0} where
  -- One attempt, and its end.
  abbrev pub once : Fate Value → TaskEnvelope Float Value → Story Float Value
  once fate e = record { attempts = 1; fate = fate; last = e }

  abbrev pub result_of : Story Float Value → TaskResult Value
  result_of s = elim s.fate [
    | delivered fields ↦ success s.last.task_id fields
    | lost exc ↦ failure s.last.task_id exc
  ]

  abbrev pub dead_of : Story Float Value → List (TaskEnvelope Float Value × Text)
  dead_of s = elim s.fate [ delivered fields ↦ [] | lost exc ↦ (buried s.last, exc) ∷ [] ]

-- The delays before the second attempt and the later ones: delay * multiplier ** retry_count.
unfoldable pub waits :
    {Float : Type 0} (backoff : Float → Float → ℕ → Float) → Float → Float → ℕ → ℕ → List Float
waits backoff delay multiplier count zero = []
waits backoff delay multiplier count (suc more) =
    backoff delay multiplier (count + 1) ∷ waits backoff delay multiplier (count + 1) more

waits_more :
    {Float : Type 0} (backoff : Float → Float → ℕ → Float) (d m : Float) (c j : ℕ)
    → 0 < j
    → waits backoff d m c (j + 1 - 1) ≡ backoff d m (c + 1) ∷ waits backoff d m (c + 1) (j - 1)
unfolding waits
waits_more backoff d m c zero h = absurd (omega arith)
waits_more backoff d m c (suc j) h =
    let up : suc j + 1 - 1 ≡ suc j = omega arith in
    let down : suc j - 1 ≡ j = omega arith in rw (up, down) refl

module _ {Float Value : Type 0}
    (on_task : ℕ → TaskEnvelope Float Value → Behaviour Float Value) where
  -- The first attempt that returns decides; with no retry left an exception does.
  unfoldable pub story : ℕ → TaskEnvelope Float Value → ℕ → Story Float Value
  story zero e n = elim (on_task n (started e)).outcome [
    | returns p ↦ once (delivered (result_dict p)) e
    | raises exc ↦ once (lost exc) e
  ]
  story (suc k) e n = elim (on_task n (started e)).outcome [
    | returns p ↦ once (delivered (result_dict p)) e
    | raises exc ↦
        let s = story k (again e) (n + 1) in
        record { attempts = s.attempts + 1; fate = s.fate; last = s.last }
  ]

  pub story_returns :
      (k : ℕ) (e : TaskEnvelope Float Value) (n : ℕ) (p : Payload Value)
      → (on_task n (started e)).outcome ≡ returns p
      → story k e n ≡ once (delivered (result_dict p)) e
  unfolding story
  story_returns zero e n p o = rw (o, story)
  story_returns (suc k) e n p o = rw (o, story)

  pub story_raises_last :
      (e : TaskEnvelope Float Value) (n : ℕ) (exc : Text)
      → (on_task n (started e)).outcome ≡ raises exc
      → story zero e n ≡ once (lost exc) e
  unfolding story
  story_raises_last e n exc o = rw (o, story)

  pub story_raises :
      (k : ℕ) (e : TaskEnvelope Float Value) (n : ℕ) (exc : Text)
      → (on_task n (started e)).outcome ≡ raises exc
      → story (suc k) e n ≡ record {
        attempts = (story k (again e) (n + 1)).attempts + 1;
        fate = (story k (again e) (n + 1)).fate;
        last = (story k (again e) (n + 1)).last;
      }
  unfolding story
  story_raises k e n exc o = rw (o, story)

  -- At most one attempt more than the retries that are left, and at least one.
  pub story_bounds :
      (k : ℕ) (e : TaskEnvelope Float Value) (n : ℕ)
      → (0 < (story k e n).attempts) × ((story k e n).attempts ≤ k + 1)
  unfolding story
  story_bounds zero e n = ground arith
  story_bounds (suc k) e n = ground (arith, story_bounds k (again e) (n + 1))

  -- A longer story has one wait more.
  pub waits-story :
      (backoff : Float → Float → ℕ → Float) (d m : Float) (k : ℕ) (e : TaskEnvelope Float Value)
      (n c : ℕ)
      → waits backoff d m c ((story k e n).attempts + 1 - 1)
        ≡ backoff d m (c + 1) ∷ waits backoff d m (c + 1) ((story k e n).attempts - 1)
  waits-story backoff d m k e n c =
      waits_more backoff d m c (story k e n).attempts (story_bounds k e n).0

module _ {Float Value : Type 0} (null : Value) (backoff : Float → Float → ℕ → Float)
    (on_task : ℕ → TaskEnvelope Float Value → Behaviour Float Value)
    (publish_fails : ℕ → Option Text) where
  -- The started timers fire, one call of `_process_task` after the other, `fuel` of them at most.
  unfoldable pub run_timers : ℕ → Worker Float Value → Worker Float Value
  run_timers zero w = w
  run_timers (suc fuel) w = elim w.timers [
    | [] ↦ w
    | e ∷ rest ↦
        elim (process_task null backoff on_task publish_fails e (record w { timers = rest })) [
          | none ↦ w
          | some (escaped, w') ↦ run_timers fuel w'
        ]
  ]

  -- A task arrives, and is retried until no timer is left.
  unfoldable pub settle :
      ℕ → TaskEnvelope Float Value → Worker Float Value → Option (Worker Float Value)
  settle fuel e w = elim (process_task null backoff on_task publish_fails e w) [
    | none ↦ none
    | some (escaped, w') ↦ some (run_timers fuel w')
  ]
