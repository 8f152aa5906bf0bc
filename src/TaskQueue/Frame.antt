-- ===== src/TaskQueue/Frame.antt =====
-- What the calls of a context and an attempt leave as it was.
use commlib_py.Prelude.{ℕ, ◌≡◌, Bool, true, false, List, [], ◌∷◌, ◌++◌, arith}
use commlib_py.TaskQueue.Context.{
  Worker, ContextCall, ack, nack, send_progress, context_call, run_calls,
}

module _ {Float Value : Type 0} where
  -- The acknowledgements of one call: none yet, or the one that the flag remembers.
  abbrev pub AcksOnce : ℕ → List ℕ → Bool → Worker Float Value → Type 0
  AcksOnce task_id before false w = w.acked ≡ before
  AcksOnce task_id before true w = w.acked ≡ before ++ task_id ∷ []

  -- The fields that the callback cannot reach.
  pub record SameCore (w w' : Worker Float Value) : Type 0 where
    pub config : w'.config ≡ w.config
    pub semaphore : w'.semaphore ≡ w.semaphore
    pub active_tasks : w'.active_tasks ≡ w.active_tasks
    pub timers : w'.timers ≡ w.timers
    pub delays : w'.delays ≡ w.delays
    pub calls : w'.calls ≡ w.calls
    pub results : w'.results ≡ w.results
    pub dead_letters : w'.dead_letters ≡ w.dead_letters

  SameCore-trans : {u v w : Worker Float Value} → SameCore u v → SameCore v w → SameCore u w
  SameCore-trans p q = ground arith

  context_call-SameCore :
      (null : Value) (id : ℕ) (c : ContextCall Float Value) (b : Bool) (w : Worker Float Value)
      → SameCore w (context_call null id c b w).1
  unfolding context_call
  context_call-SameCore null id ack b w = ground arith
  context_call-SameCore null id nack b w = ground arith
  context_call-SameCore null id (send_progress p x) b w = ground arith

  pub run_calls-SameCore :
      (null : Value) (id : ℕ) (cs : List (ContextCall Float Value)) (b : Bool)
      (w : Worker Float Value)
      → SameCore w (run_calls null id cs b w).1
  unfolding run_calls
  run_calls-SameCore null id [] b w = ground arith
  run_calls-SameCore null id (c ∷ cs) b w =
      let (b', w') = context_call null id c b w in
      SameCore-trans (context_call-SameCore null id c b w) (run_calls-SameCore null id cs b' w')

  context_call-AcksOnce :
      (null : Value) (id : ℕ) (before : List ℕ) (c : ContextCall Float Value) (b : Bool)
      (w : Worker Float Value)
      → AcksOnce id before b w
      → AcksOnce id before (context_call null id c b w).0 (context_call null id c b w).1
  unfolding context_call
  context_call-AcksOnce null id before ack true w h = h
  context_call-AcksOnce null id before ack false w h = ground arith
  context_call-AcksOnce null id before nack b w h = ground arith
  context_call-AcksOnce null id before (send_progress p x) b w h = ground arith

  pub run_calls-AcksOnce :
      (null : Value) (id : ℕ) (before : List ℕ) (cs : List (ContextCall Float Value)) (b : Bool)
      (w : Worker Float Value)
      → AcksOnce id before b w
      → AcksOnce id before (run_calls null id cs b w).0 (run_calls null id cs b w).1
  unfolding run_calls
  run_calls-AcksOnce null id before [] b w h = h
  run_calls-AcksOnce null id before (c ∷ cs) b w h =
      let (b', w') = context_call null id c b w in
      run_calls-AcksOnce null id before cs b' w' (context_call-AcksOnce null id before c b w h)
