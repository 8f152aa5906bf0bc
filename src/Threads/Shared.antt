-- ===== src/Threads/Shared.antt =====
-- commlib/thread_pool.py and commlib/rpc.py: who shares an executor with whom.
use commlib_py.Prelude.{
  ℕ, ◌≡◌, Bool, true, false, Option, none, some, List, [], ◌∷◌, ltb, arith, ◌<◌,
}
use commlib_py.Threads.Manager.{
  PoolKind, io, compute, action, World, pool_of, set_pool, new_manager, get_instance, shutdown,
  shutdown_pools, shutdown_all_pools, create_executor, get_pool, stop_service, submits,
}

-- What the endpoints of a process do with executors, until somebody shuts all pools down.
pub data Call : Type 0 where
  get : PoolKind → Option ℕ → Call
  stop : ℕ → Call

module _ (cpu_count : Option ℕ) where
  unfoldable pub run_call : Call → World → World
  unfolding get_pool stop_service
  run_call (get kind n) w = (get_pool cpu_count kind n w).1
  run_call (stop e) w = stop_service e w

  unfoldable pub run_calls : List Call → World → World
  unfolding run_call
  run_calls [] w = w
  run_calls (u ∷ us) w = run_calls us (run_call u w)

  abbrev Has : PoolKind → ℕ → World → Type 0
  Has kind e w = pool_of kind (get_instance w) ≡ some e

  get_pool-Has :
      (kind : PoolKind) (n : Option ℕ) (w : World)
      → Has kind (get_pool cpu_count kind n w).0 (get_pool cpu_count kind n w).1
  unfolding get_pool get_instance pool_of create_executor set_pool
  get_pool-Has io n w = ground arith
  get_pool-Has compute n w = ground arith
  get_pool-Has action n w = ground arith

  Has-get_pool :
      (kind : PoolKind) (n : Option ℕ) (e : ℕ) (w : World)
      → Has kind e w
      → (get_pool cpu_count kind n w).0 ≡ e
  unfolding get_pool
  Has-get_pool kind n e w h = ground arith

  run_call-Has :
      (kind : PoolKind) (e : ℕ) (u : Call) (w : World) → Has kind e w → Has kind e (run_call u w)
  unfolding run_call get_pool get_instance pool_of create_executor set_pool stop_service
  run_call-Has kind e (get k n) w h = ground arith
  run_call-Has kind e (stop x) w h = ground arith

  run_calls-Has :
      (kind : PoolKind) (e : ℕ) (us : List Call) (w : World)
      → Has kind e w
      → Has kind e (run_calls us w)
  unfolding run_calls
  run_calls-Has kind e [] w h = h
  run_calls-Has kind e (u ∷ us) w h =
      run_calls-Has kind e us (run_call u w) (run_call-Has kind e u w h)

  -- Every call for one kind of pool returns the same executor, whatever number of workers it asks for
  -- and whatever other calls and stops of services come between.
  pub get_pool_again :
      (kind : PoolKind) (n m : Option ℕ) (us : List Call) (w : World)
      → let r = get_pool cpu_count kind n w in
        (get_pool cpu_count kind m (run_calls us r.1)).0 ≡ r.0
  get_pool_again kind n m us w =
      let r = get_pool cpu_count kind n w in
      Has-get_pool kind m r.0 (run_calls us r.1)
        (run_calls-Has kind r.0 us r.1 (get_pool-Has kind n w))

  -- The executor is made, and it is shut down.
  abbrev Dead : ℕ → World → Type 0
  Dead e w = (e < w.created) × (w.is_shut e ≡ true)

  run_call-Dead : (e : ℕ) (u : Call) (w : World) → Dead e w → Dead e (run_call u w)
  unfolding run_call get_pool create_executor stop_service shutdown
  run_call-Dead e (get k n) w h = ground arith
  run_call-Dead e (stop x) w h = ground arith

  run_calls-Dead : (e : ℕ) (us : List Call) (w : World) → Dead e w → Dead e (run_calls us w)
  unfolding run_calls
  run_calls-Dead e [] w h = h
  run_calls-Dead e (u ∷ us) w h = run_calls-Dead e us (run_call u w) (run_call-Dead e u w h)

  abbrev below : Option ℕ → ℕ → Bool
  below none k = true
  below (some e) k = ltb e k

  -- The I/O pool, if there is one, has been made.
  abbrev Made : World → Type 0
  Made w = below (pool_of io (get_instance w)) w.created ≡ true

  run_call-Made : (u : Call) (w : World) → Made w → Made (run_call u w)
  unfolding run_call get_pool get_instance pool_of create_executor set_pool stop_service
  run_call-Made (get io n) w h = ground arith
  run_call-Made (get compute n) w h = ground arith
  run_call-Made (get action n) w h = ground arith
  run_call-Made (stop x) w h = h

  run_calls-Made : (us : List Call) (w : World) → Made w → Made (run_calls us w)
  unfolding run_calls
  run_calls-Made [] w h = h
  run_calls-Made (u ∷ us) w h = run_calls-Made us (run_call u w) (run_call-Made u w h)

  start-Made : (w : World) → w.instance ≡ none → Made w
  unfolding get_instance new_manager pool_of
  start-Made w h = ground arith

  Dead-stop_service :
      (e : ℕ) (w : World)
      → Made w
      → Has io e w
      → Dead e (stop_service e w) × Has io e (stop_service e w)
  unfolding stop_service shutdown get_instance
  Dead-stop_service e w m h = ground arith

  Dead-submits :
      (e : ℕ) (n : Option ℕ) (w : World)
      → Dead e w
      → Has io e w
      → submits (get_pool cpu_count io n w).0 (get_pool cpu_count io n w).1 ≡ false
  unfolding submits get_pool
  Dead-submits e n w d h = ground arith

  -- In a process that begins without executors, whatever calls come before and between: once a service
  -- of the shared I/O pool has stopped, `call_async` is refused on the executor that every later
  -- `get_io_pool` returns, until all pools are shut down or reset.
  pub stop_service_stops_all :
      (n m : Option ℕ) (ts us vs : List Call) (w : World)
      → w.instance ≡ none
      → let service = get_pool cpu_count io n (run_calls ts w) in
        let stopped = stop_service service.0 (run_calls us service.1) in
        let client = get_pool cpu_count io m (run_calls vs stopped) in
        submits client.0 client.1 ≡ false
  unfolding run_call
  stop_service_stops_all n m ts us vs w start =
      let w' = run_calls ts w in
      let service = get_pool cpu_count io n w' in
      let made = run_call-Made (get io n) w' (run_calls-Made ts w (start-Made w start)) in
      let (dead, has) =
        Dead-stop_service service.0 (run_calls us service.1) (run_calls-Made us service.1 made)
          (run_calls-Has io service.0 us service.1 (get_pool-Has io n w')) in
      let stopped = stop_service service.0 (run_calls us service.1) in
      Dead-submits service.0 m (run_calls vs stopped) (run_calls-Dead service.0 vs stopped dead)
        (run_calls-Has io service.0 vs stopped has)

  -- After all pools are shut down, the next call for a pool makes a new executor, which takes tasks,
  -- and the executors that the manager had take none.
  pub shutdown_all_pools_restarts :
      (kind other : PoolKind) (n : Option ℕ) (e : ℕ) (w : World)
      → Has other e w
      → e < w.created
      → let r = get_pool cpu_count kind n (shutdown_all_pools w) in
        (submits r.0 r.1 ≡ true) × (r.0 ≡ w.created) × (submits e r.1 ≡ false)
  unfolding get_pool get_instance pool_of create_executor shutdown_all_pools shutdown_pools shutdown
      new_manager submits
  shutdown_all_pools_restarts io io n e w h k = ground arith
  shutdown_all_pools_restarts io compute n e w h k = ground arith
  shutdown_all_pools_restarts io action n e w h k = ground arith
  shutdown_all_pools_restarts compute io n e w h k = ground arith
  shutdown_all_pools_restarts compute compute n e w h k = ground arith
  shutdown_all_pools_restarts compute action n e w h k = ground arith
  shutdown_all_pools_restarts action io n e w h k = ground arith
  shutdown_all_pools_restarts action compute n e w h k = ground arith
  shutdown_all_pools_restarts action action n e w h k = ground arith
