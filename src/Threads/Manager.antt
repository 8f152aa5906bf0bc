-- ===== src/Threads/Manager.antt =====
-- commlib/thread_pool.py: ThreadPoolManager; and the executors of commlib/rpc.py.
-- An executor is the number of the `ThreadPoolExecutor(...)` call that made it. `cpu_count` is
-- `os.cpu_count()`. The locks make each call one step.
use commlib_py.Prelude.{ℕ, ◌+◌, ◌*◌, Bool, true, false, ◌==◌, Option, none, some, if◌then◌else◌}
use commlib_py.Prelude.Dict.{Dict, put}

pub data PoolKind : Type 0 where
  io compute action : PoolKind

pub record Manager : Type 0 where
  pub io_pool : Option ℕ
  pub compute_pool : Option ℕ
  pub action_pool : Option ℕ

pub record World : Type 0 where
  -- ThreadPoolManager._instance
  pub instance : Option Manager
  -- the executors made, the `max_workers` of each, and those that were shut down
  pub created : ℕ
  pub max_workers : Dict ℕ
  pub is_shut : ℕ → Bool

unfoldable pub pool_of : PoolKind → Manager → Option ℕ
pool_of io m = m.io_pool
pool_of compute m = m.compute_pool
pool_of action m = m.action_pool

unfoldable pub set_pool : PoolKind → Option ℕ → Manager → Manager
set_pool io e m = record m { io_pool = e }
set_pool compute e m = record m { compute_pool = e }
set_pool action e m = record m { action_pool = e }

-- Python's `n or d`
unfoldable pub or_else : Option ℕ → ℕ → ℕ
or_else none d = d
or_else (some n) d = if n == 0 then d else n

unfoldable pub factor : PoolKind → ℕ
factor io = 2
factor compute = 1
factor action = 4

-- ThreadPoolManager.__init__
unfoldable pub new_manager : Manager
new_manager = record { io_pool = none; compute_pool = none; action_pool = none }

unfoldable pub get_instance : World → Manager
unfolding new_manager
get_instance w = elim w.instance [ none ↦ new_manager | some m ↦ m ]

-- ThreadPoolManager.shutdown_all
unfoldable pub shutdown : Option ℕ → (ℕ → Bool) → ℕ → Bool
shutdown none is_shut e = is_shut e
shutdown (some x) is_shut e = if e == x then true else is_shut e

unfoldable pub shutdown_pools : Manager → (ℕ → Bool) → ℕ → Bool
unfolding shutdown
shutdown_pools m is_shut =
    shutdown m.action_pool (shutdown m.compute_pool (shutdown m.io_pool is_shut))

-- shutdown_all_pools()
unfoldable pub shutdown_all_pools : World → World
unfolding shutdown_pools get_instance new_manager
shutdown_all_pools w = record w {
  instance = some new_manager;
  is_shut = shutdown_pools (get_instance w) w.is_shut;
}

-- ThreadPoolManager.reset
unfoldable pub reset : World → World
unfolding shutdown_pools
reset w = elim w.instance [
  | none ↦ w
  | some m ↦ record w { instance = none; is_shut = shutdown_pools m w.is_shut }
]

module _ (cpu_count : Option ℕ) where
  unfoldable pub create_executor : PoolKind → Option ℕ → Manager → World → ℕ × World
  unfolding set_pool or_else factor
  create_executor kind n m w = (
    w.created,
    record {
      instance = some (set_pool kind (some w.created) m);
      created = w.created + 1;
      max_workers = put w.created (or_else n (or_else cpu_count 4 * factor kind)) w.max_workers;
      is_shut = λ e. if e == w.created then false else w.is_shut e;
    },
  )

  -- get_io_pool, get_compute_pool and get_action_pool
  unfoldable pub get_pool : PoolKind → Option ℕ → World → ℕ × World
  unfolding get_instance pool_of create_executor
  get_pool kind n w =
      let m = get_instance w in
      elim (pool_of kind m) [
        | none ↦ create_executor kind n m w
        | some e ↦ (e, record w { instance = some m })
      ]

-- BaseRPCService.stop, its last two lines, with the executor of the service
unfoldable pub stop_service : ℕ → World → World
unfolding shutdown
stop_service executor w = record w { is_shut = shutdown (some executor) w.is_shut }

-- `self._executor.submit(...)` in BaseRPCClient.call_async: a `RuntimeError`, here false, after a
-- shutdown.
unfoldable pub submits : ℕ → World → Bool
submits executor w = if w.is_shut executor then false else true
