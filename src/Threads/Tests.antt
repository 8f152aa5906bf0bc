-- ===== src/Threads/Tests.antt =====
-- Runs of the shared pools on small inputs, and the theorems at inputs where their hypotheses hold.
use commlib_py.Prelude.{false, none, some, [], ◌∷◌}
use commlib_py.Threads.Manager.{io, compute, World, get_pool, stop_service}
use commlib_py.Threads.Shared.{get, run_calls}

abbrev at_start : World
at_start = record { instance = none; created = 0; max_workers = []; is_shut = λ e. false }

abbrev io_pool_made : World
io_pool_made = record {
  instance = some (record { io_pool = some 0; compute_pool = none; action_pool = none });
  created = 1;
  max_workers = (0, 8) ∷ [];
  is_shut = λ e. false;
}

abbrev one_stopped : World
one_stopped = run_calls none (get compute none ∷ []) (
    stop_service (get_pool none io none (run_calls none [] at_start)).0
      (run_calls none [] (get_pool none io none (run_calls none [] at_start)).1))
