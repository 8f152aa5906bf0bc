-- ===== src/Node/Tests.antt =====
-- Runs of a node, and the theorems at inputs where their hypotheses hold.
use commlib_py.Prelude.{ℕ, ◌≡◌, ◌≢◌, refl, Bool, true, false, arith}
use commlib_py.Node.Endpoint.{is_busy, new_endpoint, run_endpoint, stop_endpoint, set_state}
use commlib_py.Node.State.{
  Node, Ran, runs, hangs, fails, endpoints, each, stop_all, stop, stop_rpc_callback,
  start_rpc_callback, health, all_connected, new_node, create, subscriber, with_executor,
  create_ctrl_services, count_lost, create_heartbeat, run_endpoints, await_health, init_heartbeat,
  prepare, run,
}

program : Unit {0}
unfolding new_endpoint run_endpoint stop_endpoint set_state is_busy endpoints each stop_all stop
    stop_rpc_callback start_rpc_callback health all_connected new_node create with_executor
    create_ctrl_services count_lost create_heartbeat run_endpoints await_health init_heartbeat
    prepare run
program = tt

abbrev always : ℕ → Bool
always n = true

abbrev node_of : Ran → Node
node_of (runs n) = n
node_of (hangs n) = n
node_of (fails n) = n

abbrev robot : Node
robot = node_of (run always (create subscriber (new_node true true true)))

robot_runs : run always (create subscriber (new_node true true true)) ≡ runs robot
unfolding program
robot_runs = refl

robot_connected : health robot ≡ true
unfolding program
robot_connected = refl

-- one endpoint that does not come up
waits_for_all : run (λ n. false) (create subscriber (new_node false false false)) ≢ runs robot
unfolding program
waits_for_all = ground arith
