-- ===== src/Node/Restarts.antt =====
-- commlib/node.py: what `run` does to a new node and to a stopped one.
use commlib_py.Prelude.{
  all, ℕ, ◌+◌, ◌≡◌, ◌⊎◌, refl, ◌∙◌, ap, Bool, true, false, Option, some, [], ◌∷◌, length,
  length-append, arith,
}
use commlib_py.Node.Endpoint.{Endpoint, new_endpoint, run_endpoint, stop_endpoint}
use commlib_py.Node.State.{
  Node, idle, running, stopped, working, shut, runs, hangs, fails, endpoints, each, stop_all, stop,
  stop_rpc_callback, start_rpc_callback, health, all_connected, count_lost, create_heartbeat,
  await_health, prepare, run,
}
use commlib_py.Node.Stops.{stop_rpc_callback_keeps}
use commlib_py.Node.Runs.{
  is_runnable, length-map, prepare_keeps, prepare-publishers, prepare-rpc_services, run_shut,
  run_up, prepare-no_endpoints, started,
}

count_lost_running : (h : Option Bool) (k : ℕ) → h ≡ some true → count_lost h k ≡ k + 1
unfolding count_lost
count_lost_running h k e = rw e refl

module _ (comes_up : ℕ → Bool) where
  stop_shuts :
      (n : Node)
      → (n.state ≡ idle) ⊎ (n.state ≡ running)
      → n.executor ≡ working
      → ((stop n).executor ≡ shut)
        × ((stop n).heartbeats ≡ n.heartbeats)
        × ((stop n).state ≡ stopped)
        × (length (stop n).publishers ≡ length n.publishers)
  unfolding stop stop_all each
  stop_shuts n h e = ground (arith, length-map stop_endpoint n.publishers)

  -- A node that was stopped by `stop` and sends heartbeats cannot run again: the executor was shut down
  -- and is not replaced, so starting the heartbeat thread raises, and the node stays STOPPED, with one
  -- publisher more.
  pub run-stop :
      (n : Node)
      → (n.state ≡ idle) ⊎ (n.state ≡ running)
      → n.executor ≡ working
      → n.heartbeats ≡ true
      → (n' : Node) × (run comes_up (stop n) ≡ fails n')
        × (n'.state ≡ stopped)
        × (length n'.publishers ≡ length n.publishers + 1)
  run-stop n h e b =
      let (shut_down, beats, marked, count) = stop_shuts n h e in
      let (n', ends, same, more) = run_shut comes_up (stop n) shut_down (beats ∙ b) in
      (n', ends, same ∙ marked, omega arith)

  -- A node without endpoints, heartbeats and control services is never healthy, and its `run` waits for
  -- ever.
  pub run_without_endpoints :
      (n : Node)
      → endpoints n ≡ []
      → n.has_ctrl_services ≡ false
      → n.heartbeats ≡ false
      → run comes_up n ≡ hangs (prepare comes_up n)
  unfolding run await_health health all_connected
  run_without_endpoints n e c b =
      ground (arith, prepare_keeps comes_up n, prepare-no_endpoints comes_up n e c)

  -- The stop service and then the start service of a running node with control services and heartbeats,
  -- whose endpoints come up when they are run, and none of which `run` passes over unconnected: both answer 0, and the node runs again, but it was never stopped, so it has one heartbeat thread and
  -- one publisher more, the old thread goes on and cannot be stopped any more, and both control services
  -- exist twice.
  pub start_rpc_callback-stop_rpc_callback :
      (n : Node)
      → ((id : ℕ) → comes_up id ≡ true)
      → all is_runnable (endpoints n) ≡ true
      → n.state ≡ running
      → n.executor ≡ working
      → n.has_ctrl_services ≡ true
      → n.heartbeats ≡ true
      → n.hb_thread ≡ some true
      → ((stop_rpc_callback n).0 ≡ 0)
        × ((n' : Node) × (start_rpc_callback comes_up (stop_rpc_callback n).1 ≡ (0, runs n'))
            × (n'.state ≡ running)
            × (n'.lost_heartbeats ≡ n.lost_heartbeats + 1)
            × (length n'.publishers ≡ length n.publishers + 1)
            × (length n'.rpc_services ≡ length n.rpc_services + 2))
  unfolding start_rpc_callback create_heartbeat endpoints
  start_rpc_callback-stop_rpc_callback n up r s e c b t =
      let marked = record n { state = stopped } in
      let m = prepare comes_up marked in
      let stops = (stop_rpc_callback_keeps n s).0 in
      let (state, beats, on_connected, thread, lost) = prepare_keeps comes_up marked in
      (
        ap (λ p. p.0) stops,
        (
          started comes_up (create_heartbeat true m),
          ap (λ p. start_rpc_callback comes_up p.1) stops
              ∙ ap (λ r. (0, r)) (run_up comes_up marked up r e b),
          refl,
          count_lost_running m.hb_thread m.lost_heartbeats (thread ∙ t) ∙ ap (λ k. k + 1) lost,
          ground (
            arith,
            prepare-publishers comes_up marked,
            length-append m.publishers (run_endpoint true (new_endpoint false m.created) ∷ []),
            length-map (λ (e : Endpoint). run_endpoint (comes_up e.id) e) n.publishers,
          ),
          ground (arith, prepare-rpc_services comes_up marked),
        ),
      )
