-- ===== src/Node/Stops.antt =====
-- commlib/node.py: what stops a node, and what only says so.
use commlib_py.Prelude.{◌≡◌, ◌≢◌, ◌⊎◌, true, false, some, map, map-append, All, arith}
use commlib_py.Node.Endpoint.{Endpoint}
use commlib_py.Node.State.{
  Node, running, stopped, working, endpoints, each, stop, stop_rpc_callback, health,
}

pub endpoints-each :
    (f : Endpoint → Endpoint) (n : Node) → endpoints (each f n) ≡ map f (endpoints n)
unfolding endpoints each
endpoints-each f n = simp map-append

-- Disconnected, or of a class with its own `stop`
abbrev pub IsLeft : Endpoint → Type 0
IsLeft e = (e.is_connected ≡ false) ⊎ (e.own_stop ≡ true)

-- Nothing of the node is connected, but for endpoints with their own `stop`, or at work, and a `stop` changes
-- nothing.
abbrev pub Stopped : Node → Type 0
Stopped n =
    All IsLeft (endpoints n)
    × (n.hb_thread ≢ some true)
    × (n.executor ≢ working)
    × (n.state ≡ stopped)
    × (stop n ≡ n)

-- The stop service of a running node answers 0 and marks the node as STOPPED, and does nothing else:
-- its endpoints stay connected, its heartbeat thread and its executor go on, and since the node is
-- marked, every later `stop` returns at once as well.
pub stop_rpc_callback_keeps :
    (n : Node)
    → n.state ≡ running
    → (stop_rpc_callback n ≡ (0, record n { state = stopped }))
      × (stop (stop_rpc_callback n).1 ≡ (stop_rpc_callback n).1)
      × (endpoints (stop_rpc_callback n).1 ≡ endpoints n)
      × (health (stop_rpc_callback n).1 ≡ health n)
unfolding stop_rpc_callback stop endpoints health
stop_rpc_callback_keeps n h = ground arith
