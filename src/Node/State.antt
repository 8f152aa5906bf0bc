-- ===== src/Node/State.antt =====
-- commlib/node.py: Node.
-- `comes_up id` is whether the endpoint with this number connects once it is run. The heartbeats that a
-- thread sends are not in the model, only whether it runs. Endpoints are numbered in the order in which
-- the node makes them.
use commlib_py.Prelude.{
  ℕ, ◌+◌, Bool, true, false, Option, none, some, List, [], ◌∷◌, ◌++◌, map, all, if◌then◌else◌,
}
use commlib_py.Node.Endpoint.{Endpoint, new_endpoint, run_endpoint, stop_endpoint}

pub data NodeState : Type 0 where
  idle running stopped exited : NodeState

-- `_executor`: `None`, at work, or shut down
pub data Executor : Type 0 where
  no_executor working shut : Executor

pub record Node : Type 0 where
  pub state : NodeState
  pub has_ctrl_services : Bool
  pub heartbeats : Bool
  pub has_on_connected : Bool
  pub subscribers : List Endpoint
  pub publishers : List Endpoint
  pub rpc_services : List Endpoint
  pub rpc_clients : List Endpoint
  pub action_services : List Endpoint
  pub action_clients : List Endpoint
  pub task_producers : List Endpoint
  pub task_workers : List Endpoint
  pub wsubscribers : List Endpoint
  pub executor : Executor
  -- `_hb_thread`: whether its stop event is not set
  pub hb_thread : Option Bool
  -- heartbeat threads whose stop event nobody can set any more
  pub lost_heartbeats : ℕ
  pub created : ℕ
  -- the calls of `_on_connected`
  pub connected_calls : ℕ

-- The methods that make an endpoint, named for the list that it joins.
pub data Kind : Type 0 where
  publisher subscriber wsubscriber rpc rpc_client action action_client : Kind
  task_producer task_worker : Kind

-- Node.__init__
unfoldable pub new_node : Bool → Bool → Bool → Node
new_node has_ctrl_services heartbeats has_on_connected = record {
  state = idle;
  has_ctrl_services = has_ctrl_services;
  heartbeats = heartbeats;
  has_on_connected = has_on_connected;
  subscribers = [];
  publishers = [];
  rpc_services = [];
  rpc_clients = [];
  action_services = [];
  action_clients = [];
  task_producers = [];
  task_workers = [];
  wsubscribers = [];
  executor = no_executor;
  hb_thread = none;
  lost_heartbeats = 0;
  created = 0;
  connected_calls = 0;
}

-- the property `endpoints`
unfoldable pub endpoints : Node → List Endpoint
endpoints n =
    n.subscribers
    ++ (n.publishers
        ++ (n.rpc_services
            ++ (n.rpc_clients
                ++ (n.action_services
                    ++ (n.action_clients
                        ++ (n.task_producers ++ (n.task_workers ++ n.wsubscribers)))))))

-- `f` on every endpoint, in place
unfoldable pub each : (Endpoint → Endpoint) → Node → Node
each f n = record n {
  subscribers = map f n.subscribers;
  publishers = map f n.publishers;
  rpc_services = map f n.rpc_services;
  rpc_clients = map f n.rpc_clients;
  action_services = map f n.action_services;
  action_clients = map f n.action_clients;
  task_producers = map f n.task_producers;
  task_workers = map f n.task_workers;
  wsubscribers = map f n.wsubscribers;
}

-- `set([e.connected for e in self.endpoints]) == {True}`: there is an endpoint, and all are connected.
unfoldable pub all_connected : List Endpoint → Bool
all_connected [] = false
all_connected (e ∷ es) = all (λ x. x.is_connected) (e ∷ es)

unfoldable pub health : Node → Bool
unfolding endpoints all_connected
health n = all_connected (endpoints n)

-- the methods create_publisher, ..., create_task_worker
unfoldable pub create : Kind → Node → Node
create publisher n = record n {
  publishers = n.publishers ++ new_endpoint false n.created ∷ [];
  created = n.created + 1;
}
create subscriber n = record n {
  subscribers = n.subscribers ++ new_endpoint true n.created ∷ [];
  created = n.created + 1;
}
create wsubscriber n = record n {
  wsubscribers = n.wsubscribers ++ new_endpoint true n.created ∷ [];
  created = n.created + 1;
}
create rpc n = record n {
  rpc_services = n.rpc_services ++ new_endpoint true n.created ∷ [];
  created = n.created + 1;
}
create rpc_client n = record n {
  rpc_clients = n.rpc_clients ++ new_endpoint false n.created ∷ [];
  created = n.created + 1;
}
create action n = record n {
  action_services = n.action_services ++ new_endpoint false n.created ∷ [];
  created = n.created + 1;
}
create action_client n = record n {
  action_clients = n.action_clients ++ new_endpoint false n.created ∷ [];
  created = n.created + 1;
}
create task_producer n = record n {
  task_producers = n.task_producers ++ new_endpoint false n.created ∷ [];
  created = n.created + 1;
}
create task_worker n = record n {
  task_workers = n.task_workers ++ new_endpoint false n.created ∷ [];
  created = n.created + 1;
}

-- How `run` ends: it returns, it waits for `health` without an end, or `submit` raises a RuntimeError.
pub data Ran : Type 0 where
  runs hangs fails : Node → Ran

-- `if self._executor is None: ...`
unfoldable pub with_executor : Node → Node
with_executor n = elim (n.executor) [
  | no_executor ↦ record n { executor = working }
  | working ↦ n
  | shut ↦ n
]

-- create_start_service and create_stop_service
unfoldable pub create_ctrl_services : Node → Node
unfolding create
create_ctrl_services n = if n.has_ctrl_services then create rpc (create rpc n) else n

unfoldable pub count_lost : Option Bool → ℕ → ℕ
count_lost (some true) k = k + 1
count_lost _ k = k

-- `hb_pub = self.create_publisher(...); hb_pub.run()`, the publisher being a node's last one
unfoldable pub create_heartbeat : Bool → Node → Node
create_heartbeat comes_up n = record n {
  publishers = n.publishers ++ run_endpoint comes_up (new_endpoint false n.created) ∷ [];
  created = n.created + 1;
  hb_thread = some true;
  lost_heartbeats = count_lost n.hb_thread n.lost_heartbeats;
}

-- stop
unfoldable pub stop_all : Node → Node
unfolding each
stop_all n = record (each stop_endpoint n) {
  hb_thread = elim (n.hb_thread) [ none ↦ none | some b ↦ some false ];
  executor = elim (n.executor) [ no_executor ↦ no_executor | working ↦ shut | shut ↦ shut ];
  state = stopped;
}

unfoldable pub stop : Node → Node
unfolding stop_all
stop n = elim (n.state) [ stopped ↦ n | exited ↦ n | idle ↦ stop_all n | running ↦ stop_all n ]

-- _stop_rpc_callback, with the status that it answers
unfoldable pub stop_rpc_callback : Node → ℕ × Node
unfolding stop
stop_rpc_callback n = elim (n.state) [
  | running ↦ (0, stop (record n { state = stopped }))
  | idle ↦ (1, n)
  | stopped ↦ (1, n)
  | exited ↦ (1, n)
]

module _ (comes_up : ℕ → Bool) where
  unfoldable pub run_endpoints : Node → Node
  unfolding each
  run_endpoints n = each (λ e. run_endpoint (comes_up e.id) e) n

  -- the end of `run` with `wait`
  unfoldable pub await_health : Node → Ran
  await_health n =
      if health n
      then runs (record n {
        state = running;
        connected_calls = if n.has_on_connected then n.connected_calls + 1 else n.connected_calls;
      })
      else hangs n

  -- _init_heartbeat_thread, whose thread is lost if `submit` raises
  unfoldable pub init_heartbeat : Node → Ran
  unfolding create_heartbeat await_health
  init_heartbeat n = elim (n.executor) [
    | working ↦ await_health (create_heartbeat (comes_up n.created) n)
    | no_executor ↦ fails (create_heartbeat (comes_up n.created) n)
    | shut ↦ fails (create_heartbeat (comes_up n.created) n)
  ]

  -- `run` up to the heartbeats
  unfoldable pub prepare : Node → Node
  unfolding with_executor create_ctrl_services run_endpoints
  prepare n = run_endpoints (create_ctrl_services (with_executor n))

  -- run(wait=True)
  unfoldable pub run : Node → Ran
  unfolding prepare init_heartbeat await_health
  run n = let n' = prepare n in if n'.heartbeats then init_heartbeat n' else await_health n'

  -- _start_rpc_callback: what it answers, and how its `run` ends
  unfoldable pub start_rpc_callback : Node → ℕ × Ran
  unfolding run
  start_rpc_callback n = elim (n.state) [
    | stopped ↦ (0, run n)
    | idle ↦ (1, runs n)
    | running ↦ (1, runs n)
    | exited ↦ (1, runs n)
  ]
