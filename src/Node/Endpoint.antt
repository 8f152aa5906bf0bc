-- ===== src/Node/Endpoint.antt =====
-- commlib/endpoints.py: BaseEndpoint, with the transport that a subclass has set, so that the
-- RuntimeError of `run` and `stop` for a missing one does not arise.
-- Subscribers and RPC services, which are `threaded`, override `run` by a thread of their own with a
-- second guard. An action service or client, which runs several endpoints, counts as one.
-- `comes_up` is whether the transport that is started is connected in the end.
use commlib_py.Prelude.{ℕ, Bool, true, false, not, ◌&&◌, if◌then◌else◌}

pub data EndpointState : Type 0 where
  disconnected connected connecting disconnecting : EndpointState

pub record Endpoint : Type 0 where
  pub id : ℕ
  pub state : EndpointState
  pub threaded : Bool
  -- Its class overrides `stop` without a call of the base class: Subscriber of AMQP and of Kafka
  pub own_stop : Bool
  -- `_transport.is_connected`
  pub is_connected : Bool

-- BaseEndpoint.__init__, for a class with the `stop` of BaseEndpoint
unfoldable pub new_endpoint : Bool → ℕ → Endpoint
new_endpoint threaded id = record {
  id = id;
  state = disconnected;
  threaded = threaded;
  own_stop = false;
  is_connected = false;
}

unfoldable pub set_state : EndpointState → Endpoint → Endpoint
set_state state e = record e { state = state }

-- `self._state in (EndpointState.CONNECTED, EndpointState.CONNECTING)`
unfoldable pub is_busy : EndpointState → Bool
is_busy connected = true
is_busy connecting = true
is_busy disconnected = false
is_busy disconnecting = false

-- run: what the wait for the connection returns is not looked at.
unfoldable pub run_endpoint : Bool → Endpoint → Endpoint
unfolding set_state is_busy
run_endpoint comes_up e =
    if not e.is_connected && not (e.threaded && is_busy e.state)
    then set_state connected (record e { is_connected = comes_up })
    else e

-- BaseEndpoint.stop; a `stop` of its own closes its queue or its consumer, and leaves the transport and the state
-- as they are.
unfoldable pub stop_endpoint : Endpoint → Endpoint
unfolding set_state
stop_endpoint e =
    if e.own_stop
    then e
    else if e.is_connected
    then set_state disconnected (record e { is_connected = false })
    else e
