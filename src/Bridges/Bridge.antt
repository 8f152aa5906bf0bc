-- ===== src/Bridges/Bridge.antt =====
-- commlib/bridges.py: Bridge, TopicBridge and PTopicBridge.
-- A broker's parameters are known by the name of their Python type. The bridge's endpoints are those of
-- commlib/endpoints.py; `comes_up` says of each whether it connects once it is run.
use commlib_py.Prelude.{ℕ, Bool, ◌&&◌, ◌||◌, Option, none, some, List, [], ◌∷◌, ◌++◌, if◌then◌else◌}
use commlib_py.Topic.Text.{Text, codes, starts_with, replace}
use commlib_py.Node.Endpoint.{Endpoint, run_endpoint, stop_endpoint}

-- RPCBridgeType and TopicBridgeType, whose numbers are the same
pub data BridgeType : Type 0 where
  redis_to_amqp amqp_to_redis amqp_to_amqp redis_to_redis mqtt_to_redis : BridgeType
  mqtt_to_amqp mqtt_to_mqtt redis_to_mqtt amqp_to_mqtt : BridgeType

-- `part in s`
unfoldable pub contains : Text → Text → Bool
unfolding starts_with
contains part [] = starts_with part []
contains part (c ∷ s) = starts_with part (c ∷ s) || contains part s

-- The tests of Bridge.__init__, in order; where none holds, `from_transport` is unbound and the
-- constructor raises.
unfoldable pub bridge_type : Text → Text → Option BridgeType
unfolding contains
bridge_type a b =
    if contains (codes "redis") a && contains (codes "amqp") b
    then some redis_to_amqp
    else if contains (codes "amqp") a && contains (codes "redis") b
    then some amqp_to_redis
    else if contains (codes "amqp") a && contains (codes "amqp") b
    then some amqp_to_amqp
    else if contains (codes "redis") a && contains (codes "redis") b
    then some redis_to_redis
    else if contains (codes "mqtt") a && contains (codes "redis") b
    then some mqtt_to_redis
    else if contains (codes "mqtt") a && contains (codes "amqp") b
    then some mqtt_to_amqp
    else if contains (codes "mqtt") a && contains (codes "mqtt") b
    then some mqtt_to_mqtt
    else if contains (codes "redis") a && contains (codes "mqtt") b
    then some redis_to_mqtt
    else if contains (codes "amqp") a && contains (codes "mqtt") b
    then some amqp_to_mqtt
    else none

-- _transform_uri
unfoldable pub transform_uri : BridgeType → Text → Text
unfolding replace
transform_uri redis_to_amqp uri = replace (codes "/") (codes ".") uri
transform_uri mqtt_to_amqp uri = replace (codes "/") (codes ".") uri
transform_uri redis_to_mqtt uri = replace (codes ".") (codes "/") uri
transform_uri amqp_to_mqtt uri = replace (codes ".") (codes "/") uri
transform_uri amqp_to_redis uri = uri
transform_uri amqp_to_amqp uri = uri
transform_uri redis_to_redis uri = uri
transform_uri mqtt_to_redis uri = uri
transform_uri mqtt_to_mqtt uri = uri

pub record Bridge : Type 0 where
  pub btype : BridgeType
  pub to_uri : Text
  pub auto_transform_uris : Bool
  -- of a PTopicBridge, [] for `None`
  pub uri_transform : List (Text × Text)

-- Bridge.__init__ and `self._uri_transform = ...` of PTopicBridge.__init__, from the names of the two
-- parameter types
unfoldable pub new_bridge : Text → Text → Text → Bool → List (Text × Text) → Option Bridge
unfolding bridge_type transform_uri
new_bridge from_type to_type to_uri auto uri_transform = elim (bridge_type from_type to_type) [
  | none ↦ none
  | some t ↦ some (record {
    btype = t;
    to_uri = if auto then transform_uri t to_uri else to_uri;
    auto_transform_uris = auto;
    uri_transform = uri_transform;
  })
]

-- `for tr in self._uri_transform: ...`
unfoldable pub replace_all : List (Text × Text) → Text → Text
unfolding replace
replace_all [] topic = topic
replace_all ((old, new) ∷ more) topic = replace_all more (replace old new topic)

-- `f"{self._to_uri}.{topic}"`, if there is a prefix
unfoldable pub prefixed : Text → Text → Text
prefixed [] topic = topic
prefixed (c ∷ prefix) topic = (c ∷ prefix) ++ (codes "." ++ topic)

-- PTopicBridge.on_message: the topic that it publishes on
unfoldable pub to_topic : Bridge → Text → Text
unfolding prefixed transform_uri replace_all
to_topic b topic =
    let t = prefixed b.to_uri topic in
    replace_all b.uri_transform (if b.auto_transform_uris then transform_uri b.btype t else t)

-- MQTTTransport.publish: the topic that it gives to the client
unfoldable pub mqtt_topic : Text → Text
unfolding replace
mqtt_topic topic = replace (codes ".") (codes "/") topic

-- The two endpoints of a bridge.
pub record Ends : Type 0 where
  pub receiver : Endpoint
  pub sender : Endpoint

module _ (comes_up : ℕ → Bool) where
  -- RPCBridge.run and TopicBridge.run
  unfoldable pub run_bridge : Ends → Ends
  run_bridge e = record {
    receiver = run_endpoint (comes_up e.receiver.id) e.receiver;
    sender = run_endpoint (comes_up e.sender.id) e.sender;
  }

  -- PTopicBridge.run
  unfoldable pub run_ptopic_bridge : Ends → Ends
  run_ptopic_bridge e = record e { receiver = run_endpoint (comes_up e.receiver.id) e.receiver }

-- stop, of all of them
unfoldable pub stop_bridge : Ends → Ends
stop_bridge e = record { receiver = stop_endpoint e.receiver; sender = stop_endpoint e.sender }
