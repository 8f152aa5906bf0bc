-- ===== src/Bridges/Tests.antt =====
-- Runs of bridges and of aggregators, and the theorems at inputs where their hypotheses hold.
use commlib_py.Prelude.{
  ℕ, ◌≡◌, ◌+◌, refl, Bool, true, false, none, some, [], ◌∷◌, leb, if◌then◌else◌,
}
use commlib_py.Prelude.Dict.{get}
use commlib_py.Topic.Text.{Text, codes, starts_with, text_eq, replace, replace_from}
use commlib_py.Topic.Validate.{
  is_topic_char, re_match, match_rest, is_one_of, validate_pubsub_topic_strict,
}
use commlib_py.Node.Endpoint.{is_busy, new_endpoint, run_endpoint, stop_endpoint, set_state}
use commlib_py.Bridges.Bridge.{
  Bridge, BridgeType, redis_to_mqtt, contains, bridge_type, transform_uri, new_bridge, replace_all,
  prefixed, to_topic, mqtt_topic, run_bridge, run_ptopic_bridge, stop_bridge,
}
use commlib_py.Bridges.Processors.{Processed, returns, raises, add, on_msg_internal, on_topic}

program : Unit {0}
unfolding get starts_with text_eq replace replace_from is_topic_char re_match match_rest is_one_of
    validate_pubsub_topic_strict new_endpoint run_endpoint stop_endpoint set_state is_busy contains
    bridge_type transform_uri new_bridge replace_all prefixed to_topic mqtt_topic run_bridge
    run_ptopic_bridge stop_bridge add on_msg_internal on_topic
program = tt

abbrev redis_params : Text
redis_params = codes "commlib.transports.redis.ConnectionParameters"

abbrev amqp_params : Text
amqp_params = codes "commlib.transports.amqp.ConnectionParameters"

abbrev mqtt_params : Text
mqtt_params = codes "commlib.transports.mqtt.ConnectionParameters"

abbrev kafka_params : Text
kafka_params = codes "commlib.transports.kafka.ConnectionParameters"

abbrev direct : BridgeType → Bridge
direct k = record { btype = k; to_uri = []; auto_transform_uris = true; uri_transform = [] }

makes_bridge : new_bridge redis_params mqtt_params [] true [] ≡ some (direct redis_to_mqtt)
unfolding program
makes_bridge = refl

-- A bridge from or to Kafka is not made.
makes_no_bridge :
    (new_bridge kafka_params mqtt_params [] true [] ≡ none)
    × (new_bridge redis_params kafka_params [] true [] ≡ none)
unfolding program
makes_no_bridge = (refl, refl)

-- The run of a PTopicBridge leaves its publisher as it is.
runs_half :
    ((run_bridge
        (λ n. true)
        (record {
          receiver = new_endpoint true 0;
          sender = new_endpoint false 1;
        })).sender.is_connected
      ≡ true)
    × ((run_ptopic_bridge
          (λ n. true)
          (record {
            receiver = new_endpoint true 0;
            sender = new_endpoint false 1;
          })).sender.is_connected
        ≡ false)
unfolding program
runs_half = (refl, refl)

abbrev prefixing : Bridge
prefixing = record (direct redis_to_mqtt) { to_uri = codes "edge/one" }

prefixes : to_topic prefixing (codes "robot.pose") ≡ codes "edge/one/robot/pose"
unfolding program
prefixes = refl

-- Values are numbers, those below 100 are dicts.
abbrev is_small : ℕ → Bool
is_small n = leb n 99

abbrev always : ℕ → Bool
always n = true

abbrev successor : ℕ → Processed ℕ
successor n = if is_small n then returns (n + 1) else raises

abbrev huge : ℕ → Processed ℕ
huge n = returns 500

publishes_each :
    (on_msg_internal is_small always (successor ∷ successor ∷ []) 3).published ≡ 4 ∷ 5 ∷ []
unfolding program
publishes_each = refl

-- A topic of an aggregator without processors is heard and published nowhere.
without_processors : (on_topic is_small always ((1, successor ∷ []) ∷ []) 2 3).published ≡ []
unfolding program
without_processors = refl
