-- ===== src/Topic/Convert.antt =====
-- commlib/utils.py: topic names between the unified notation and those of the protocols.
use commlib_py.Prelude.{◌≡◌, refl, Bool, ◌||◌, ◌++◌, String, str_eq, if◌then◌else◌}
use commlib_py.Topic.Text.{Text, codes, ends_with, drop_last, replace}

-- The multi-level wildcard: a trailing `/*` becomes `/#`.
unfoldable pub trailing_wildcard : Text → Text
trailing_wildcard mqtt_topic =
    if ends_with (codes "/*") mqtt_topic then drop_last 2 mqtt_topic ++ codes "/#" else mqtt_topic

unfoldable pub topic_to_mqtt : Text → Text
topic_to_mqtt topic =
    let mqtt_topic = trailing_wildcard (replace (codes ".") (codes "/") topic) in
    replace (codes "*") (codes "+") (replace (codes "/*") (codes "/+") mqtt_topic)

unfoldable pub topic_from_mqtt : Text → Text
topic_from_mqtt topic =
    replace (codes "/") (codes ".")
      (replace (codes "+") (codes "*") (replace (codes "#") (codes "*") topic))

unfoldable pub topic_to_redis : Text → Text
topic_to_redis topic = topic

unfoldable pub topic_from_redis : Text → Text
topic_from_redis topic = topic

unfoldable pub topic_to_amqp : Text → Text
topic_to_amqp topic = topic

unfoldable pub topic_from_amqp : Text → Text
topic_from_amqp topic = topic

unfoldable pub topic_to_kafka : Text → Text
topic_to_kafka topic = replace (codes ".") (codes "-") topic

unfoldable pub topic_from_kafka : Text → Text
topic_from_kafka topic = replace (codes "-") (codes ".") topic

-- The two `ValueError`s of `convert_topic_notation`, and its result.
pub data Converted : Type 0 where
  converted : Text → Converted
  unsupported_source : String → Converted
  unsupported_target : String → Converted

-- p in supported_protocols
unfoldable pub is_supported : String → Bool
is_supported p =
    str_eq p "commlib" || str_eq p "mqtt" || str_eq p "redis" || str_eq p "amqp" || str_eq p "kafka"

-- The first chain of tests: to the unified notation.
unfoldable pub to_unified : String → Text → Text
to_unified from topic =
    if str_eq from "mqtt"
    then topic_from_mqtt topic
    else if str_eq from "redis"
    then topic_from_redis topic
    else if str_eq from "amqp"
    then topic_from_amqp topic
    else if str_eq from "kafka"
    then topic_from_kafka topic
    else topic

-- The second chain of tests: from the unified notation.
unfoldable pub from_unified : String → Text → Text
from_unified to commlib_topic =
    if str_eq to "mqtt"
    then topic_to_mqtt commlib_topic
    else if str_eq to "redis"
    then topic_to_redis commlib_topic
    else if str_eq to "amqp"
    then topic_to_amqp commlib_topic
    else if str_eq to "kafka"
    then topic_to_kafka commlib_topic
    else commlib_topic

unfoldable pub convert_topic_notation : Text → String → String → Converted
convert_topic_notation topic from to =
    if is_supported from
    then if is_supported to
      then if str_eq from to
        then converted topic
        else converted (from_unified to (to_unified from topic))
      else unsupported_target to
    else unsupported_source from

test_to_mqtt : topic_to_mqtt (codes "sensors.*.t.*") ≡ codes "sensors/+/t/#"
unfolding topic_to_mqtt trailing_wildcard ends_with drop_last replace
test_to_mqtt = refl

test_convert :
    convert_topic_notation (codes "sensors/+/t") "mqtt" "kafka" ≡ converted (codes "sensors-*-t")
unfolding convert_topic_notation is_supported to_unified from_unified topic_from_mqtt topic_to_kafka
    replace
test_convert = refl
