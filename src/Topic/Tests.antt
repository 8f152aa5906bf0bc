-- ===== src/Topic/Tests.antt =====
-- The theorems on topics at concrete topics.
use commlib_py.Prelude.{◌≡◌, refl, true, some, arith}
use commlib_py.Topic.Text.{Text, codes}
use commlib_py.Topic.Convert.{topic_to_mqtt, topic_from_mqtt, is_supported}
use commlib_py.Topic.Mqtt.{mqtt_reference, topic_to_mqtt_lem, topic_from_mqtt-topic_to_mqtt}
use commlib_py.Topic.Transport.{transform_topic, transform_topic-eq-topic_to_mqtt}
use commlib_py.Topic.Validate.{
  is_topic_char, re_match, match_rest, is_one_of, valid, validate_pubsub_topic_strict,
}

abbrev wild : Text
wild = codes "a.*.b.*"

abbrev plain : Text
plain = codes "room.t1"

topic_to_mqtt_lem_example : topic_to_mqtt wild ≡ mqtt_reference wild
topic_to_mqtt_lem_example = topic_to_mqtt_lem wild

reference_of_wild : mqtt_reference wild ≡ codes "a/+/b/#"
unfolding mqtt_reference
reference_of_wild = refl

topic_from_mqtt-topic_to_mqtt_example : topic_from_mqtt (topic_to_mqtt wild) ≡ wild
topic_from_mqtt-topic_to_mqtt_example = topic_from_mqtt-topic_to_mqtt wild (ground arith)

mqtt_supported : is_supported "mqtt" ≡ true
unfolding is_supported
mqtt_supported = refl

kafka_supported : is_supported "kafka" ≡ true
unfolding is_supported
kafka_supported = refl

transform_topic-eq-topic_to_mqtt_example : transform_topic wild ≡ topic_to_mqtt wild
transform_topic-eq-topic_to_mqtt_example = transform_topic-eq-topic_to_mqtt wild (ground arith)

plain_accepted : validate_pubsub_topic_strict (some plain) ≡ valid
unfolding validate_pubsub_topic_strict is_one_of re_match match_rest is_topic_char
plain_accepted = refl
