-- ===== src/Topic/Routes.antt =====
-- Conversion between any two protocols, by way of the unified notation.
use commlib_py.Prelude.{
  ◌≡◌, ◌≢◌, refl, ap, true, [], ◌∷◌, map, arith, String, str_eq, eq_iff, All, Bool-cases, inl, inr,
}
use commlib_py.Topic.Text.{Text, codes, replace}
use commlib_py.Topic.TextLaws.{swap, replace-single}
use commlib_py.Topic.Mqtt.{IsPlain, topic_from_mqtt-topic_to_mqtt}
use commlib_py.Topic.Convert.{
  topic_to_redis, topic_from_redis, topic_to_amqp, topic_from_amqp, topic_to_kafka,
  topic_from_kafka, converted, is_supported, to_unified, from_unified, convert_topic_notation,
}

abbrev pub HasNoHyphen : Text → Type 0
HasNoHyphen = All (λ c. c ≢ b'-')

map-kafka : (t : Text) → HasNoHyphen t → map (swap b'-' b'.') (map (swap b'.' b'-') t) ≡ t
map-kafka [] h = refl
map-kafka (c ∷ t) h = ground (arith, map-kafka t h.1)

-- A topic without a hyphen comes back from Kafka's notation as it was.
pub topic_from_kafka-topic_to_kafka :
    (t : Text) → HasNoHyphen t → topic_from_kafka (topic_to_kafka t) ≡ t
unfolding topic_from_kafka topic_to_kafka
topic_from_kafka-topic_to_kafka t h = simp replace-single (map-kafka t h)

-- What a topic of Kafka turns into, hyphens of its own included.
map-hyphen : (t : Text) → map (swap b'-' b'.') (map (swap b'.' b'-') t) ≡ map (swap b'-' b'.') t
map-hyphen [] = refl
map-hyphen (c ∷ t) = ground (arith, map-hyphen t)

-- For every topic, the way to Kafka and back turns each of its own hyphens into a dot.
pub topic_from_kafka-topic_to_kafka_hyphens :
    (t : Text) → topic_from_kafka (topic_to_kafka t) ≡ replace (codes "-") (codes ".") t
unfolding topic_from_kafka topic_to_kafka
topic_from_kafka-topic_to_kafka_hyphens t = simp replace-single (map-hyphen t)

to_unified-from_unified :
    (p : String) (t : Text) → IsPlain t → HasNoHyphen t → to_unified p (from_unified p t) ≡ t
unfolding to_unified from_unified topic_to_redis topic_from_redis topic_to_amqp topic_from_amqp
to_unified-from_unified p t h k =
    ground (arith, topic_from_mqtt-topic_to_mqtt t h, topic_from_kafka-topic_to_kafka t k)

-- Between supported protocols, the form that a unified topic has in the one turns into the form
-- that it has in the other, whichever two they are.
pub convert_topic_notation_routes :
    (p q : String) (t : Text)
    → is_supported p ≡ true
    → is_supported q ≡ true
    → IsPlain t
    → HasNoHyphen t
    → convert_topic_notation (from_unified p t) p q ≡ converted (from_unified q t)
unfolding convert_topic_notation
convert_topic_notation_routes p q t hp hq h k = elim (Bool-cases (str_eq p q)) [
  | inl same ↦ rw (hp, hq, same) (ap (λ r. converted (from_unified r t)) ((eq_iff p q).0 same))
  | inr other ↦
      rw (hp, hq, other) (ap (λ u. converted (from_unified q u)) (to_unified-from_unified p t h k))
]
