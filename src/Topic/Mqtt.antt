-- ===== src/Topic/Mqtt.antt =====
-- The MQTT form of a unified topic: a reference reading of `topic_to_mqtt`, and the way back.
use commlib_py.Prelude.{
  ℕ, ◌≡◌, ◌≢◌, refl, ap, ◌&&◌, ◌||◌, [], ◌∷◌, ◌++◌, map, map-append, arith, ◌==◌, if◌then◌else◌,
  All,
}
use mathlib.Core.List.{map-map}
use commlib_py.Topic.Text.{Text, codes, ends_with, drop_last, replace}
use commlib_py.Topic.TextLaws.{swap, replace-single, map-replace_from}
use commlib_py.Topic.Convert.{trailing_wildcard, topic_to_mqtt, topic_from_mqtt}

-- One code point of a topic in MQTT's notation, the multi-level wildcard apart.
abbrev pub to_mqtt : ℕ → ℕ
to_mqtt c = swap b'*' b'+' (swap b'.' b'/' c)

-- Level separators are `/`, every `*` is `+`, but a final level that is `*` alone is `#`.
unfoldable pub mqtt_reference : Text → Text
mqtt_reference [] = []
mqtt_reference (c ∷ []) = to_mqtt c ∷ []
mqtt_reference (c ∷ d ∷ []) =
    if (c == b'.' || c == b'/') && d == b'*' then codes "/#" else to_mqtt c ∷ to_mqtt d ∷ []
mqtt_reference (c ∷ d ∷ e ∷ s) = to_mqtt c ∷ mqtt_reference (d ∷ e ∷ s)

trailing_wildcard-cons :
    (c d e : ℕ) (s : Text) → trailing_wildcard (c ∷ d ∷ e ∷ s) ≡ c ∷ trailing_wildcard (d ∷ e ∷ s)
unfolding trailing_wildcard ends_with drop_last
trailing_wildcard-cons c d e s = ground arith

mqtt_closed_form :
    (t : Text)
    → map (swap b'*' b'+') (trailing_wildcard (map (swap b'.' b'/') t)) ≡ mqtt_reference t
unfolding mqtt_reference
mqtt_closed_form [] = unfold trailing_wildcard ends_with in refl
mqtt_closed_form (c ∷ []) = unfold trailing_wildcard ends_with drop_last in ground arith
mqtt_closed_form (c ∷ d ∷ []) = unfold trailing_wildcard ends_with drop_last in ground arith
mqtt_closed_form (c ∷ d ∷ e ∷ s) =
    rw trailing_wildcard-cons (ap (◌∷◌ (to_mqtt c)) (mqtt_closed_form (d ∷ e ∷ s)))

plus_after_pairs :
    (s : Text) → map (swap b'*' b'+') (replace (codes "/*") (codes "/+") s) ≡ map (swap b'*' b'+') s
unfolding replace
plus_after_pairs s = map-replace_from b'/' b'*' b'+' s refl refl

-- For every topic, the cut and the replacements of `topic_to_mqtt` yield the reference form.
pub topic_to_mqtt_lem : (t : Text) → topic_to_mqtt t ≡ mqtt_reference t
unfolding topic_to_mqtt
topic_to_mqtt_lem t = simp (replace-single, plus_after_pairs, mqtt_closed_form)

abbrev pub from_mqtt : ℕ → ℕ
from_mqtt c = swap b'/' b'.' (swap b'+' b'*' (swap b'#' b'*' c))

pub topic_from_mqtt_lem : (t : Text) → topic_from_mqtt t ≡ map from_mqtt t
unfolding topic_from_mqtt
topic_from_mqtt_lem t = simp (replace-single, map-map)

-- The code points that mean something to MQTT stand in no unified topic.
abbrev pub IsPlain : Text → Type 0
IsPlain = All (λ c. (c ≢ b'/') × (c ≢ b'+') × (c ≢ b'#'))

map-mqtt_reference : (t : Text) → IsPlain t → map from_mqtt (mqtt_reference t) ≡ t
unfolding mqtt_reference
map-mqtt_reference [] h = refl
map-mqtt_reference (c ∷ []) h = ground arith
map-mqtt_reference (c ∷ d ∷ []) h = ground arith
map-mqtt_reference (c ∷ d ∷ e ∷ s) h = ground (arith, map-mqtt_reference (d ∷ e ∷ s) h.1)

-- A topic without `/`, `+` and `#` comes back from MQTT's notation as it was, wildcards included.
pub topic_from_mqtt-topic_to_mqtt : (t : Text) → IsPlain t → topic_from_mqtt (topic_to_mqtt t) ≡ t
topic_from_mqtt-topic_to_mqtt t h =
    simp (topic_to_mqtt_lem, topic_from_mqtt_lem) (map-mqtt_reference t h)

mqtt_reference-append_wildcard :
    (t : Text) → mqtt_reference (t ++ codes ".*") ≡ map to_mqtt t ++ codes "/#"
unfolding mqtt_reference
mqtt_reference-append_wildcard [] = refl
mqtt_reference-append_wildcard (c ∷ []) = refl
mqtt_reference-append_wildcard (c ∷ d ∷ []) = refl
mqtt_reference-append_wildcard (c ∷ d ∷ e ∷ s) =
    ap (◌∷◌ (to_mqtt c)) (mqtt_reference-append_wildcard (d ∷ e ∷ s))

-- No code point of the unified notation, and no multi-level wildcard.
abbrev pub IsSingleLevel : Text → Type 0
IsSingleLevel = All (λ c. (c ≢ b'.') × (c ≢ b'*') × (c ≢ b'#'))

map-from_mqtt : (m : Text) → IsSingleLevel m → map to_mqtt (map from_mqtt m) ≡ m
map-from_mqtt [] h = refl
map-from_mqtt (c ∷ m) h = ground (arith, map-from_mqtt m h.1)

-- An MQTT filter whose last level is `+` (one level) comes back from the unified notation with `#`
-- (any number of levels) in its place; the levels before it stay.
pub topic_to_mqtt-topic_from_mqtt_widens :
    (m : Text)
    → IsSingleLevel m
    → topic_to_mqtt (topic_from_mqtt (m ++ codes "/+")) ≡ m ++ codes "/#"
topic_to_mqtt-topic_from_mqtt_widens m h =
    simp (topic_to_mqtt_lem, topic_from_mqtt_lem, map-append, mqtt_reference-append_wildcard)
      (ap (λ (s : Text). s ++ codes "/#") (map-from_mqtt m h))
