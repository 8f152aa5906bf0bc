-- ===== src/Topic/Transport.antt =====
-- `_transform_topic_cached` of commlib/transports/mqtt.py, and how it compares with `topic_to_mqtt`
-- of commlib/utils.py.
use commlib_py.Prelude.{
  ℕ, zero, ◌≡◌, refl, Bool, true, false, ◌||◌, [], ◌∷◌, ◌++◌, map, arith, ◌==◌, if◌then◌else◌,
}
use commlib_py.Topic.Text.{Text, codes, ends_with, drop_last, replace, replace_from}
use commlib_py.Topic.TextLaws.{swap, replace-single}
use commlib_py.Topic.Convert.{topic_to_mqtt}
use commlib_py.Topic.Mqtt.{mqtt_reference, topic_to_mqtt_lem}

-- if topic.endswith("*"): topic = topic[:-1] + "#"
unfoldable pub trailing_star : Text → Text
trailing_star topic = if ends_with (codes "*") topic then drop_last 1 topic ++ codes "#" else topic

unfoldable pub transform_topic : Text → Text
transform_topic topic =
    replace (codes "*") (codes "#")
      (replace (codes "/*") (codes "/+") (replace (codes ".") (codes "/") (trailing_star topic)))

test_transform : transform_topic (codes "a.*.b*c.*") ≡ codes "a/+/b#c/#"
unfolding transform_topic trailing_star ends_with drop_last replace
test_transform = refl

-- Every `*` is a whole level: it stands behind a separator, and one stands behind it unless the
-- topic ends. `after` tells that the code point before was a separator.
abbrev pub HasLevelWildcards : Bool → Text → Type 0
HasLevelWildcards after [] = Unit
HasLevelWildcards after (c ∷ s) =
    ((c == b'*') ≡ true → after ≡ true) × HasLevelWildcards (c == b'.' || c == b'/') s

abbrev dotted : ℕ → ℕ
dotted = swap b'.' b'/'

-- What the last two replacements do: a `*` behind a slash is `+`, any other is `#`.
levels : Bool → Text → Text
levels after [] = []
levels after (c ∷ s) =
    (if c == b'*' then if after then b'+' else b'#' else c) ∷ levels (c == b'/') s

levels_after :
    (c : ℕ) (s : Text) (b : Bool) → (c == b'*') ≡ false → levels b (c ∷ s) ≡ levels false (c ∷ s)
unfolding levels
levels_after c s b h = rw h

hash_after_pairs :
    (s : Text)
    → map (swap b'*' b'#') (replace_from (codes "/*") (codes "/+") zero s) ≡ levels false s
unfolding levels replace_from
hash_after_pairs [] = refl
hash_after_pairs (c ∷ []) = ground arith
hash_after_pairs (c ∷ d ∷ s) =
    ground (arith, hash_after_pairs s, hash_after_pairs (d ∷ s), levels_after d s true)

trailing_star-cons : (c d : ℕ) (s : Text) → trailing_star (c ∷ d ∷ s) ≡ c ∷ trailing_star (d ∷ s)
unfolding trailing_star ends_with drop_last
trailing_star-cons c d s = ground arith

-- The reading of a whole topic, code point by code point.
reading : Bool → Text → Text
reading after [] = []
reading after (c ∷ []) = (if c == b'*' then b'#' else dotted c) ∷ []
reading after (c ∷ d ∷ s) =
    (if c == b'*' then if after then b'+' else b'#' else dotted c)
    ∷ reading (c == b'.' || c == b'/') (d ∷ s)

levels-trailing_star : (b : Bool) (t : Text) → levels b (map dotted (trailing_star t)) ≡ reading b t
unfolding levels reading
levels-trailing_star b [] = unfold trailing_star ends_with in refl
levels-trailing_star b (c ∷ []) = unfold trailing_star ends_with drop_last in ground arith
levels-trailing_star b (c ∷ d ∷ s) =
    rw trailing_star-cons (ground (arith, levels-trailing_star (c == b'.' || c == b'/') (d ∷ s)))

levels-replace :
    (s : Text) → map (swap b'*' b'#') (replace (codes "/*") (codes "/+") s) ≡ levels false s
unfolding replace
levels-replace s = hash_after_pairs s

transform_topic_lem : (t : Text) → transform_topic t ≡ reading false t
unfolding transform_topic
transform_topic_lem t = simp (replace-single, levels-replace, levels-trailing_star)

reading-eq-mqtt_reference :
    (b : Bool) (c d : ℕ) (s : Text)
    → HasLevelWildcards b (c ∷ d ∷ s)
    → reading b (c ∷ d ∷ s) ≡ mqtt_reference (c ∷ d ∷ s)
unfolding reading mqtt_reference
reading-eq-mqtt_reference b c d [] h = ground arith
reading-eq-mqtt_reference b c d (e ∷ s) h =
    ground (arith, reading-eq-mqtt_reference (c == b'.' || c == b'/') d e s h.1)

reading-eq : (t : Text) → HasLevelWildcards false t → reading false t ≡ mqtt_reference t
reading-eq [] h = unfold reading mqtt_reference in refl
reading-eq (c ∷ []) h = unfold reading mqtt_reference in ground arith
reading-eq (c ∷ d ∷ s) h = reading-eq-mqtt_reference false c d s h

-- The MQTT transport and `topic_to_mqtt` name the same MQTT topic wherever each `*` stands behind a
-- separator.
pub transform_topic-eq-topic_to_mqtt :
    (t : Text) → HasLevelWildcards false t → transform_topic t ≡ topic_to_mqtt t
transform_topic-eq-topic_to_mqtt t h =
    simp (transform_topic_lem, topic_to_mqtt_lem) (reading-eq t h)
