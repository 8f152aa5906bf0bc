-- ===== src/Topic/Names.antt =====
-- What a publisher's valid topic is, and what the MQTT transport makes of it.
use commlib_py.Prelude.{
  ℕ, ◌≡◌, ◌≢◌, refl, Bool, true, false, ◌||◌, Option, none, some, [], ◌∷◌, ◌++◌, arith, ◌==◌, all,
  All,
}
use commlib_py.Topic.Text.{Text, codes, text_eq}
use commlib_py.Topic.Mqtt.{mqtt_reference, topic_to_mqtt_lem}
use commlib_py.Topic.Transport.{
  HasLevelWildcards, transform_topic, transform_topic-eq-topic_to_mqtt,
}
use commlib_py.Topic.Validate.{
  is_topic_char, is_pattern_char, re_match, match_rest, is_one_of, valid, validate_pubsub_topic,
  validate_pubsub_topic_strict,
}

-- No wildcard of any notation.
abbrev pub IsName : Text → Type 0
IsName = All (λ c. (c ≢ b'*') × (c ≢ b'+') × (c ≢ b'#'))

IsName-char : (c : ℕ) → is_topic_char c ≡ true → (c ≢ b'*') × (c ≢ b'+') × (c ≢ b'#')
unfolding is_topic_char
IsName-char c h = ground arith

IsName-match_rest : (s : Text) → match_rest is_topic_char s ≡ true → IsName s
unfolding match_rest
IsName-match_rest [] h = tt
IsName-match_rest (c ∷ []) h = ground (arith, IsName-char c)
IsName-match_rest (c ∷ d ∷ s) h = ground (arith, IsName-char c, IsName-match_rest (d ∷ s))

IsName-re_match : (t : Text) → re_match is_topic_char t ≡ true → IsName t
unfolding re_match
IsName-re_match [] h = tt
IsName-re_match (c ∷ s) h = ground (arith, IsName-char c, IsName-match_rest s)

re_match-validate :
    (t : Text) → validate_pubsub_topic_strict (some t) ≡ valid → re_match is_topic_char t ≡ true
unfolding validate_pubsub_topic_strict
re_match-validate t h = ground arith

IsName→HasLevelWildcards : (b : Bool) (t : Text) → IsName t → HasLevelWildcards b t
IsName→HasLevelWildcards b [] h = tt
IsName→HasLevelWildcards b (c ∷ t) h =
    (λ e. ground arith, IsName→HasLevelWildcards (c == b'.' || c == b'/') t h.1)

IsName-mqtt_reference : (t : Text) → IsName t → IsName (mqtt_reference t)
unfolding mqtt_reference
IsName-mqtt_reference [] h = h
IsName-mqtt_reference (c ∷ []) h = ground arith
IsName-mqtt_reference (c ∷ d ∷ []) h = ground arith
IsName-mqtt_reference (c ∷ d ∷ e ∷ s) h = ground (arith, IsName-mqtt_reference (d ∷ e ∷ s) h.1)

-- A topic that a publisher accepts reaches MQTT without `*`, `+` and `#`: a topic name and no
-- filter, as MQTT demands of a PUBLISH.
pub IsName-transform_topic :
    (t : Text) → validate_pubsub_topic_strict (some t) ≡ valid → IsName (transform_topic t)
IsName-transform_topic t h =
    let name = IsName-re_match t (re_match-validate t h) in
    rw
      (
        transform_topic-eq-topic_to_mqtt t (IsName→HasLevelWildcards false t name),
        topic_to_mqtt_lem,
      )
      (IsName-mqtt_reference t name)

pattern-match_rest :
    (s : Text) → match_rest is_topic_char s ≡ true → match_rest is_pattern_char s ≡ true
unfolding match_rest is_pattern_char
pattern-match_rest [] h = refl
pattern-match_rest (c ∷ []) h = ground arith
pattern-match_rest (c ∷ d ∷ s) h = ground (arith, pattern-match_rest (d ∷ s))

pattern-re_match : (t : Text) → re_match is_topic_char t ≡ true → re_match is_pattern_char t ≡ true
unfolding re_match is_pattern_char
pattern-re_match [] h = h
pattern-re_match (c ∷ s) h = ground (arith, pattern-match_rest s)

not_star : (t : Text) → re_match is_topic_char t ≡ true → text_eq t (codes "*") ≡ false
unfolding re_match text_eq is_topic_char
not_star [] h = refl
not_star (c ∷ s) h = ground arith

-- What a publisher accepts, a subscriber accepts.
pub validate_pubsub_topic_of_strict :
    (t : Option Text) → validate_pubsub_topic_strict t ≡ valid → validate_pubsub_topic t ≡ valid
unfolding validate_pubsub_topic validate_pubsub_topic_strict is_one_of
validate_pubsub_topic_of_strict none h = refl
validate_pubsub_topic_of_strict (some t) h = ground (arith, pattern-re_match t, not_star t)

match_rest-newline :
    (s : Text) → all is_topic_char s ≡ true → match_rest is_topic_char (s ++ 10 ∷ []) ≡ true
unfolding match_rest
match_rest-newline [] h = ground arith
match_rest-newline (c ∷ []) h = ground arith
match_rest-newline (c ∷ d ∷ s) h = ground (arith, match_rest-newline (d ∷ s))

newline_matches :
    (c : ℕ) (s : Text)
    → all is_topic_char (c ∷ s) ≡ true
    → re_match is_topic_char (c ∷ s ++ 10 ∷ []) ≡ true
unfolding re_match
newline_matches c s h = ground (arith, match_rest-newline s)

newline_listed :
    (c : ℕ) (s : Text)
    → is_one_of (c ∷ s ++ 10 ∷ []) (codes "." ∷ codes "-" ∷ codes "_" ∷ codes "" ∷ codes " " ∷ [])
      ≡ false
unfolding is_one_of text_eq
newline_listed c [] = ground arith
newline_listed c (d ∷ s) = ground arith

-- Every non-empty text over the class of TOPIC_REGEX, a lone `.`, `-` or `_` included, is accepted
-- with a newline behind it, which the class does not hold.
pub validate_pubsub_topic_strict-newline :
    (c : ℕ) (s : Text)
    → all is_topic_char (c ∷ s) ≡ true
    → (validate_pubsub_topic_strict (some (c ∷ s ++ 10 ∷ [])) ≡ valid) × (is_topic_char 10 ≡ false)
unfolding validate_pubsub_topic_strict
validate_pubsub_topic_strict-newline c s h =
    (rw (newline_listed c s, newline_matches c s h) refl, unfold is_topic_char in refl)
