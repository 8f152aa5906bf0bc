-- ===== src/Bridges/Topics.antt =====
-- commlib/bridges.py: the topics on which a PTopicBridge publishes.
use mathlib.Core.Path.{subst, sym}
use commlib_py.Prelude.{
  ℕ, ◌≡◌, ◌≢◌, ◌⊎◌, refl, ◌∙◌, true, some, [], ◌∷◌, ◌++◌, map, all, All, arith,
}
use commlib_py.Topic.Text.{Text, text_eq}
use commlib_py.Topic.TextLaws.{swap, replace-single}
use commlib_py.Topic.Validate.{
  is_topic_char, re_match, match_rest, is_one_of, valid, validate_pubsub_topic_strict,
}
use commlib_py.Bridges.Bridge.{
  Bridge, BridgeType, redis_to_amqp, mqtt_to_redis, mqtt_to_amqp, redis_to_mqtt, amqp_to_mqtt,
  transform_uri, replace_all, prefixed, to_topic, mqtt_topic,
}

-- `.` to `/`, and back
abbrev pub slashed : Text → Text
slashed = map (swap b'.' b'/')

abbrev pub dotted : Text → Text
dotted = map (swap b'/' b'.')

slashed-slashed : (t : Text) → slashed (slashed t) ≡ slashed t
slashed-slashed [] = refl
slashed-slashed (c ∷ t) = ground (arith, slashed-slashed t)

pub dotted-slashed : (t : Text) → All (λ c. c ≢ b'/') t → dotted (slashed t) ≡ t
dotted-slashed [] h = refl
dotted-slashed (c ∷ t) (h, more) = ground (arith, dotted-slashed t more)

slashed-no_dots : (t : Text) → All (λ c. c ≢ b'.') (slashed t)
slashed-no_dots [] = tt
slashed-no_dots (c ∷ t) = (ground arith, slashed-no_dots t)

-- A bridge that adds no prefix, and that transforms topics by its type alone.
abbrev pub IsDirect : Bridge → Type 0
IsDirect b = (b.to_uri ≡ []) × (b.uri_transform ≡ []) × (b.auto_transform_uris ≡ true)

to_topic-direct : (b : Bridge) (t : Text) → IsDirect b → to_topic b t ≡ transform_uri b.btype t
unfolding to_topic prefixed replace_all
to_topic-direct b t (p, r, a) = rw (p, r, a) refl

to_mqtt :
    (b : Bridge) (t : Text)
    → (b.btype ≡ redis_to_mqtt) ⊎ (b.btype ≡ amqp_to_mqtt)
    → IsDirect b
    → mqtt_topic (to_topic b t) ≡ slashed t
unfolding mqtt_topic transform_uri
to_mqtt b t k d = ground (
  arith,
  to_topic-direct b t d,
  replace-single b'.' b'/' t,
  replace-single b'.' b'/' (slashed t),
  slashed-slashed t,
)

-- Over a bridge to Redis it comes back with slashes: whatever the topic was, no dot is left in it.
pub to_topic-to_topic_redis :
    (there back : Bridge) (t : Text)
    → (there.btype ≡ redis_to_mqtt) ⊎ (there.btype ≡ amqp_to_mqtt)
    → back.btype ≡ mqtt_to_redis
    → IsDirect there
    → IsDirect back
    → (to_topic back (mqtt_topic (to_topic there t)) ≡ slashed t)
      × All (λ c. c ≢ b'.') (to_topic back (mqtt_topic (to_topic there t)))
to_topic-to_topic_redis there back t k e d d' =
    let same : to_topic back (mqtt_topic (to_topic there t)) ≡ slashed t =
      unfold transform_uri in
      ground (arith, to_mqtt there t k d, to_topic-direct back (slashed t) d') in
    (same, subst (All (λ c. c ≢ b'.')) (sym same) (slashed-no_dots t))

match_rest-slashed : (t : Text) → match_rest is_topic_char (slashed t) ≡ match_rest is_topic_char t
unfolding match_rest is_topic_char
match_rest-slashed [] = refl
match_rest-slashed (c ∷ []) = ground arith
match_rest-slashed (c ∷ d ∷ t) = ground (arith, match_rest-slashed (d ∷ t))

validate-slashed :
    (t : Text)
    → validate_pubsub_topic_strict (some t) ≡ valid
    → validate_pubsub_topic_strict (some (slashed t)) ≡ valid
unfolding validate_pubsub_topic_strict is_one_of text_eq re_match is_topic_char
validate-slashed [] h = h
validate-slashed (c ∷ []) h = ground (arith, match_rest-slashed [])
validate-slashed (c ∷ d ∷ t) h = ground (arith, match_rest-slashed (d ∷ t))

match_rest-append :
    (p : Text) (c : ℕ) (t : Text)
    → all is_topic_char p ≡ true
    → match_rest is_topic_char (p ++ c ∷ t) ≡ match_rest is_topic_char (c ∷ t)
unfolding match_rest
match_rest-append [] c t h = refl
match_rest-append (x ∷ []) c t h = ground arith
match_rest-append (x ∷ y ∷ p) c t h = ground (arith, match_rest-append (y ∷ p) c t)

dot_is_topic_char : is_topic_char b'.' ≡ true
unfolding is_topic_char
dot_is_topic_char = refl

match_rest_of :
    (c : ℕ) (t : Text)
    → validate_pubsub_topic_strict (some (c ∷ t)) ≡ valid
    → match_rest is_topic_char (c ∷ t) ≡ true
unfolding validate_pubsub_topic_strict re_match match_rest
match_rest_of c [] v = ground arith
match_rest_of c (d ∷ t) v = ground arith

validate_long :
    (x y : ℕ) (s : Text)
    → is_topic_char x ≡ true
    → match_rest is_topic_char (y ∷ s) ≡ true
    → validate_pubsub_topic_strict (some (x ∷ y ∷ s)) ≡ valid
unfolding validate_pubsub_topic_strict is_one_of text_eq re_match
validate_long x y s h m = ground arith

match_rest-dot :
    (c : ℕ) (t : Text)
    → match_rest is_topic_char (c ∷ t) ≡ true
    → match_rest is_topic_char (b'.' ∷ c ∷ t) ≡ true
unfolding match_rest
match_rest-dot c t h = ground (arith, dot_is_topic_char)

validate-prefixed :
    (p t : Text)
    → all is_topic_char p ≡ true
    → validate_pubsub_topic_strict (some t) ≡ valid
    → validate_pubsub_topic_strict (some (prefixed p t)) ≡ valid
validate-prefixed [] t h v = unfold prefixed in v
validate-prefixed (x ∷ p) [] h v =
    absurd (unfold validate_pubsub_topic_strict is_one_of text_eq in ground arith)
validate-prefixed (x ∷ []) (c ∷ t) h v =
    unfold prefixed in
    validate_long x b'.' (c ∷ t) (ground arith) (match_rest-dot c t (match_rest_of c t v))
validate-prefixed (x ∷ y ∷ p) (c ∷ t) h v =
    unfold prefixed in
    validate_long x y (p ++ b'.' ∷ c ∷ t) (ground arith) (
      match_rest-append (y ∷ p) b'.' (c ∷ t) (ground arith)
      ∙ match_rest-dot c t (match_rest_of c t v))

validate-transform_uri :
    (k : BridgeType) (t : Text)
    → k ≢ redis_to_amqp
    → k ≢ mqtt_to_amqp
    → validate_pubsub_topic_strict (some t) ≡ valid
    → validate_pubsub_topic_strict (some (transform_uri k t)) ≡ valid
unfolding transform_uri
validate-transform_uri k t h g v = ground (arith, replace-single b'.' b'/' t, validate-slashed t v)

-- The topic on which a bridge publishes towards Redis or MQTT, for a prefix of the characters that topics
-- have and without replacements of its own: from a valid topic it is a valid one, so its publisher
-- never refuses it.
pub validate_pubsub_topic_strict-to_topic :
    (b : Bridge) (t : Text)
    → (b.btype ≢ redis_to_amqp) × (b.btype ≢ mqtt_to_amqp)
    → b.uri_transform ≡ []
    → all is_topic_char b.to_uri ≡ true
    → validate_pubsub_topic_strict (some t) ≡ valid
    → validate_pubsub_topic_strict (some (to_topic b t)) ≡ valid
unfolding to_topic replace_all
validate_pubsub_topic_strict-to_topic b t (h, g) r p v =
    let u = prefixed b.to_uri t in
    ground (
      arith,
      validate-prefixed b.to_uri t p v,
      validate-transform_uri b.btype u h g (validate-prefixed b.to_uri t p v),
    )
