-- ===== src/Topic/Validate.antt =====
-- commlib/pubsub.py: the validation of topics by the publisher's and the subscriber's constructor.
use commlib_py.Prelude.{
  ℕ, ◌≡◌, refl, Bool, true, false, not, ◌&&◌, ◌||◌, Option, none, some, List, [], ◌∷◌, ◌==◌, leb,
  if◌then◌else◌,
}
use commlib_py.Topic.Text.{Text, codes, text_eq}

-- The class of TOPIC_REGEX.
unfoldable pub is_topic_char : ℕ → Bool
is_topic_char c =
    (leb b'a' c && leb c b'z')
    || (leb b'A' c && leb c b'Z')
    || (leb b'0' c && leb c b'9')
    || c == b'/'
    || c == b'.'
    || c == b'-'
    || c == b'_'

-- The class of TOPIC_PATTERN_REGEX.
unfoldable pub is_pattern_char : ℕ → Bool
unfolding is_topic_char
is_pattern_char c = is_topic_char c || c == b'*'

-- `re.match` of `^[class]+$`: without re.MULTILINE the `$` also matches before a final newline.
unfoldable pub match_rest : (ℕ → Bool) → Text → Bool
match_rest class [] = true
match_rest class (c ∷ []) = class c || c == 10
match_rest class (c ∷ d ∷ s) = class c && match_rest class (d ∷ s)

unfoldable pub re_match : (ℕ → Bool) → Text → Bool
re_match class [] = false
re_match class (c ∷ s) = class c && match_rest class s

-- topic in (...)
unfoldable pub is_one_of : Text → List Text → Bool
unfolding text_eq
is_one_of t [] = false
is_one_of t (u ∷ us) = text_eq t u || is_one_of t us

pub data Validation : Type 0 where
  valid : Validation
  invalid_topic : Text → Validation

unfoldable pub validate_pubsub_topic : Option Text → Validation
validate_pubsub_topic none = valid
validate_pubsub_topic (some topic) =
    if is_one_of topic (codes "." ∷ codes "*" ∷ codes "-" ∷ codes "_" ∷ codes "" ∷ codes " " ∷ [])
      || not (re_match is_pattern_char topic)
    then invalid_topic topic
    else valid

unfoldable pub validate_pubsub_topic_strict : Option Text → Validation
validate_pubsub_topic_strict none = valid
validate_pubsub_topic_strict (some topic) =
    if is_one_of topic (codes "." ∷ codes "-" ∷ codes "_" ∷ codes "" ∷ codes " " ∷ [])
      || not (re_match is_topic_char topic)
    then invalid_topic topic
    else valid

test_strict : validate_pubsub_topic_strict (some (codes "a.*")) ≡ invalid_topic (codes "a.*")
unfolding validate_pubsub_topic_strict is_one_of re_match match_rest is_topic_char
test_strict = refl

test_pattern : validate_pubsub_topic (some (codes "a.*")) ≡ valid
unfolding validate_pubsub_topic is_one_of re_match match_rest is_pattern_char
test_pattern = refl
