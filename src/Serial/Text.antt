-- ===== src/Serial/Text.antt =====
-- commlib/serializer.py: TextSerializer. `show` is Python's `str` on what is no text.
use commlib_py.Prelude.{
  ℕ, ◌≡◌, refl, ap, ◌∙◌, Bool, true, false, ◌==◌, ◌||◌, Option, none, some, List, [], ◌∷◌, ◌++◌,
  if◌then◌else◌, arith, All,
}
use commlib_py.Topic.Text.{Text}
use commlib_py.Serial.Value.{
  Value, null, boolean, number, text, bytes, decimal, other, list, tuple, dict, Items, nil, cons,
}

-- "," in data
unfoldable pub has_comma : Text → Bool
has_comma [] = false
has_comma (c ∷ s) = c == b',' || has_comma s

-- A code point before the first part of a split text
unfoldable pub onto_first : ℕ → Items → Items
onto_first c nil = nil
onto_first c (cons (text s) xs) = cons (text (c ∷ s)) xs
onto_first c (cons v xs) = cons v xs

-- data.split(",")
unfoldable pub split : Text → Items
unfolding onto_first
split [] = cons (text []) nil
split (c ∷ s) = let rest = split s in if c == b',' then cons (text []) rest else onto_first c rest

-- deserialize
unfoldable pub text_deserialize : Text → Value
unfolding has_comma split
text_deserialize s = if has_comma s then list (split s) else text s

module _ (show : Value → Text) where
  -- str(v)
  unfoldable pub str_of : Value → Text
  str_of (text s) = s
  str_of v = show v

  -- ",".join(map(str, data))
  unfoldable pub join : Items → Text
  unfolding str_of
  join nil = []
  join (cons v nil) = str_of v
  join (cons v (cons w xs)) = str_of v ++ b',' ∷ join (cons w xs)

  -- serialize; `none` is its ValueError.
  unfoldable pub text_serialize : Value → Option Text
  unfolding join str_of
  text_serialize null = none
  text_serialize (boolean b) = some (str_of (boolean b))
  text_serialize (number n) = some (str_of (number n))
  text_serialize (text s) = some s
  text_serialize (bytes s) = none
  text_serialize (decimal n) = none
  text_serialize (other b s) = if b then some s else none
  text_serialize (list xs) = some (join xs)
  text_serialize (tuple xs) = none
  text_serialize (dict fs) = none

-- A list of texts
abbrev pub items_of : List Text → Items
items_of [] = nil
items_of (s ∷ ss) = cons (text s) (items_of ss)

abbrev pub IsPlain : List Text → Type 0
IsPlain = All (λ s. has_comma s ≡ false)

split_one : (s : Text) → has_comma s ≡ false → split s ≡ cons (text s) nil
unfolding split onto_first has_comma
split_one [] h = refl
split_one (c ∷ s) h = ground (arith, split_one s)

split_comma : (s r : Text) → has_comma s ≡ false → split (s ++ b',' ∷ r) ≡ cons (text s) (split r)
unfolding split onto_first has_comma
split_comma [] r h = refl
split_comma (c ∷ s) r h = ground (arith, split_comma s r)

has_comma-append : (s r : Text) → has_comma (s ++ b',' ∷ r) ≡ true
unfolding has_comma
has_comma-append [] r = refl
has_comma-append (c ∷ s) r = ground (arith, has_comma-append s r)

module _ (show : Value → Text) where
  split-join :
      (s : Text) (ss : List Text)
      → IsPlain (s ∷ ss)
      → split (join show (items_of (s ∷ ss))) ≡ items_of (s ∷ ss)
  unfolding join str_of
  split-join s [] h = split_one s h.0
  split-join s (t ∷ ss) h =
      split_comma s (join show (items_of (t ∷ ss))) h.0 ∙ ap (cons (text s)) (split-join t ss h.1)

  -- A list of two or more texts without commas comes back from plain text as it was.
  pub text_deserialize-text_serialize :
      (s t : Text) (ss : List Text)
      → IsPlain (s ∷ t ∷ ss)
      → (p : Text) × (text_serialize show (list (items_of (s ∷ t ∷ ss))) ≡ some p)
        × (text_deserialize p ≡ list (items_of (s ∷ t ∷ ss)))
  unfolding text_serialize text_deserialize join str_of
  text_deserialize-text_serialize s t ss h = (
    join show (items_of (s ∷ t ∷ ss)),
    refl,
    ground (arith, has_comma-append s (join show (items_of (t ∷ ss))), split-join s (t ∷ ss) h),
  )
