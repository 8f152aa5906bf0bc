-- ===== src/Serial/Primitives.antt =====
-- commlib/serializer.py: JSONSerializer, and what it makes of a value. `dumps` and `loads` are those of the
-- JSON library, `none` where they raise, as `dumps` does for keys and numbers that it has no form for.
use commlib_py.Prelude.{ℕ, ◌≡◌, refl, true, Option, none, some, Option-cases, inl, inr, arith}
use commlib_py.Topic.Text.{Text}
use commlib_py.Serial.Value.{
  Value, null, boolean, number, text, bytes, decimal, other, list, tuple, dict, Items, nil, cons,
  Fields, end, field, as_text, as_list, as_dict, cons_of, field_of, convert_value, convert_list,
  convert_dict, is_primitive, are_primitive, have_primitives,
}

module _ (decode : Text → Option Text) (to_float : ℕ → ℕ) where
  mutual
    unfolding convert_value is_primitive as_text as_list as_dict cons_of field_of

    converts :
        (v w : Value)
        → convert_value decode to_float v ≡ some w
        → (is_primitive w ≡ true) × (convert_value decode to_float w ≡ some w)
    converts null w h = ground arith
    converts (boolean b) w h = ground arith
    converts (number n) w h = ground arith
    converts (text s) w h = ground arith
    converts (bytes s) w h = ground arith
    converts (decimal n) w h = ground arith
    converts (other b s) w h = ground arith
    converts (list xs) w h = elim (Option-cases (convert_list decode to_float xs)) [
      | inl raises ↦ absurd (ground (arith, raises, h))
      | inr (ys, e) ↦ ground (arith, e, h, converts_list xs ys e)
    ]
    converts (tuple xs) w h = elim (Option-cases (convert_list decode to_float xs)) [
      | inl raises ↦ absurd (ground (arith, raises, h))
      | inr (ys, e) ↦ ground (arith, e, h, converts_list xs ys e)
    ]
    converts (dict fs) w h = elim (Option-cases (convert_dict decode to_float fs)) [
      | inl raises ↦ absurd (ground (arith, raises, h))
      | inr (ys, e) ↦ ground (arith, e, h, converts_dict fs ys e)
    ]

    converts_list :
        (xs ys : Items)
        → convert_list decode to_float xs ≡ some ys
        → (are_primitive ys ≡ true) × (convert_list decode to_float ys ≡ some ys)
    converts_list nil ys h = ground arith
    converts_list (cons v xs) ys h = elim (Option-cases (convert_value decode to_float v)) [
      | inl raises ↦ absurd (ground (arith, raises, h))
      | inr (w, e) ↦ elim (Option-cases (convert_list decode to_float xs)) [
        | inl raises ↦ absurd (ground (arith, e, raises, h))
        | inr (more, f) ↦ ground (arith, e, f, h, converts v w e, converts_list xs more f)
      ]
    ]

    converts_dict :
        (fs gs : Fields)
        → convert_dict decode to_float fs ≡ some gs
        → (have_primitives gs ≡ true) × (convert_dict decode to_float gs ≡ some gs)
    converts_dict end gs h = ground arith
    converts_dict (field k v fs) gs h = elim (Option-cases (convert_value decode to_float v)) [
      | inl raises ↦ absurd (ground (arith, raises, h))
      | inr (w, e) ↦ elim (Option-cases (convert_dict decode to_float fs)) [
        | inl raises ↦ absurd (ground (arith, e, raises, h))
        | inr (more, f) ↦ ground (arith, e, f, h, converts v w e, converts_dict fs more f)
      ]
    ]

  -- What `_convert_value` makes of a value, if it raises nothing, consists of null, booleans, numbers, texts,
  -- lists and dicts, all the way down, but for the keys, which may be any; another conversion leaves it as it is.
  pub convert_value_twice :
      (v w : Value)
      → convert_value decode to_float v ≡ some w
      → (is_primitive w ≡ true) × (convert_value decode to_float w ≡ some w)
  convert_value_twice v w h = converts v w h

  mutual
    unfolding convert_value is_primitive as_text as_list as_dict cons_of field_of

    keeps : (v : Value) → is_primitive v ≡ true → convert_value decode to_float v ≡ some v
    keeps null h = refl
    keeps (boolean b) h = refl
    keeps (number n) h = refl
    keeps (text s) h = refl
    keeps (bytes s) h = absurd (ground arith)
    keeps (decimal n) h = absurd (ground arith)
    keeps (other b s) h = absurd (ground arith)
    keeps (list xs) h = ground (arith, keeps_list xs h)
    keeps (tuple xs) h = absurd (ground arith)
    keeps (dict fs) h = ground (arith, keeps_dict fs h)

    keeps_list : (xs : Items) → are_primitive xs ≡ true → convert_list decode to_float xs ≡ some xs
    keeps_list nil h = refl
    keeps_list (cons v xs) h = ground (arith, keeps v, keeps_list xs)

    keeps_dict :
        (fs : Fields) → have_primitives fs ≡ true → convert_dict decode to_float fs ≡ some fs
    keeps_dict end h = refl
    keeps_dict (field k v fs) h = ground (arith, keeps v, keeps_dict fs)

  module _ {Payload : Type 0} (dumps : Value → Option Payload)
      (loads : Payload → Option Value) where
    -- JSONSerializer.serialize: `make_primitives` asks its argument for its items, which raises an
    -- AttributeError for what is no dict.
    unfoldable pub serialize : Value → Option Payload
    unfolding convert_value
    serialize (dict fs) = elim (convert_value decode to_float (dict fs)) [
      | none ↦ none
      | some v ↦ dumps v
    ]
    serialize _ = none

    -- JSONSerializer.deserialize
    unfoldable pub deserialize : Payload → Option Value
    deserialize p = loads p

    -- A dict without anything else in it than null, booleans, numbers, texts, lists and dicts is handed to the JSON
    -- library as it is.
    pub serialize_primitive :
        (fs : Fields) → is_primitive (dict fs) ≡ true → serialize (dict fs) ≡ dumps (dict fs)
    unfolding serialize
    serialize_primitive fs h = ground (arith, keeps (dict fs) h)
