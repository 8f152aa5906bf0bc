-- ===== src/Serial/Tests.antt =====
-- Runs of the serializers, and the theorems at inputs where their hypotheses hold.
use commlib_py.Prelude.{ℕ, ◌+◌, ◌≡◌, refl, true, Option, some}
use commlib_py.Topic.Text.{Text, codes}
use commlib_py.Serial.Value.{
  Value, number, text, bytes, decimal, other, list, tuple, dict, nil, cons, end, field, text_key,
  as_text, as_list, as_dict, cons_of, field_of, convert_value, is_primitive,
}
use commlib_py.Serial.Primitives.{serialize, deserialize, convert_value_twice}
use commlib_py.Serial.Text.{
  has_comma, onto_first, split, text_deserialize, str_of, join, text_serialize,
}

program : Unit {0}
unfolding as_text as_list as_dict cons_of field_of convert_value is_primitive serialize deserialize
    has_comma onto_first split text_deserialize str_of join text_serialize
program = tt

abbrev decode : Text → Option Text
decode s = some s

abbrev to_float : ℕ → ℕ
to_float n = n + 1000

-- {"a": (Decimal, b"x"), "b": a member of an enumeration}
abbrev mixed : Value
mixed = dict (
    field (text_key (codes "a")) (tuple (cons (decimal 1) (cons (bytes (codes "x")) nil)))
      (field (text_key (codes "b")) (other true (codes "Status.DONE")) end))

abbrev converted : Value
converted = dict (
    field (text_key (codes "a")) (list (cons (number 1001) (cons (text (codes "x")) nil)))
      (field (text_key (codes "b")) (text (codes "Status.DONE")) end))

convert_value_twice_example :
    (is_primitive converted ≡ true) × (convert_value decode to_float converted ≡ some converted)
unfolding program
convert_value_twice_example = convert_value_twice decode to_float mixed converted refl

abbrev show : Value → Text
show v = codes "?"

-- A text with a comma comes back as a list, and a list of one text as the text.
comma_lost :
    text_deserialize (codes "a,b") ≡ list (cons (text (codes "a")) (cons (text (codes "b")) nil))
unfolding program
comma_lost = refl
