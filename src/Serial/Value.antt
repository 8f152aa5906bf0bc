-- ===== src/Serial/Value.antt =====
-- commlib/serializer.py: what JSONSerializer makes of Python's values before they become JSON.
-- A number stands for an int or a float, and `decimal n` for a Decimal whose float is the number `to_float n`.
-- `other b s` is a value of another class whose `str` is s, a member of an enumeration among them; b tells whether
-- the class derives from str, int or float. A key that is no str stands for itself as
-- a number. `decode` is bytes.decode("utf-8"), `none` where it raises.
use commlib_py.Prelude.{ℕ, Bool, true, false, ◌&&◌, Option, none, some}
use commlib_py.Topic.Text.{Text}

-- A key of a dict: a str, or anything else that has a hash
pub data Key : Type 0 where
  text_key : Text → Key
  other_key : ℕ → Key

mutual
  pub data Value : Type 0 where
    null : Value
    boolean : Bool → Value
    number : ℕ → Value
    text : Text → Value
    bytes : Text → Value
    decimal : ℕ → Value
    other : Bool → Text → Value
    list : Items → Value
    tuple : Items → Value
    dict : Fields → Value

  pub data Items : Type 0 where
    nil : Items
    cons : Value → Items → Items

  pub data Fields : Type 0 where
    end : Fields
    field : Key → Value → Fields → Fields

unfoldable pub as_text : Option Text → Option Value
as_text none = none
as_text (some s) = some (text s)

unfoldable pub as_list : Option Items → Option Value
as_list none = none
as_list (some xs) = some (list xs)

unfoldable pub as_dict : Option Fields → Option Value
as_dict none = none
as_dict (some fs) = some (dict fs)

unfoldable pub cons_of : Option Value → Option Items → Option Items
cons_of none xs = none
cons_of (some v) none = none
cons_of (some v) (some xs) = some (cons v xs)

unfoldable pub field_of : Key → Option Value → Option Fields → Option Fields
field_of k none fs = none
field_of k (some v) none = none
field_of k (some v) (some fs) = some (field k v fs)

module _ (decode : Text → Option Text) (to_float : ℕ → ℕ) where
  -- _convert_value, with _convert_list, _convert_tuple and _convert_dict
  unfoldable mutual
    unfolding as_text as_list as_dict cons_of field_of

    pub convert_value : Value → Option Value
    convert_value null = some null
    convert_value (boolean b) = some (boolean b)
    convert_value (number n) = some (number n)
    convert_value (text s) = some (text s)
    convert_value (bytes s) = as_text (decode s)
    convert_value (decimal n) = some (number (to_float n))
    convert_value (other b s) = some (text s)
    convert_value (list xs) = as_list (convert_list xs)
    convert_value (tuple xs) = as_list (convert_list xs)
    convert_value (dict fs) = as_dict (convert_dict fs)

    pub convert_list : Items → Option Items
    convert_list nil = some nil
    convert_list (cons v xs) = cons_of (convert_value v) (convert_list xs)

    pub convert_dict : Fields → Option Fields
    convert_dict end = some end
    convert_dict (field k v fs) = field_of k (convert_value v) (convert_dict fs)

-- Nothing in it but null, booleans, numbers, texts, lists and dicts; the keys are what they are.
unfoldable mutual
  pub is_primitive : Value → Bool
  is_primitive null = true
  is_primitive (boolean b) = true
  is_primitive (number n) = true
  is_primitive (text s) = true
  is_primitive (bytes s) = false
  is_primitive (decimal n) = false
  is_primitive (other b s) = false
  is_primitive (list xs) = are_primitive xs
  is_primitive (tuple xs) = false
  is_primitive (dict fs) = have_primitives fs

  pub are_primitive : Items → Bool
  are_primitive nil = true
  are_primitive (cons v xs) = is_primitive v && are_primitive xs

  pub have_primitives : Fields → Bool
  have_primitives end = true
  have_primitives (field k v fs) = is_primitive v && have_primitives fs
