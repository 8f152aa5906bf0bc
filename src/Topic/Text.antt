-- ===== src/Topic/Text.antt =====
-- Python's `str` as a list of code points, with the methods that the topic functions call.
use Prim.Native.Char.{code}
use Prim.Native.String.{String}
use commlib_py.Prelude.{
  ℕ, zero, suc, ◌-◌, ◌≡◌, refl, Bool, true, false, ◌&&◌, List, [], ◌∷◌, ◌++◌, ◌==◌, leb,
  if◌then◌else◌, length,
}

abbrev pub Text : Type 0
Text = List ℕ

-- The code points of a literal.
abbrev pub codes : String → Text
codes String.[] = []
codes (String.◌∷◌ c s) = code c ∷ codes s

-- s.startswith(prefix)
unfoldable pub starts_with : Text → Text → Bool
starts_with [] s = true
starts_with (p ∷ ps) [] = false
starts_with (p ∷ ps) (c ∷ s) = p == c && starts_with ps s

-- s == t
unfoldable pub text_eq : Text → Text → Bool
text_eq [] [] = true
text_eq [] (d ∷ t) = false
text_eq (c ∷ s) [] = false
text_eq (c ∷ s) (d ∷ t) = c == d && text_eq s t

-- s.endswith(suffix)
unfoldable pub ends_with : Text → Text → Bool
unfolding text_eq
ends_with suffix [] = text_eq suffix []
ends_with suffix (c ∷ s) = if text_eq suffix (c ∷ s) then true else ends_with suffix s

-- s[:-n]
unfoldable pub drop_last : ℕ → Text → Text
drop_last n [] = []
drop_last n (c ∷ s) = if leb (length (c ∷ s)) n then [] else c ∷ drop_last n s

-- The scan of `replace` for a pattern that is not empty: `skip` code points of the last match are
-- still to be passed over.
unfoldable pub replace_from : Text → Text → ℕ → Text → Text
unfolding starts_with
replace_from old new skip [] = []
replace_from old new (suc skip) (c ∷ s) = replace_from old new skip s
replace_from old new zero (c ∷ s) = elim (starts_with old (c ∷ s)) [
  | true ↦ new ++ replace_from old new (length old - 1) s
  | false ↦ c ∷ replace_from old new zero s
]

-- `new` before each code point and at the end: what Python does for an empty pattern.
unfoldable pub interleave : Text → Text → Text
interleave new [] = new
interleave new (c ∷ s) = new ++ c ∷ interleave new s

-- s.replace(old, new)
unfoldable pub replace : Text → Text → Text → Text
unfolding replace_from interleave
replace [] new s = interleave new s
replace (o ∷ old) new s = replace_from (o ∷ old) new zero s

test_replace : replace (codes "/*") (codes "/+") (codes "a/*/*b*") ≡ codes "a/+/+b*"
unfolding replace
test_replace = refl

test_ends_with : ends_with (codes "/*") (codes "a/*") ≡ true
unfolding ends_with
test_ends_with = refl

test_drop_last : drop_last 2 (codes "a/*") ≡ codes "a"
unfolding drop_last
test_drop_last = refl
