-- ===== src/Prelude/Dict.antt =====
-- Python's dict, keyed by numbers: an association list in the order of insertion.
use Prim.Native.Nat.{ℕ}
use mathlib.Core.Path.{◌≡◌, refl}
use mathlib.Core.Option.{Option, none, some}
use mathlib.Core.List.{List, [], ◌∷◌}
use native.Mathlib.Omega.{arith}
use commlib_py.Prelude.Tests.{◌==◌, if◌then◌else◌}

abbrev pub Dict {ℓ} : Type ℓ → Type ℓ
Dict V = List (ℕ × V)

module _ {ℓ} {V : Type ℓ} where
  -- d.get(k)
  unfoldable pub get : ℕ → Dict V → Option V
  get k [] = none
  get k ((j, v) ∷ d) = if j == k then some v else get k d

  -- d[k] = v
  unfoldable pub put : ℕ → V → Dict V → Dict V
  put k v [] = (k, v) ∷ []
  put k v ((j, w) ∷ d) = if j == k then (k, v) ∷ d else (j, w) ∷ put k v d

  -- d.pop(k, None)
  unfoldable pub remove : ℕ → Dict V → Dict V
  remove k [] = []
  remove k ((j, v) ∷ d) = let rest = remove k d in if j == k then rest else (j, v) ∷ rest

  pub get-put :
      (k j : ℕ) (v : V) (d : Dict V) → get j (put k v d) ≡ (if k == j then some v else get j d)
  unfolding get put
  get-put k j v [] = refl
  get-put k j v ((i, w) ∷ d) = ground (arith, get-put k j v d)

  pub get-remove : (k j : ℕ) (d : Dict V) → get j (remove k d) ≡ (if k == j then none else get j d)
  unfolding get remove
  get-remove k j [] = ground arith
  get-remove k j ((i, w) ∷ d) = ground (arith, get-remove k j d)

  -- Taking out a key that was not there changes nothing.
  pub remove_absent : (k : ℕ) (d : Dict V) → get k d ≡ none → remove k d ≡ d
  unfolding get remove
  remove_absent k [] h = refl
  remove_absent k ((j, v) ∷ d) h = ground (arith, remove_absent k d)

  pub remove-put : (k : ℕ) (v : V) (d : Dict V) → remove k (put k v d) ≡ remove k d
  unfolding put remove
  remove-put k v [] = ground arith
  remove-put k v ((j, w) ∷ d) = ground (arith, remove-put k v d)

-- No key stands twice.
abbrev pub Distinct {ℓ} : {V : Type ℓ} → Dict V → Type ℓ
Distinct {V = V} [] = Unit
Distinct {V = V} ((k, v) ∷ d) = (get k d ≡ none) × Distinct d

pub Distinct-put {ℓ} : {V : Type ℓ} (k : ℕ) (v : V) (d : Dict V) → Distinct d → Distinct (put k v d)
unfolding get put
Distinct-put k v [] h = (refl, tt)
Distinct-put k v ((j, w) ∷ d) h = ground (arith, get-put k j v d, Distinct-put k v d h.1)
