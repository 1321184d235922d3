-- ===== src/Prelude/Dicts.antt =====
-- A Go `map[string]V` as an association list; iteration order is taken up where the code iterates.
use Prim.Native.String.{String}
use mathlib.Core.Path.{◌≡◌, refl}
use mathlib.Core.List.{List, [], ◌∷◌}
use mathlib.Core.Option.{Option, none, some}
use native.Mathlib.Omega.{arith}
use text.Mathlib.Text.{◌==◌}
use text.Mathlib.TextEquality.{eq_iff}
use karpenter_provider_tke.Prelude.Tests.{if◌then◌else◌}

abbrev pub Dict {ℓ} : Type ℓ → Type ℓ
Dict V = List (String × V)

module _ {ℓ} {V : Type ℓ} where
  -- v, ok := m[k]
  unfoldable pub lookup : String → Dict V → Option V
  lookup k [] = none
  lookup k ((j, v) ∷ m) = if j == k then some v else lookup k m

  -- m[k] = v
  unfoldable pub insert : String → V → Dict V → Dict V
  insert k v [] = (k, v) ∷ []
  insert k v ((j, w) ∷ m) = if j == k then (k, v) ∷ m else (j, w) ∷ insert k v m

  -- delete(m, k)
  unfoldable pub remove : String → Dict V → Dict V
  remove k [] = []
  remove k ((j, v) ∷ m) = let rest = remove k m in if j == k then rest else (j, v) ∷ rest

  pub lookup-insert :
      (set asked : String) (new : V) (m : Dict V)
      → lookup asked (insert set new m) ≡ (if set == asked then some new else lookup asked m)
  unfolding insert lookup
  lookup-insert set asked new [] = refl
  lookup-insert set asked new ((here, old) ∷ rest) = ground (
    arith,
    lookup-insert set asked new rest,
    eq_iff here set,
    eq_iff here asked,
    eq_iff set asked,
  )

  pub lookup-remove :
      (k j : String) (m : Dict V) → lookup j (remove k m) ≡ (if k == j then none else lookup j m)
  unfolding lookup remove
  lookup-remove k j [] = ground arith
  lookup-remove k j ((i, w) ∷ m) =
      ground (arith, lookup-remove k j m, eq_iff i k, eq_iff i j, eq_iff k j)

-- m[k] of a map to strings: the empty string where the key is missing
abbrev pub text_at : String → Dict String → String
text_at k m = elim (lookup k m) [ none ↦ "" | some v ↦ v ]
