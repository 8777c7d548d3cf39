-- ===== src/Base/Dict.antt =====
-- Go's maps as association lists: a read takes the first entry of its key, a write replaces it or
-- adds it at the end. Their order of iteration is the order of the list.
use mathlib.Core.Path.{◌≡◌, refl}
use mathlib.Core.Bool.{Bool, true}
use mathlib.Core.Option.{Option, none, some}
use mathlib.Core.List.{List, [], ◌∷◌}
use native.Mathlib.Omega.{arith}
use better_telegram_mcp.Base.Tests.{if◌then◌else◌}

-- A type of keys with the test that Go's `==` makes on it.
pub record Key (K : Type 0) : Type 0 where
  pub eqb : K → K → Bool
  pub to_eq : (a b : K) → eqb a b ≡ true → a ≡ b
  pub of_eq : (a : K) → eqb a a ≡ true

module _ {ℓ} {K : Type 0} {V : Type ℓ} ⦃k : Key K⦄ where
  unfoldable pub lookup : K → List (K × V) → Option V
  lookup j [] = none
  lookup j ((i, v) ∷ m) = if k.eqb i j then some v else lookup j m

  unfoldable pub insert : K → V → List (K × V) → List (K × V)
  insert j v [] = (j, v) ∷ []
  insert j v ((i, w) ∷ m) = if k.eqb i j then (j, v) ∷ m else (i, w) ∷ insert j v m

  unfoldable pub delete : K → List (K × V) → List (K × V)
  delete j [] = []
  delete j ((i, w) ∷ m) = let rest = delete j m in if k.eqb i j then rest else (i, w) ∷ rest

  pub lookup-insert :
      (i j : K) (v : V) (m : List (K × V))
      → lookup j (insert i v m) ≡ (if k.eqb i j then some v else lookup j m)
  unfolding lookup insert
  lookup-insert i j v [] = refl
  lookup-insert i j v ((h, w) ∷ m) =
      ground (arith, k.to_eq h i, k.to_eq h j, k.to_eq i j, k.of_eq i, lookup-insert i j v m)

  pub lookup-delete :
      (i j : K) (m : List (K × V))
      → lookup j (delete i m) ≡ (if k.eqb i j then none else lookup j m)
  unfolding lookup delete
  lookup-delete i j [] = ground arith
  lookup-delete i j ((h, w) ∷ m) =
      ground (arith, k.to_eq h i, k.to_eq h j, k.to_eq i j, k.of_eq i, lookup-delete i j m)
