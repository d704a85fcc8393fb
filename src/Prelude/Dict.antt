-- ===== src/Prelude/Dict.antt =====
-- A Python dictionary with text keys as an association list in insertion order.
use Prim.Native.String.{String}
use mathlib.Core.Path.{◌≡◌, refl}
use mathlib.Core.Bool.{Bool}
use mathlib.Core.Option.{Option, none, some}
use mathlib.Core.List.{List, [], ◌∷◌}
use native.Mathlib.Omega.{arith}
use text.Mathlib.Text.{◌==◌}
use text.Mathlib.TextEquality.{eq_iff}
use multi_controller.Prelude.Tests.{if◌then◌else◌}

abbrev pub Dict {ℓ} : Type ℓ → Type ℓ
Dict V = List (String × V)

module _ {ℓ} {V : Type ℓ} where
  unfoldable pub get : String → Dict V → Option V
  get k [] = none
  get k ((j, v) ∷ m) = if j == k then some v else get k m

  unfoldable pub set : String → V → Dict V → Dict V
  set k v [] = (k, v) ∷ []
  set k v ((j, w) ∷ m) = if j == k then (k, v) ∷ m else (j, w) ∷ set k v m

  unfoldable pub delete : String → Dict V → Dict V
  delete k [] = []
  delete k ((j, v) ∷ m) = let rest = delete k m in if j == k then rest else (j, v) ∷ rest

  -- The loop that deletes the entries which fail a test of key and value.
  unfoldable pub retain : (String → V → Bool) → Dict V → Dict V
  retain p [] = []
  retain p ((j, v) ∷ m) = let rest = retain p m in if p j v then (j, v) ∷ rest else rest

  pub get-set :
      (k j : String) (v : V) (m : Dict V) → get j (set k v m) ≡ (if k == j then some v else get j m)
  unfolding get set
  get-set k j v [] = refl
  get-set k j v ((i, w) ∷ m) = ground (arith, eq_iff k j, eq_iff i k, eq_iff i j, get-set k j v m)

  pub get-delete :
      (k j : String) (m : Dict V) → get j (delete k m) ≡ (if k == j then none else get j m)
  unfolding get delete
  get-delete k j [] = ground arith
  get-delete k j ((i, w) ∷ m) = ground (arith, eq_iff k j, eq_iff i k, eq_iff i j, get-delete k j m)

  -- No key stands twice, as in every dictionary.
  abbrev pub HasUniqueKeys : Dict V → Type ℓ
  HasUniqueKeys [] = Unit
  HasUniqueKeys ((j, v) ∷ m) = (get j m ≡ none) × HasUniqueKeys m

  -- What a test of key and value lets through.
  abbrev pub filtered : (V → Bool) → Option V → Option V
  filtered p none = none
  filtered p (some v) = if p v then some v else none

  get-retain_fresh :
      (p : String → V → Bool) (k : String) (m : Dict V) → get k m ≡ none → get k (retain p m) ≡ none
  unfolding get retain
  get-retain_fresh p k [] h = refl
  get-retain_fresh p k ((i, w) ∷ m) h = ground (arith, get-retain_fresh p k m)

  pub get-retain :
      (p : String → V → Bool) (k : String) (m : Dict V)
      → HasUniqueKeys m
      → get k (retain p m) ≡ filtered (p k) (get k m)
  unfolding get retain
  get-retain p k [] u = refl
  get-retain p k ((i, w) ∷ m) u =
      ground (arith, eq_iff i k, get-retain p k m u.1, get-retain_fresh p k m)

  pub set-HasUniqueKeys :
      (k : String) (v : V) (m : Dict V) → HasUniqueKeys m → HasUniqueKeys (set k v m)
  unfolding get set
  set-HasUniqueKeys k v [] u = (refl, tt)
  set-HasUniqueKeys k v ((i, w) ∷ m) u =
      ground (arith, eq_iff i k, eq_iff k i, get-set k i v m, set-HasUniqueKeys k v m u.1)

  pub delete-HasUniqueKeys :
      (k : String) (m : Dict V) → HasUniqueKeys m → HasUniqueKeys (delete k m)
  unfolding get delete
  delete-HasUniqueKeys k [] u = tt
  delete-HasUniqueKeys k ((i, w) ∷ m) u =
      ground (arith, get-delete k i m, delete-HasUniqueKeys k m u.1)

  pub retain-HasUniqueKeys :
      (p : String → V → Bool) (m : Dict V) → HasUniqueKeys m → HasUniqueKeys (retain p m)
  unfolding get retain
  retain-HasUniqueKeys p [] u = tt
  retain-HasUniqueKeys p ((i, w) ∷ m) u =
      ground (arith, get-retain_fresh p i m, retain-HasUniqueKeys p m u.1)
