-- ===== src/Prelude/Map.antt =====
-- The hash maps of the program (`HashMap`, `DashMap`) as association lists with unique reads: an
-- entry further down the list is hidden by one above it, and no operation brings it up again.
use open_ai_lb.Prelude.Tests.{if◌then◌else◌, keep_if}
use Prim.Native.String.{String}
use mathlib.Core.Path.{◌≡◌, refl}
use mathlib.Core.Bool.{Bool}
use mathlib.Core.Option.{Option, none, some}
use mathlib.Core.List.{List, [], ◌∷◌}
use native.Mathlib.Omega.{arith}
use text.Mathlib.Text.{◌==◌}
use text.Mathlib.TextEquality.{eq_iff}

abbrev pub Map {ℓ} : Type ℓ → Type ℓ
Map V = List (String × V)

module _ {ℓ} {V : Type ℓ} where
  unfoldable pub get : Map V → String → Option V
  get [] k = none
  get ((j, v) ∷ m) k = if j == k then some v else get m k

  unfoldable pub put : Map V → String → V → Map V
  put [] k v = (k, v) ∷ []
  put ((j, w) ∷ m) k v = if j == k then (k, v) ∷ m else (j, w) ∷ put m k v

  unfoldable pub remove : Map V → String → Map V
  remove [] k = []
  remove ((j, w) ∷ m) k = let rest = remove m k in if j == k then rest else (j, w) ∷ rest

  -- `retain`: an entry that fails goes with everything that it hides.
  unfoldable pub retain : (String → V → Bool) → Map V → Map V
  unfolding remove
  retain p [] = []
  retain p ((j, w) ∷ m) = let rest = retain p m in if p j w then (j, w) ∷ rest else remove rest j

  pub get-put :
      (m : Map V) (k j : String) (v : V) → get (put m k v) j ≡ (if k == j then some v else get m j)
  unfolding get put
  get-put [] k j v = refl
  get-put ((i, w) ∷ m) k j v = ground (arith, eq_iff k j, eq_iff i k, eq_iff i j, get-put m k j v)

  pub get-remove :
      (m : Map V) (k j : String) → get (remove m k) j ≡ (if k == j then none else get m j)
  unfolding get remove
  get-remove [] k j = ground arith
  get-remove ((i, w) ∷ m) k j = ground (arith, eq_iff k j, eq_iff i k, eq_iff i j, get-remove m k j)

  pub get-retain :
      (p : String → V → Bool) (m : Map V) (j : String)
      → get (retain p m) j ≡ keep_if (p j) (get m j)
  unfolding get retain
  get-retain p [] j = refl
  get-retain p ((i, w) ∷ m) j =
      ground (arith, eq_iff i j, get-retain p m j, get-remove (retain p m) i j)

  -- No key stands twice. Every map that is built by `put` and `remove` is such.
  abbrev pub Distinct : Map V → Type ℓ
  Distinct [] = Unit
  Distinct ((k, v) ∷ m) = (get m k ≡ none) × Distinct m

  pub Distinct-put : (m : Map V) (k : String) (v : V) → Distinct m → Distinct (put m k v)
  unfolding put get
  Distinct-put [] k v d = (refl, tt)
  Distinct-put ((j, w) ∷ m) k v d =
      ground (arith, eq_iff j k, eq_iff k j, Distinct-put m k v d.1, get-put m k j v, d.0)

pub ruleset map_laws = (get-put, get-remove, get-retain)
