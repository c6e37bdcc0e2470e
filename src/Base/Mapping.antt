-- ===== src/Base/Mapping.antt =====
-- A Python `dict` with text keys, in insertion order.
use nyra.Base.Tests.{if◌then◌else◌}
use Prim.Native.String.{String}
use mathlib.Core.List.{List, [], ◌∷◌}
use mathlib.Core.Option.{Option, none, some}
use mathlib.Core.Path.{◌≡◌, refl}
use native.Mathlib.Omega.{arith}
use text.Mathlib.Text.{◌==◌}
use text.Mathlib.TextEquality.{eq_iff}

abbrev pub Mapping {ℓ} : Type ℓ → Type ℓ
Mapping V = List (String × V)

module _ {ℓ} {V : Type ℓ} where
  -- `d.get(key)`
  abbrev pub get : String → Mapping V → Option V
  get k [] = none
  get k ((j, v) ∷ d) = if j == k then some v else get k d

  -- `d[key] = value`
  abbrev pub put : String → V → Mapping V → Mapping V
  put k v [] = (k, v) ∷ []
  put k v ((j, w) ∷ d) = let rest = put k v d in if j == k then (j, v) ∷ d else (j, w) ∷ rest

  pub get-put :
      (k j : String) (v : V) (d : Mapping V)
      → get j (put k v d) ≡ (if k == j then some v else get j d)
  get-put k j v [] = refl
  get-put k j v ((i, w) ∷ d) = ground (arith, eq_iff k j, eq_iff i k, eq_iff i j, get-put k j v d)
