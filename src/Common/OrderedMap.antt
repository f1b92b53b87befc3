-- ===== src/Common/OrderedMap.antt =====
-- `Map` of the source, which iterates in the order of first insertion: an association list. The
-- test of keys is passed, as keys are texts or enumerations.
pub mod Groups
use mathlib.Core.Bool.{Bool}
use mathlib.Core.Option.{Option, none, some}
use mathlib.Core.List.{List, [], ◌∷◌, ◌++◌}
use aeo_geo_optimization.Common.Tests.{if◌then◌else◌}

module _ {ℓ κ} {K : Type ℓ} {V : Type κ} (eq : K → K → Bool) where
  -- `m.get(k)`
  unfoldable pub get : K → List (K × V) → Option V
  get k [] = none
  get k ((j, v) ∷ m) = let rest = get k m in if eq j k then some v else rest

  -- `m.set(k, v)`
  unfoldable pub set : K → V → List (K × V) → List (K × V)
  set k v [] = (k, v) ∷ []
  set k v ((j, w) ∷ m) = let rest = set k v m in if eq j k then (j, v) ∷ m else (j, w) ∷ rest

module _ {ℓ κ} {K : Type ℓ} {V : Type κ} (eq : K → K → Bool) where
  -- `const list = m.get(k) ?? []; list.push(v); m.set(k, list)`
  unfoldable pub push : K → V → List (K × List V) → List (K × List V)
  push k v [] = (k, v ∷ []) ∷ []
  push k v ((j, vs) ∷ m) =
      let rest = push k v m in if eq j k then (j, vs ++ v ∷ []) ∷ m else (j, vs) ∷ rest

  -- The loop that pushes each value under its key.
  unfoldable pub group_from : (V → K) → List V → List (K × List V) → List (K × List V)
  unfolding push
  group_from key [] m = m
  group_from key (v ∷ vs) m = group_from key vs (push (key v) v m)
