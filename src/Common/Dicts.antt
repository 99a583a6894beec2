-- ===== src/Common/Dicts.antt =====
-- Python's `dict` with keys that a Boolean test compares, in the order of insertion, and its counters.
use Prim.Native.Nat.{ℕ, ◌+◌}
use mathlib.Core.Path.{◌≡◌, refl}
use mathlib.Core.Logic.{◌↔◌}
use mathlib.Core.Bool.{Bool, true}
use mathlib.Core.List.{List, [], ◌∷◌}
use mathlib.Core.Option.{Option, none, some}
use native.Mathlib.Omega.{arith}
use bifrost_platform_plugin.Common.Tests.{if◌then◌else◌}

-- d.get(k, default) for what was found
abbrev pub or_default {ℓ} : {V : Type ℓ} → V → Option V → V
or_default v none = v
or_default v (some w) = w

module _ {ℓ κ} {K : Type ℓ} {V : Type κ} (same : K → K → Bool) where
  -- d.get(k)
  unfoldable pub find : K → List (K × V) → Option V
  find k [] = none
  find k ((j, v) ∷ d) = if same j k then some v else find k d

  -- d[k] = v
  unfoldable pub set : K → V → List (K × V) → List (K × V)
  set k v [] = (k, v) ∷ []
  set k v ((j, w) ∷ d) = let rest = set k v d in if same j k then (j, v) ∷ d else (j, w) ∷ rest

  pub find-set :
      ((a b : K) → (same a b ≡ true) ↔ (a ≡ b))
      → (k j : K) (v : V) (d : List (K × V))
      → find j (set k v d) ≡ (if same k j then some v else find j d)
  unfolding find set
  find-set agree k j v [] = refl
  find-set agree k j v ((i, w) ∷ d) =
      ground (arith, agree k j, agree i k, agree i j, find-set agree k j v d)

module _ {ℓ} {K : Type ℓ} (same : K → K → Bool) where
  -- d[k] = d.get(k, 0) + 1
  unfoldable pub count_up : K → List (K × ℕ) → List (K × ℕ)
  unfolding find set
  count_up k d = set same k (or_default 0 (find same k d) + 1) d

  pub sum_values : List (K × ℕ) → ℕ
  sum_values [] = 0
  sum_values ((k, n) ∷ d) = n + sum_values d

  -- A counter that goes up is one more in the sum of all.
  pub sum_values-count_up :
      (k : K) (d : List (K × ℕ)) → sum_values (count_up k d) ≡ sum_values d + 1
  unfolding sum_values count_up find set
  sum_values-count_up k [] = refl
  sum_values-count_up k ((j, n) ∷ d) = ground (arith, sum_values-count_up k d)
