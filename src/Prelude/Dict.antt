-- ===== src/Prelude/Dict.antt =====
-- Python's `dict` with string keys, in insertion order: writing to a key that is there keeps its
-- place, a new key goes to the end.
use Prim.Native.Nat.{ℕ, ◌+◌}
use Prim.Native.String.{String}
use mathlib.Core.Path.{◌≡◌, refl}
use mathlib.Core.Bool.{Bool}
use mathlib.Core.Option.{Option, none, some}
use mathlib.Core.List.{List, [], ◌∷◌}
use native.Mathlib.Omega.{arith}
use text.Mathlib.Text.{◌==◌}
use text.Mathlib.TextEquality.{eq_iff}
use text.Mathlib.TextPositions.{eq_refl}
use module_agents_part.Prelude.Tests.{if◌then◌else◌, is_some}

abbrev pub Dict {ℓ} : Type ℓ → Type ℓ
Dict V = List (String × V)

module _ {ℓ} {V : Type ℓ} where
  -- d.get(k)
  unfoldable pub get : String → Dict V → Option V
  get k [] = none
  get k ((j, v) ∷ d) = if j == k then some v else get k d

  -- d[k] = v
  unfoldable pub put : String → V → Dict V → Dict V
  put k v [] = (k, v) ∷ []
  put k v ((j, w) ∷ d) = if j == k then (j, v) ∷ d else (j, w) ∷ put k v d

  -- d.pop(k, None); a key stands once, and all its entries go
  unfoldable pub remove : String → Dict V → Dict V
  remove k [] = []
  remove k ((j, v) ∷ d) = let rest = remove k d in if j == k then rest else (j, v) ∷ rest

  -- k in d
  abbrev pub has : String → Dict V → Bool
  has k d = is_some (get k d)

  pub get-put :
      (k j : String) (v : V) (d : Dict V) → get j (put k v d) ≡ (if k == j then some v else get j d)
  unfolding get put
  get-put k j v [] = refl
  get-put k j v ((i, w) ∷ d) = ground (arith, eq_iff k j, eq_iff i k, eq_iff i j, get-put k j v d)

  pub get-remove :
      (k j : String) (d : Dict V) → get j (remove k d) ≡ (if k == j then none else get j d)
  unfolding get remove
  get-remove k j [] = ground arith
  get-remove k j ((i, v) ∷ d) = ground (arith, eq_iff i k, eq_iff i j, eq_iff k j, get-remove k j d)

  pub get-put_self : (k : String) (v : V) (d : Dict V) → get k (put k v d) ≡ some v
  get-put_self k v d = ground (arith, get-put k k v d, eq_refl k)

  -- the sum of a measure over the values
  abbrev pub total : (V → ℕ) → Dict V → ℕ
  total m [] = 0
  total m ((j, v) ∷ d) = m v + total m d

  -- a measure of the value at a key, 0 where the key is missing
  abbrev pub measure_at : (V → ℕ) → String → Dict V → ℕ
  measure_at m k d = elim (get k d) [ none ↦ 0 | some v ↦ m v ]

  -- A write replaces the old value's share of the sum by the new one's.
  pub total-put :
      (m : V → ℕ) (k : String) (v : V) (d : Dict V)
      → total m (put k v d) + measure_at m k d ≡ total m d + m v
  unfolding get put
  total-put m k v [] = omega arith
  total-put m k v ((i, w) ∷ d) = ground (arith, eq_iff i k, total-put m k v d)

pub ruleset dict_laws = (get-put, get-remove, get-put_self)
