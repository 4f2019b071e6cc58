-- ===== src/Common/Dict.antt =====
-- Python dictionaries: association lists in insertion order, one entry for a key.
use raiden_common.Common.Tests.{◌==◌, Eq, if◌then◌else◌, is_some}
use Prim.Native.Nat.{ℕ, ◌+◌}
use mathlib.Core.Path.{◌≡◌, refl}
use mathlib.Core.Bool.{Bool, true, false, ◌&&◌}
use mathlib.Core.Option.{Option, none, some}
use mathlib.Core.List.{List, [], ◌∷◌}
use native.Mathlib.Omega.{arith}

abbrev pub Dict {ℓ κ} : Type ℓ → Type κ → Type (ℓ ⊔ κ)
Dict K V = List (K × V)

module _ {ℓ κ} {K : Type ℓ} {V : Type κ} ⦃e : Eq K⦄ where
  -- `d.get(k)`
  unfoldable pub lookup : K → Dict K V → Option V
  lookup k [] = none
  lookup k ((j, v) ∷ d) = if k == j then some v else lookup k d

  -- `k in d`
  abbrev pub contains : K → Dict K V → Bool
  contains k d = is_some (lookup k d)

  -- `d[k] = v`: an old key keeps its place.
  unfoldable pub insert : K → V → Dict K V → Dict K V
  insert k v [] = (k, v) ∷ []
  insert k v ((j, w) ∷ d) = if k == j then (k, v) ∷ d else (j, w) ∷ insert k v d

  -- `del d[k]`, where the key is there.
  unfoldable pub erase : K → Dict K V → Dict K V
  erase k [] = []
  erase k ((j, w) ∷ d) = if k == j then d else (j, w) ∷ erase k d

  pub lookup-insert :
      (k j : K) (v : V) (d : Dict K V)
      → lookup j (insert k v d) ≡ (if j == k then some v else lookup j d)
  unfolding lookup insert
  lookup-insert k j v [] = refl
  lookup-insert k j v ((i, w) ∷ d) = ground (
    arith,
    e.beq_iff k j,
    e.beq_iff j k,
    e.beq_iff i j,
    e.beq_iff j i,
    e.beq_iff k i,
    lookup-insert k j v d,
  )

  pub lookup-erase_ne :
      (k j : K) (d : Dict K V) → (j == k) ≡ false → lookup j (erase k d) ≡ lookup j d
  unfolding lookup erase
  lookup-erase_ne k j [] h = refl
  lookup-erase_ne k j ((i, w) ∷ d) h =
      ground
        (arith, e.beq_iff k j, e.beq_iff j k, e.beq_iff j i, e.beq_iff k i, lookup-erase_ne k j d h)

  -- A key that is not there is not deleted.
  pub erase-absent : (k : K) (d : Dict K V) → lookup k d ≡ none → erase k d ≡ d
  unfolding lookup erase
  erase-absent k [] h = refl
  erase-absent k ((i, w) ∷ d) h = ground (arith, erase-absent k d)

-- `sum(f(v) for v in d.values())`
module _ {ℓ κ} {K : Type ℓ} {V : Type κ} where
  unfoldable pub sum_values : (V → ℕ) → Dict K V → ℕ
  sum_values f [] = 0
  sum_values f ((k, v) ∷ d) = f v + sum_values f d

  -- `all(p(v) for v in d.values())`
  unfoldable pub all_values : (V → Bool) → Dict K V → Bool
  all_values p [] = true
  all_values p ((k, v) ∷ d) = p v && all_values p d

module _ {ℓ κ} {K : Type ℓ} {V : Type κ} ⦃e : Eq K⦄ where
  pub sum_values-insert_new :
      (f : V → ℕ) (k : K) (v : V) (d : Dict K V)
      → lookup k d ≡ none
      → sum_values f (insert k v d) ≡ sum_values f d + f v
  unfolding lookup insert sum_values
  sum_values-insert_new f k v [] h = omega arith
  sum_values-insert_new f k v ((i, w) ∷ d) h = ground (arith, sum_values-insert_new f k v d)

  pub sum_values-erase :
      (f : V → ℕ) (k : K) (v : V) (d : Dict K V)
      → lookup k d ≡ some v
      → sum_values f (erase k d) + f v ≡ sum_values f d
  unfolding lookup erase sum_values
  sum_values-erase f k v [] h = cc
  sum_values-erase f k v ((i, w) ∷ d) h = ground (arith, sum_values-erase f k v d)

  pub all_values-insert :
      (p : V → Bool) (k : K) (v : V) (d : Dict K V)
      → all_values p d ≡ true
      → p v ≡ true
      → all_values p (insert k v d) ≡ true
  unfolding insert all_values
  all_values-insert p k v [] h t = ground arith
  all_values-insert p k v ((i, w) ∷ d) h t = ground (arith, all_values-insert p k v d)

  pub all_values-erase :
      (p : V → Bool) (k : K) (d : Dict K V)
      → all_values p d ≡ true
      → all_values p (erase k d) ≡ true
  unfolding erase all_values
  all_values-erase p k [] h = refl
  all_values-erase p k ((i, w) ∷ d) h = ground (arith, all_values-erase p k d)

  pub lookup-all_values :
      (p : V → Bool) (k : K) (v : V) (d : Dict K V)
      → all_values p d ≡ true
      → lookup k d ≡ some v
      → p v ≡ true
  unfolding lookup all_values
  lookup-all_values p k v [] h t = cc
  lookup-all_values p k v ((i, w) ∷ d) h t = ground (arith, lookup-all_values p k v d)
