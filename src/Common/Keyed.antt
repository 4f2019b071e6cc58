-- ===== src/Common/Keyed.antt =====
-- Dictionaries with distinct keys whose entries all satisfy a predicate.
use raiden_common.Common.{
  ℕ, ◌≡◌, refl, sym, subst, ◌≢◌, inl, inr, true, none, some, [], ◌∷◌, arith, Bool-cases, ◌==◌,
  nat_eq,
}
use raiden_common.Common.Bytes.{bytes_eq}
use raiden_common.Common.Dict.{Dict, lookup, insert, erase, lookup-insert, lookup-erase_ne}
use raiden_common.Common.Int.{int_eq}

abbrev pub AllEntries {ℓ κ} : {V : Type ℓ} → (ℕ → V → Type κ) → Dict ℕ V → Type (ℓ ⊔ κ)
AllEntries P [] = Unit
AllEntries P ((k, v) ∷ d) = P k v × (lookup k d ≡ none) × AllEntries P d

module _ {ℓ κ} {V : Type ℓ} (P : ℕ → V → Type κ) where
  pub lookup-AllEntries :
      (k : ℕ) (v : V) (d : Dict ℕ V) → AllEntries P d → lookup k d ≡ some v → P k v
  unfolding lookup
  lookup-AllEntries k v [] h e = cc
  lookup-AllEntries k v ((j, w) ∷ d) h e = elim (Bool-cases (k == j)) [
    | inl same ↦ subst (λ a. P k a) (hit same) (subst (λ a. P a w) (sym (same_key same)) h.0)
    | inr other ↦ lookup-AllEntries k v d h.2 (rw other at e)
  ]
    where
      same_key : (k == j) ≡ true → k ≡ j
      same_key t = ground arith

      hit : (k == j) ≡ true → w ≡ v
      hit t = ground arith

  pub insert-AllEntries :
      (k : ℕ) (v : V) (d : Dict ℕ V)
      → lookup k d ≡ none
      → P k v
      → AllEntries P d
      → AllEntries P (insert k v d)
  unfolding lookup insert
  insert-AllEntries k v [] e p h = (p, refl, tt)
  insert-AllEntries k v ((j, w) ∷ d) e p h = elim (Bool-cases (k == j)) [
    | inl same ↦ absurd (ground arith)
    | inr other ↦
        rw other (
          h.0,
          ground (arith, lookup-insert k j v d),
          insert-AllEntries k v d (rw other at e) p h.2,
        )
  ]

  pub erase-AllEntries : (k : ℕ) (d : Dict ℕ V) → AllEntries P d → AllEntries P (erase k d)
  unfolding lookup erase
  erase-AllEntries k [] h = tt
  erase-AllEntries k ((j, w) ∷ d) h = elim (Bool-cases (k == j)) [
    | inl same ↦ rw same h.2
    | inr other ↦ rw other (h.0, ground (arith, lookup-erase_ne k j d), erase-AllEntries k d h.2)
  ]

  pub lookup-erase_self : (k : ℕ) (d : Dict ℕ V) → AllEntries P d → lookup k (erase k d) ≡ none
  unfolding lookup erase
  lookup-erase_self k [] h = refl
  lookup-erase_self k ((j, w) ∷ d) h = elim (Bool-cases (k == j)) [
    | inl same ↦ rw same (ground arith)
    | inr other ↦ rw other (rw other (lookup-erase_self k d h.2))
  ]

-- The predicate may be changed at every key but one that is not there.
pub AllEntries-map_without {ℓ κ μ} :
    {V : Type ℓ} (P : ℕ → V → Type κ) (Q : ℕ → V → Type μ) (k : ℕ) (d : Dict ℕ V)
    → lookup k d ≡ none
    → ((j : ℕ) (v : V) → j ≢ k → P j v → Q j v)
    → AllEntries P d
    → AllEntries Q d
unfolding lookup
AllEntries-map_without P Q k [] e f h = tt
AllEntries-map_without P Q k ((j, w) ∷ d) e f h = elim (Bool-cases (k == j)) [
  | inl same ↦ absurd (ground arith)
  | inr other ↦
      (f j w (ground arith) h.0, h.1, AllEntries-map_without P Q k d (rw other at e) f h.2)
]

pub AllEntries-map {ℓ κ μ} :
    {V : Type ℓ} (P : ℕ → V → Type κ) (Q : ℕ → V → Type μ) (d : Dict ℕ V)
    → ((j : ℕ) (v : V) → P j v → Q j v)
    → AllEntries P d
    → AllEntries Q d
AllEntries-map P Q [] f h = tt
AllEntries-map P Q ((j, w) ∷ d) f h = (f j w h.0, h.1, AllEntries-map P Q d f h.2)
