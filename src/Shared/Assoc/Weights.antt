-- ===== src/Shared/Assoc/Weights.antt =====
-- Association lists with each key once, and sums over their values.
use Prim.Native.Nat.{ℕ, ◌+◌}
use mathlib.Core.Path.{◌≡◌, refl}
use mathlib.Core.Logic.{inl, inr}
use mathlib.Core.Option.{Option, none, some}
use mathlib.Core.List.{List, [], ◌∷◌}
use native.Mathlib.Omega.{arith}
use pulsar_rs.Shared.Tests.{Bool-cases}
use pulsar_rs.Shared.Equality.{Eq, ◌==◌}
use pulsar_rs.Shared.Assoc.{
  lookup, insert, remove, lookup-remove, lookup-remove_self, remove_absent,
}

abbrev pub weigh_option {κ} : {V : Type κ} → (V → ℕ) → Option V → ℕ
weigh_option weight none = 0
weigh_option weight (some v) = weight v

module _ {ℓ κ} {K : Type ℓ} {V : Type κ} ⦃e : Eq K⦄ where
  -- Each key once.
  abbrev pub IsMap : List (K × V) → Type κ
  IsMap [] = Unit {κ}
  IsMap ((k, v) ∷ m) = (lookup k m ≡ none) × IsMap m

  pub IsMap-remove : (k : K) (m : List (K × V)) → IsMap m → IsMap (remove k m)
  unfolding remove
  IsMap-remove k [] h = tt
  IsMap-remove k ((j, v) ∷ m) h = elim (Bool-cases (j == k)) [
    | inl t ↦ rw t (IsMap-remove k m h.1)
    | inr t ↦ rw t (ground (arith, h.0, lookup-remove k j m), IsMap-remove k m h.1)
  ]

  pub IsMap-insert : (k : K) (v : V) (m : List (K × V)) → IsMap m → IsMap (insert k v m)
  unfolding insert
  IsMap-insert k v m h = (lookup-remove_self k m, IsMap-remove k m h)

  module _ (weight : V → ℕ) where
    abbrev pub weigh : List (K × V) → ℕ
    weigh [] = 0
    weigh ((k, v) ∷ m) = weight v + weigh m

    pub weigh-remove :
        (k : K) (m : List (K × V))
        → IsMap m
        → weigh m ≡ weigh_option weight (lookup k m) + weigh (remove k m)
    unfolding lookup remove
    weigh-remove k [] h = refl
    weigh-remove k ((j, v) ∷ m) h = elim (Bool-cases (j == k)) [
      | inl t ↦ rw (t, remove_absent k m (ground (arith, h.0, t, e.beq_iff j k))) refl
      | inr t ↦ rw t (omega (arith, weigh-remove k m h.1))
    ]

    pub weigh-insert :
        (k : K) (v : V) (m : List (K × V))
        → IsMap m
        → weigh (insert k v m) + weigh_option weight (lookup k m) ≡ weight v + weigh m
    unfolding insert
    weigh-insert k v m h = omega (arith, weigh-remove k m h)
