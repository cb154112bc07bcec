-- ===== src/Shared/Assoc.antt =====
-- `BTreeMap` and `HashMap` of the standard library as association lists.
pub mod Weights
use pulsar_rs.Shared.Tests.{if◌then◌else◌, is_some, Bool-cases, map_option}
use pulsar_rs.Shared.Lists.{All}
use mathlib.Core.Logic.{inl, inr}
use pulsar_rs.Shared.Equality.{Eq, ◌==◌}
use mathlib.Core.Path.{◌≡◌, refl, subst}
use mathlib.Core.Bool.{Bool}
use mathlib.Core.Option.{Option, none, some}
use mathlib.Core.List.{List, [], ◌∷◌}
use native.Mathlib.Omega.{arith}

module _ {ℓ κ} {K : Type ℓ} {V : Type κ} ⦃e : Eq K⦄ where
  unfoldable pub lookup : K → List (K × V) → Option V
  lookup k [] = none
  lookup k ((j, v) ∷ m) = if j == k then some v else lookup k m

  -- All entries of the key go, so that none shows through.
  unfoldable pub remove : K → List (K × V) → List (K × V)
  remove k [] = []
  remove k ((j, v) ∷ m) = if j == k then remove k m else (j, v) ∷ remove k m

  unfoldable pub insert : K → V → List (K × V) → List (K × V)
  insert k v m = (k, v) ∷ remove k m

  abbrev pub contains_key : K → List (K × V) → Bool
  contains_key k m = is_some (lookup k m)

  pub lookup-remove :
      (k j : K) (m : List (K × V)) → lookup j (remove k m) ≡ (if k == j then none else lookup j m)
  unfolding lookup remove
  lookup-remove k j [] = ground arith
  lookup-remove k j ((i, w) ∷ m) =
      ground (arith, e.beq_iff k j, e.beq_iff i k, e.beq_iff i j, lookup-remove k j m)

  pub lookup-insert :
      (k j : K) (v : V) (m : List (K × V))
      → lookup j (insert k v m) ≡ (if k == j then some v else lookup j m)
  unfolding lookup insert
  lookup-insert k j v m = ground (arith, lookup-remove k j m)

  pub lookup-insert_self : (k : K) (v : V) (m : List (K × V)) → lookup k (insert k v m) ≡ some v
  lookup-insert_self k v m = ground (arith, lookup-insert k k v m, e.beq_iff k k)

  pub lookup-remove_self : (k : K) (m : List (K × V)) → lookup k (remove k m) ≡ none
  lookup-remove_self k m = ground (arith, lookup-remove k k m, e.beq_iff k k)

  -- A new value for a key that is there leaves the keys.
  pub is_some-insert :
      (k j : K) (v : V) (m : List (K × V)) {w : V}
      → lookup k m ≡ some w
      → is_some (lookup j (insert k v m)) ≡ is_some (lookup j m)
  is_some-insert k j v m h = ground (arith, h, lookup-insert k j v m, e.beq_iff k j)

  -- A function of the value of a key.
  pub lookup-map_absent :
      (k j : K) (g : V → V) (m : List (K × V))
      → lookup k m ≡ none
      → lookup j m ≡ (if k == j then map_option g (lookup j m) else lookup j m)
  lookup-map_absent k j g m h = ground (arith, h, e.beq_iff k j)

  pub lookup-map_present :
      (k j : K) (g : V → V) (m : List (K × V)) {v : V}
      → lookup k m ≡ some v
      → lookup j (insert k (g v) m) ≡ (if k == j then map_option g (lookup j m) else lookup j m)
  lookup-map_present k j g m {v} h = ground (arith, h, lookup-insert k j (g v) m, e.beq_iff k j)

  -- Removing a key that is not there changes nothing.
  pub remove_absent : (k : K) (m : List (K × V)) → lookup k m ≡ none → remove k m ≡ m
  unfolding lookup remove
  remove_absent k [] h = refl
  remove_absent k ((i, w) ∷ m) h = ground (arith, remove_absent k m)

  pub remove-remove : (k : K) (m : List (K × V)) → remove k (remove k m) ≡ remove k m
  remove-remove k m = remove_absent k (remove k m) (lookup-remove_self k m)

  pub remove-insert_self :
      (k : K) (v : V) (m : List (K × V)) → lookup k m ≡ none → remove k (insert k v m) ≡ m
  unfolding insert remove
  remove-insert_self k v m h = ground (arith, e.beq_iff k k, remove-remove k m, remove_absent k m)

-- A statement about every entry.
module _ {ℓ κ μ} {K : Type ℓ} {V : Type κ} ⦃e : Eq K⦄ (P : K → V → Type μ) where
  abbrev pub Entries : List (K × V) → Type μ
  Entries = All (λ p. P p.0 p.1)

  pub Entries-remove : (k : K) (m : List (K × V)) → Entries m → Entries (remove k m)
  unfolding remove
  Entries-remove k [] h = tt
  Entries-remove k ((j, v) ∷ m) (h, hs) = elim (Bool-cases (j == k)) [
    | inl t ↦ rw t (Entries-remove k m hs)
    | inr t ↦ rw t (h, Entries-remove k m hs)
  ]

  pub Entries-insert :
      (k : K) (v : V) (m : List (K × V)) → P k v → Entries m → Entries (insert k v m)
  unfolding insert
  Entries-insert k v m h hs = (h, Entries-remove k m hs)

  pub Entries-lookup : (k : K) (m : List (K × V)) {v : V} → Entries m → lookup k m ≡ some v → P k v
  unfolding lookup
  Entries-lookup k [] h q = cc
  Entries-lookup k ((j, w) ∷ m) {v} (h, hs) q = elim (Bool-cases (j == k)) [
    | inl t ↦
        let same : j ≡ k = (e.beq_iff j k).0 t in
        let value : w ≡ v = ground arith in subst (P k) value (subst (λ i. P i w) same h)
    | inr t ↦ Entries-lookup k m hs (ground arith)
  ]
