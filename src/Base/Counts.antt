-- ===== src/Base/Counts.antt =====
-- Counting the entries of a map: sums over its values, its size, and how many keys a range leaves
-- room for.
use Prim.Native.Nat.{ℕ, zero, suc, ◌+◌, ◌≤◌, ◌<◌}
use mathlib.Core.Path.{◌≡◌, refl}
use mathlib.Core.Logic.{◌≢◌, inl, inr}
use mathlib.Core.List.{[], ◌∷◌}
use mathlib.Core.Option.{none, some}
use native.Mathlib.Omega.{arith}
use adkg.Base.Tests.{Bool-cases, nat_beq}
use adkg.Base.Classes.{Eq, nat_eq}
use adkg.Base.Lists.{length}
use adkg.Base.Maps.{Map, lookup, insert, delete, lookup-insert, lookup-delete}

module _ {ℓ κ} {K : Type ℓ} {V : Type κ} ⦃e : Eq K⦄ (w : V → ℕ) where
  unfoldable pub total : Map K V → ℕ
  total [] = 0
  total ((k, v) ∷ m) = w v + total m

  pub total-insert_new :
      (k : K) (v : V) (m : Map K V) → lookup k m ≡ none → total (insert k v m) ≡ total m + w v
  unfolding total lookup insert
  total-insert_new k v [] h = omega arith
  total-insert_new k v ((j, u) ∷ m) h = ground (arith, total-insert_new k v m)

  pub total-insert_old :
      (k : K) (v u : V) (m : Map K V)
      → lookup k m ≡ some u
      → total (insert k v m) + w u ≡ total m + w v
  unfolding total lookup insert
  total-insert_old k v u [] h = cc
  total-insert_old k v u ((j, x) ∷ m) h = ground (arith, total-insert_old k v u m)

  pub le-total : (k : K) (v : V) (m : Map K V) → lookup k m ≡ some v → w v ≤ total m
  unfolding total lookup
  le-total k v [] h = cc
  le-total k v ((j, x) ∷ m) h = ground (arith, le-total k v m)

  -- The values under two keys are two parts of the sum.
  pub add-le-total :
      (a b : K) (x y : V) (m : Map K V)
      → a ≢ b
      → lookup a m ≡ some x
      → lookup b m ≡ some y
      → w x + w y ≤ total m
  unfolding total lookup
  add-le-total a b x y [] ne p q = cc
  add-le-total a b x y ((j, z) ∷ m) ne p q = ground (
    arith,
    e.beq_iff j a,
    e.beq_iff j b,
    le-total a x m,
    le-total b y m,
    add-le-total a b x y m ne,
  )

module _ {ℓ κ} {K : Type ℓ} {V : Type κ} ⦃e : Eq K⦄ where
  pub length-insert_new :
      (k : K) (v : V) (m : Map K V) → lookup k m ≡ none → length (insert k v m) ≡ length m + 1
  unfolding lookup insert
  length-insert_new k v [] h = omega arith
  length-insert_new k v ((j, u) ∷ m) h = ground (arith, length-insert_new k v m)

  pub length-insert_old :
      (k : K) (v u : V) (m : Map K V) → lookup k m ≡ some u → length (insert k v m) ≡ length m
  unfolding lookup insert
  length-insert_old k v u [] h = cc
  length-insert_old k v u ((j, x) ∷ m) h = ground (arith, length-insert_old k v u m)

-- The keys of the map differ, and are numbers from 1 to `n`.
module _ {V : Type 0} where
  abbrev pub Members : ℕ → Map ℕ V → Type 0
  Members n [] = Unit {0}
  Members n ((k, v) ∷ m) = (0 < k) × (k ≤ n) × (lookup k m ≡ none) × Members n m

  pub Members-insert :
      (n k : ℕ) (v : V) (m : Map ℕ V) → 0 < k → k ≤ n → Members n m → Members n (insert k v m)
  unfolding insert lookup
  Members-insert n k v [] p q h = (p, q, refl, tt)
  Members-insert n k v ((j, u) ∷ m) p q h = elim (Bool-cases (nat_beq j k)) [
    | inl same ↦ rw same (h.0, h.1, h.2, h.3)
    | inr other ↦
        rw other (h.0, h.1, ground (arith, lookup-insert k j v m), Members-insert n k v m p q h.3)
  ]

  delete_missing : (k : ℕ) (m : Map ℕ V) → lookup k m ≡ none → delete k m ≡ m
  unfolding delete lookup
  delete_missing k [] h = refl
  delete_missing k ((j, u) ∷ m) h = ground (arith, delete_missing k m)

  length-delete : (n k : ℕ) (m : Map ℕ V) → Members n m → length m ≤ length (delete k m) + 1
  unfolding delete
  length-delete n k [] h = omega arith
  length-delete n k ((j, u) ∷ m) h = elim (Bool-cases (nat_beq j k)) [
    | inl same ↦
        let e : j ≡ k = ground arith in rw (same, delete_missing k m (rw (← e) h.2)) (omega arith)
    | inr other ↦ rw other (omega (arith, length-delete n k m h.3))
  ]

  Members-delete : (n : ℕ) (m : Map ℕ V) → Members (suc n) m → Members n (delete (suc n) m)
  unfolding delete
  Members-delete n [] h = tt
  Members-delete n ((j, u) ∷ m) h = elim (Bool-cases (nat_beq j (suc n))) [
    | inl same ↦ rw same (Members-delete n m h.3)
    | inr other ↦
        rw other (
          h.0,
          ground arith,
          ground (arith, lookup-delete (suc n) j m, h.2),
          Members-delete n m h.3,
        )
  ]

  -- So there are at most `n`.
  pub length-le_of_Members : (n : ℕ) (m : Map ℕ V) → Members n m → length m ≤ n
  length-le_of_Members n [] h = omega arith
  length-le_of_Members zero ((k, v) ∷ m) h = absurd (omega arith)
  length-le_of_Members (suc n) ((k, v) ∷ m) h =
      let all : Map ℕ V = (k, v) ∷ m in
      omega (
        arith,
        length-delete (suc n) (suc n) all h,
        length-le_of_Members n (delete (suc n) all) (Members-delete n all h),
      )
