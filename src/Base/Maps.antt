-- ===== src/Base/Maps.antt =====
-- A Go map as an association list, in the order of insertion.
use adkg.Base.Tests.{if◌then◌else◌, Bool-cases}
use adkg.Base.Classes.{Eq, ◌==◌}
use mathlib.Core.Path.{◌≡◌, refl, sym, ◌∙◌}
use mathlib.Core.Logic.{◌≢◌, ◌⊎◌, inl, inr}
use mathlib.Core.List.{List, [], ◌∷◌}
use mathlib.Core.Option.{Option, none, some}
use native.Mathlib.Omega.{arith}

abbrev pub Map {ℓ κ} : Type ℓ → Type κ → Type (ℓ ⊔ κ)
Map K V = List (K × V)

module _ {ℓ κ} {K : Type ℓ} {V : Type κ} ⦃e : Eq K⦄ where
  -- `v, ok := m[k]`
  unfoldable pub lookup : K → Map K V → Option V
  lookup k [] = none
  lookup k ((j, v) ∷ m) = if j == k then some v else lookup k m

  -- `m[k] = v`
  unfoldable pub insert : K → V → Map K V → Map K V
  insert k v [] = (k, v) ∷ []
  insert k v ((j, w) ∷ m) = if j == k then (j, v) ∷ m else (j, w) ∷ insert k v m

  -- `delete(m, k)`
  unfoldable pub delete : K → Map K V → Map K V
  delete k [] = []
  delete k ((j, v) ∷ m) = if j == k then delete k m else (j, v) ∷ delete k m

  -- `m[k]`, with the zero value where the key is missing
  unfoldable pub get_or : Map K V → K → V → V
  get_or [] k d = d
  get_or ((j, v) ∷ m) k d = if j == k then v else get_or m k d

  pub lookup-insert :
      (k j : K) (new : V) (m : Map K V)
      → lookup j (insert k new m) ≡ (if k == j then some new else lookup j m)
  unfolding insert lookup
  lookup-insert k j new ((i, old) ∷ m) =
      ground (arith, e.beq_iff k j, e.beq_iff i k, e.beq_iff i j, lookup-insert k j new m)
  lookup-insert k j new [] = refl

  pub get_or-insert :
      (k j : K) (v d : V) (m : Map K V)
      → get_or (insert k v m) j d ≡ (if k == j then v else get_or m j d)
  unfolding get_or insert
  get_or-insert k j v d [] = refl
  get_or-insert k j v d ((i, w) ∷ m) =
      ground (arith, e.beq_iff k j, e.beq_iff i k, e.beq_iff i j, get_or-insert k j v d m)

  pub lookup-delete :
      (k j : K) (m : Map K V) → lookup j (delete k m) ≡ (if k == j then none else lookup j m)
  unfolding lookup delete
  lookup-delete k j [] = ground arith
  lookup-delete k j ((i, w) ∷ m) =
      ground (arith, e.beq_iff k j, e.beq_iff i k, e.beq_iff i j, lookup-delete k j m)

  pub lookup-insert_self : (k : K) (v : V) (m : Map K V) → lookup k (insert k v m) ≡ some v
  lookup-insert_self k v m = ground (arith, lookup-insert k k v m, e.beq_iff k k)

  pub lookup-insert_ne :
      (k j : K) (v : V) (m : Map K V) → k ≢ j → lookup j (insert k v m) ≡ lookup j m
  lookup-insert_ne k j v m h = ground (arith, lookup-insert k j v m, e.beq_iff k j)

  pub lookup-delete_self : (k : K) (m : Map K V) → lookup k (delete k m) ≡ none
  lookup-delete_self k m = ground (arith, lookup-delete k k m, e.beq_iff k k)

  -- What is found after a removal was there.
  pub lookup_of_delete :
      (k j : K) (v : V) (m : Map K V) → lookup j (delete k m) ≡ some v → lookup j m ≡ some v
  lookup_of_delete k j v m h = ground (arith, lookup-delete k j m)

  -- What is found after a write is the new value, or was there.
  pub lookup_of_insert :
      (k j : K) (v w : V) (m : Map K V)
      → lookup j (insert k v m) ≡ some w
      → ((j ≡ k) × (w ≡ v)) ⊎ (lookup j m ≡ some w)
  lookup_of_insert k j v w m h = elim (Bool-cases (k == j)) [
    | inl same ↦
        let found : lookup j (insert k v m) ≡ some v = lookup-insert k j v m ∙ rw same in
        inl (sym ((e.beq_iff k j).0 same), cc)
    | inr other ↦ inr (ground (arith, lookup-insert k j v m))
  ]
