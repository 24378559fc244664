-- ===== src/Stores.antt =====
-- common/adkg_common.go: the three maps of a node's state, from a round or a key generation to its
-- store. `none` under a key is the nil that `Complete` leaves there.
pub mod Examples
pub mod Laws
pub mod Rounds
use adkg.Base.{Option, none, some, List, ◌∷◌, [], Eq, Map, ℕ, text_eq}
use adkg.Base.Maps
use adkg.Messages.{Text}

abbrev pub StoreMap {ℓ} : Type ℓ → Type ℓ
StoreMap S = Map Text (Option S)

-- The pointer that a lookup returns, or nil, with the map
module _ {ℓ} {S : Type ℓ} where
  -- `Get`: the second part is `found`.
  unfoldable pub get : StoreMap S → Text → Option (Option S)
  get m r = Maps.lookup r m

  -- `GetOrSet` and `GetOrSetIfNotComplete`: `none` when the entry is complete.
  unfoldable pub get_or_set_if_not_complete : StoreMap S → Text → S → StoreMap S × Option S
  get_or_set_if_not_complete m r input = elim (Maps.lookup r m) [
    | none ↦ (Maps.insert r (some input) m, some input)
    | some found ↦ (m, found)
  ]

  unfoldable pub complete : StoreMap S → Text → StoreMap S
  complete m r = Maps.insert r none m

  unfoldable pub delete : StoreMap S → Text → StoreMap S
  delete m r = Maps.delete r m

  -- The store behind the pointer after a handler has changed it
  unfoldable pub write_back : StoreMap S → Text → S → StoreMap S
  write_back m r s = Maps.insert r (some s) m

-- How every handler uses its map: look the store up or make one, stop if it is complete, and otherwise
-- change it under its lock.
unfoldable pub with_store {ℓ κ} :
    {S : Type ℓ} {E : Type κ} → StoreMap S → Text → S → (S → S × List E) → StoreMap S × List E
unfolding get_or_set_if_not_complete write_back
with_store m r input body =
    let (m1, found) = get_or_set_if_not_complete m r input in
    elim found [ none ↦ (m1, []) | some s ↦ let (s1, out) = body s in (write_back m1 r s1, out) ]

-- The same for a body that may panic: then the whole is `none`.
unfoldable pub try_store {ℓ κ} :
    {S : Type ℓ} {E : Type κ}
    → StoreMap S
    → Text
    → S
    → (S → Option (S × List E))
    → Option (StoreMap S × List E)
unfolding get_or_set_if_not_complete write_back
try_store m r input body =
    let (m1, found) = get_or_set_if_not_complete m r input in
    elim found [
      | none ↦ some (m1, [])
      | some s ↦ elim (body s) [ none ↦ none | some (s1, out) ↦ some (write_back m1 r s1, out) ]
    ]
