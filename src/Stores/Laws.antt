-- ===== src/Stores/Laws.antt =====
-- What a lookup, a completion and a handler leave under each key.
use adkg.Base.{
  Option, none, some, ◌≡◌, arith, text_eq, if◌then◌else◌, ◌==◌, Option-cases, Bool-cases, inl, inr,
  List,
}
use adkg.Base.Maps.{lookup, insert, lookup-insert}
use adkg.Messages.{Text}
use adkg.Stores.{StoreMap, get_or_set_if_not_complete, complete, write_back, with_store}

module _ {ℓ} {S : Type ℓ} where
  -- `GetOrSetIfNotComplete` leaves under its own key the store that it returns, or nil where it reports
  -- that the entry is complete, and leaves every other key as it was.
  pub lookup-get_or_set :
      (m : StoreMap S) (r q : Text) (input : S)
      → let g = get_or_set_if_not_complete m r input in
        lookup q g.0 ≡ (if r == q then some g.1 else lookup q m)
  unfolding get_or_set_if_not_complete
  lookup-get_or_set m r q input = elim (Option-cases (lookup r m)) [
    | inl missing ↦ rw (missing, get_or_set_if_not_complete) (lookup-insert r q (some input) m)
    | inr (found, e) ↦ ground (arith, text_eq.beq_iff r q)
  ]

  -- After `Complete`, the lookup of every handler for that key reports that it is complete, and changes
  -- nothing.
  pub get_or_set-complete :
      (m : StoreMap S) (r : Text) (input : S)
      → get_or_set_if_not_complete (complete m r) r input ≡ (complete m r, none)
  unfolding get_or_set_if_not_complete complete
  get_or_set-complete m r input =
      let gone : Option S = none in ground (arith, lookup-insert r r gone m, text_eq.beq_iff r r)

  -- The store that a handler works on: the one under the key, or a new one.
  abbrev pub view : StoreMap S → Text → S → Option S
  view m r input = elim (lookup r m) [ none ↦ some input | some found ↦ found ]

module _ {ℓ κ} {S : Type ℓ} {E : Type κ} where
  abbrev pub after : (S → S × List E) → Option S → Option S
  after body none = none
  after body (some s) = some (body s).0

  -- A handler changes the entry of its own key only, by its body and only if the entry is not complete.
  pub lookup-with_store :
      (m : StoreMap S) (r q : Text) (input : S) (body : S → S × List E)
      → lookup q (with_store m r input body).0
        ≡ (if r == q then some (after body (view m r input)) else lookup q m)
  unfolding with_store get_or_set_if_not_complete write_back
  lookup-with_store m r q input body = elim (Option-cases (lookup r m)) [
    | inl missing ↦ ground (
      arith,
      missing,
      lookup-insert r q (some (body input).0) (insert r (some input) m),
      lookup-insert r q (some input) m,
    )
    | inr (none, e) ↦ ground (arith, e, text_eq.beq_iff r q)
    | inr (some s, e) ↦ ground (arith, e, lookup-insert r q (some (body s).0) m)
  ]

  pub view-with_store :
      (m : StoreMap S) (r q : Text) (input other : S) (body : S → S × List E)
      → view (with_store m r input body).0 q other
        ≡ (if r == q then after body (view m r input) else view m q other)
  view-with_store m r q input other body = elim (Bool-cases (r == q)) [
    | inl same ↦ ground (arith, same, lookup-with_store m r q input body)
    | inr differ ↦ ground (arith, differ, lookup-with_store m r q input body)
  ]
