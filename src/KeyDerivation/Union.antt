-- ===== src/KeyDerivation/Union.antt =====
-- Each dealer of an accepted keyset is in the union, and once.
use adkg.Base.{
  ℕ, ◌≡◌, refl, ◌∙◌, ap, ℤ, int_eq, nat_eq, Bool, true, false, ◌&&◌, ◌||◌, none, some, List, [],
  ◌∷◌, ◌++◌, Map, nat_beq, leb, contains, if◌then◌else◌, Bool-cases, inl, inr, arith,
}
use adkg.Base.Maps.{lookup, insert, lookup-insert, get_or}
use adkg.Base.Distinct.{Distinct, contains-snoc, Distinct-snoc}
use adkg.Bitset.{has_bit}
use adkg.Bitset.Laws.{contains-get_set_bits, Distinct-get_set_bits}
use adkg.Session.{Session}
use adkg.KeyDerivation.{mark, add_items, add_lists, union, agreed_keysets}

-- The map has an entry for just the items of the list.
abbrev Marks : List ℕ → Map ℕ Bool → Type 0
Marks a m = (x : ℕ) → lookup x m ≡ (if contains a x then some true else none)

Marks-snoc :
    (a : List ℕ) (m : Map ℕ Bool) (item : ℕ)
    → Marks a m
    → Marks (a ++ item ∷ []) (insert item true m)
Marks-snoc a m item h x = ground (arith, lookup-insert item x true m, contains-snoc a item x, h x)

lookup_nil : (x : ℕ) → lookup {V = Bool} x [] ≡ none
unfolding lookup
lookup_nil x = refl

any_contains : List (List ℕ) → ℕ → Bool
any_contains [] x = false
any_contains (s ∷ args) x = contains s x || any_contains args x

mark-lookup :
    (a : List ℕ) (m : Map ℕ Bool) (x : ℕ)
    → lookup x (mark a m) ≡ (if contains a x then some true else lookup x m)
unfolding mark
mark-lookup [] m x = refl
mark-lookup (item ∷ a) m x =
    ground (arith, mark-lookup a (insert item true m) x, lookup-insert item x true m)

-- An item that is there already changes nothing.
again :
    (r a s : List ℕ) (item x : ℕ)
    → contains r x ≡ (contains a x || contains s x)
    → contains a item ≡ true
    → contains r x ≡ (contains a x || contains (item ∷ s) x)
again r a s item x h old = elim (Bool-cases (nat_beq item x)) [
  | inl same ↦ let e : item ≡ x = ground arith in ground (arith, ap (contains a) e)
  | inr other ↦ ground arith
]

add_items_lem :
    (s a : List ℕ) (m : Map ℕ Bool)
    → Marks a m
    → Distinct a
    → let r = add_items s a m in
      Marks r.0 r.1 × Distinct r.0 × ((x : ℕ) → contains r.0 x ≡ (contains a x || contains s x))
unfolding add_items
add_items_lem [] a m h d = (h, d, λ x. ground arith)
add_items_lem (item ∷ s) a m h d = elim (Bool-cases (contains a item)) [
  | inl old ↦
      let seen : lookup item m ≡ some true = rw (h item, old) refl in
      let rest = add_items_lem s a m h d in
      rw (add_items, seen)
        (rest.0, rest.1, λ x. again (add_items s a m).0 a s item x (rest.2 x) old)
  | inr new ↦
      let missing : lookup item m ≡ none = rw (h item, new) refl in
      let rest =
        add_items_lem s (a ++ item ∷ []) (insert item true m) (Marks-snoc a m item h)
          (Distinct-snoc a item new d) in
      rw (add_items, missing)
        (rest.0, rest.1, λ x. ground (arith, rest.2 x, contains-snoc a item x))
]

add_lists_lem :
    (args : List (List ℕ)) (a : List ℕ) (m : Map ℕ Bool)
    → Marks a m
    → Distinct a
    → let r = add_lists args a m in
      Distinct r × ((x : ℕ) → contains r x ≡ (contains a x || any_contains args x))
unfolding add_lists any_contains
add_lists_lem [] a m h d = (d, λ x. ground arith)
add_lists_lem (s ∷ args) a m h d =
    let one = add_items_lem s a m h d in
    let r = add_items s a m in
    let rest = add_lists_lem args r.0 r.1 one.0 one.1 in
    (rest.0, λ x. ground (arith, rest.1 x, one.2 x))

-- The first list must be without a repetition, since `Union` takes it over as it is.
abbrev IsFirstDistinct : List (List ℕ) → Type 0
IsFirstDistinct [] = Unit {0}
IsFirstDistinct (a ∷ _) = Distinct a

union_lem :
    (args : List (List ℕ))
    → IsFirstDistinct args
    → Distinct (union args) × ((x : ℕ) → contains (union args) x ≡ any_contains args x)
unfolding union any_contains
union_lem [] d = (tt, λ x. refl)
union_lem (a ∷ args) d =
    add_lists_lem args a (mark a [])
      (λ x.
        mark-lookup a [] x
        ∙ (let none_found : lookup {V = Bool} x [] ≡ none = lookup_nil x in rw none_found refl))
      d

-- Whether a dealer is in the keyset of a node whose agreement ended in 1
pub is_agreed : Map ℤ ℕ → Session → ℕ → Bool
is_agreed [] ss p = false
is_agreed ((node, v) ∷ walked) ss p =
    let rest = is_agreed walked ss p in
    if nat_beq v 1 then has_bit (get_or ss.keysets node 0) p || rest else rest

agreed_lem :
    (n : ℕ) (walked : Map ℤ ℕ) (ss : Session) (p : ℕ)
    → IsFirstDistinct (agreed_keysets n walked ss)
      × (any_contains (agreed_keysets n walked ss) p
          ≡ (leb 1 p && leb p n && is_agreed walked ss p))
unfolding agreed_keysets any_contains is_agreed
agreed_lem n [] ss p = (tt, ground arith)
agreed_lem n ((node, v) ∷ walked) ss p =
    let rest = agreed_lem n walked ss p in
    let set = get_or ss.keysets node 0 in
    elim (Bool-cases (nat_beq v 1)) [
      | inl one ↦
          rw one
            (Distinct-get_set_bits n set, ground (arith, contains-get_set_bits n set p, rest.1))
      | inr zero_vote ↦ rw zero_vote rest
    ]

-- The dealers whose shares a node adds up for the key, in whatever order the decisions are met: a dealer
-- from 1 to `n` is among them exactly when it is in the keyset of some node whose agreement ended in 1,
-- and none is there twice.
pub union-agreed_keysets :
    (n : ℕ) (walked : Map ℤ ℕ) (ss : Session) (p : ℕ)
    → let dealers = union (agreed_keysets n walked ss) in
      Distinct dealers × (contains dealers p ≡ (leb 1 p && leb p n && is_agreed walked ss p))
union-agreed_keysets n walked ss p =
    let agreed = agreed_lem n walked ss p in
    let u = union_lem (agreed_keysets n walked ss) agreed.0 in (u.0, u.1 p ∙ agreed.1)
