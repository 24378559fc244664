-- ===== src/KeyDerivation.antt =====
-- keygen/message_handlers/keyderivation/init_handler.go: the dealers whose shares make up the key, the
-- union of the keysets that the agreements accepted.
pub mod Union
pub mod Keys
pub mod Proof
pub mod Acceptance
pub mod Share
pub mod Steps
pub mod Finish
pub mod Examples
use adkg.Base.{
  ℕ, ℤ, int_eq, nat_eq, Bool, true, Option, none, some, List, [], ◌∷◌, ◌++◌, Map, nat_beq,
  if◌then◌else◌,
}
use adkg.Base.Maps
use adkg.Bitset.{get_set_bits}
use adkg.Session.{Session}

-- `for _, item := range a { m[item] = true }`
unfoldable pub mark : List ℕ → Map ℕ Bool → Map ℕ Bool
mark [] m = m
mark (item ∷ a) m = mark a (Maps.insert item true m)

-- The inner loop over a further list: an item without an entry in the map is appended and marked.
unfoldable pub add_items : List ℕ → List ℕ → Map ℕ Bool → List ℕ × Map ℕ Bool
add_items [] a m = (a, m)
add_items (item ∷ s) a m = elim (Maps.lookup item m) [
  | none ↦ add_items s (a ++ item ∷ []) (Maps.insert item true m)
  | some _ ↦ add_items s a m
]

unfoldable pub add_lists : List (List ℕ) → List ℕ → Map ℕ Bool → List ℕ
unfolding add_items
add_lists [] a m = a
add_lists (s ∷ args) a m = let (a1, m1) = add_items s a m in add_lists args a1 m1

-- `Union`
unfoldable pub union : List (List ℕ) → List ℕ
unfolding mark add_lists
union [] = []
union (a ∷ args) = add_lists args a (mark a [])

-- The loop of `InitMessage.Process` that collects the keysets; `walked` are the decisions in the order in
-- which the range meets them.
unfoldable pub agreed_keysets : (n : ℕ) → (walked : Map ℤ ℕ) → Session → List (List ℕ)
agreed_keysets n [] ss = []
agreed_keysets n ((node, v) ∷ walked) ss =
    let rest = agreed_keysets n walked ss in
    if nat_beq v 1 then get_set_bits n (Maps.get_or ss.keysets node 0) ∷ rest else rest
