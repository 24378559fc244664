-- ===== src/Node/Removal.antt =====
-- keygen/keygen_node.go: `remove` leaves nothing of the rounds of a key generation.
use adkg.Base.{
  ℕ, ◌≡◌, true, none, List, [], ◌∷◌, contains, nat_beq, text_eq, Bool-cases, inl, inr, arith,
}
use mathlib.Core.Path.{subst}
use adkg.Base.Maps
use adkg.Base.Maps.{lookup, lookup-delete}
use adkg.Messages.{Text}
use adkg.Rounds.{create_round}
use adkg.Stores.{StoreMap}
use adkg.Stores
use adkg.Node.{NodeState, acss_kind, keyset_kind, remove_rounds, remove}

-- Nothing is stored under the key.
abbrev IsGone {ℓ} : {S : Type ℓ} → StoreMap S → Text → Type ℓ
IsGone m q = lookup q m ≡ none

delete-IsGone_other {ℓ} :
    {S : Type ℓ} (m : StoreMap S) (r q : Text) → IsGone m q → IsGone (Maps.delete r m) q
delete-IsGone_other m r q h = ground (arith, lookup-delete r q m)

module _ {Point : Type 0} where
  -- The rounds of a dealer in a key generation are in no map.
  pub record AreGone (id : Text) (node : ℕ) (s : NodeState Point) : Type 0 where
    pub acss : lookup (create_round id node acss_kind) s.keygen_store ≡ none
    pub keyset : lookup (create_round id node keyset_kind) s.keygen_store ≡ none
    pub aba : lookup (create_round id node keyset_kind) s.aba_store ≡ none

  remove_one : (id : Text) (node : ℕ) → NodeState Point → NodeState Point
  remove_one id node s = record s {
    keygen_store =
        Maps.delete (create_round id node keyset_kind)
          (Maps.delete (create_round id node acss_kind) s.keygen_store);
    aba_store = Maps.delete (create_round id node keyset_kind) s.aba_store;
  }

  remove_one-AreGone :
      (id : Text) (node : ℕ) (s : NodeState Point) → AreGone id node (remove_one id node s)
  unfolding remove_one
  remove_one-AreGone id node s = record {
    acss =
        delete-IsGone_other _ _ _
          (Maps.lookup-delete_self (create_round id node acss_kind) s.keygen_store);
    keyset = Maps.lookup-delete_self (create_round id node keyset_kind) _;
    aba = Maps.lookup-delete_self (create_round id node keyset_kind) s.aba_store;
  }

  remove_other-AreGone :
      (id other_id : Text) (node other : ℕ) (s : NodeState Point)
      → AreGone id node s
      → AreGone id node (remove_one other_id other s)
  unfolding remove_one
  remove_other-AreGone id other_id node other s g = record {
    acss = delete-IsGone_other _ _ _ (delete-IsGone_other s.keygen_store _ _ g.acss);
    keyset = delete-IsGone_other _ _ _ (delete-IsGone_other s.keygen_store _ _ g.keyset);
    aba = delete-IsGone_other s.aba_store _ _ g.aba;
  }

  pub stay_gone :
      (nodes : List ℕ) (id other_id : Text) (node : ℕ) (s : NodeState Point)
      → AreGone id node s
      → AreGone id node (remove_rounds nodes other_id s)
  unfolding remove_rounds remove_one adkg.Stores.delete
  stay_gone [] id other_id node s g = g
  stay_gone (other ∷ nodes) id other_id node s g =
      stay_gone nodes id other_id node (remove_one other_id other s)
        (remove_other-AreGone id other_id node other s g)

  pub all_gone :
      (nodes : List ℕ) (id : Text) (node : ℕ) (s : NodeState Point)
      → contains nodes node ≡ true
      → AreGone id node (remove_rounds nodes id s)
  unfolding remove_rounds remove_one adkg.Stores.delete
  all_gone [] id node s h = absurd (ground arith)
  all_gone (other ∷ nodes) id node s h = elim (Bool-cases (nat_beq other node)) [
    | inl same ↦
        let e : other ≡ node = ground arith in
        stay_gone nodes id id node (remove_one id other s)
          (subst (λ i. AreGone id i (remove_one id other s)) e (remove_one-AreGone id other s))
    | inr differ ↦ all_gone nodes id node (remove_one id other s) (ground arith)
  ]

  -- The end of the session does not matter to the rounds.
  pub remove-AreGone :
      (nodes : List ℕ) (id other_id : Text) (node : ℕ) (s : NodeState Point)
      → AreGone id node (remove_rounds nodes other_id s)
      → AreGone id node (remove nodes other_id s)
  unfolding remove
  remove-AreGone nodes id other_id node s g = record {
    acss = g.acss;
    keyset = g.keyset;
    aba = g.aba;
  }
