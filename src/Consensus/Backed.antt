-- ===== src/Consensus/Backed.antt =====
-- The pool of public keys and the votes: what stands behind each entry, and that an assignment keeps it.
use adkg.Base.{
  ℕ, ◌≡◌, refl, Bool, true, false, ◌&&◌, ◌||◌, none, some, List, [], ◌∷◌, text_eq, nat_beq, length,
  All, ◌==◌, Bool-cases, Option-cases, inl, inr, ◌⊎◌, arith,
}
use adkg.Base.Maps.{lookup, delete, lookup_of_delete}
use adkg.Base.Distinct.{Distinct}
use adkg.Rounds.{Text, secp256k1, adkg_id_from_round_id}
use adkg.Consensus.{
  key_available, point_of, KeyAssignmentPublic, State, Abci, AssignmentTx, KeygenPubKey, Services,
  Tx, pub_keygen_type,
}
use adkg.Consensus.Keyspace.{
  decision_key, store_key_mapping, store_verifier_to_key_index, get_verifier_key,
}
use adkg.Consensus.Assigned.{reset_failed}
use adkg.Consensus.Assignment.{
  get_key_assignment, create_key_assignment, on_assignment, store_assignment, settle, assign_key,
  find_unassigned_key,
}
use adkg.Consensus.Votes.{raise_counters}
use adkg.Consensus.Run.{Event}

-- Whether an event is the vote of the node for the key: a message for a round of the key generation,
-- with a point whose X has the hash.
unfoldable pub voted : (keccak : Text → Text) → Event → (key : Text) → (node : ℕ) → Bool
voted keccak (Event.deliver (some (sender, Tx.dkg_message method (some m)))) key node =
    elim (adkg_id_from_round_id m.round_id) [
      | none ↦ false
      | some id ↦
          method == pub_keygen_type
          && (nat_beq sender node && decision_key keccak id m.public_key.x == key)
    ]
voted keccak _ key node = false

unfoldable pub voted_in :
    (keccak : Text → Text) → List (Services × Event) → (key : Text) → (node : ℕ) → Bool
unfolding voted
voted_in keccak [] key node = false
voted_in keccak ((_, e) ∷ es) key node = voted keccak e key node || voted_in keccak es key node

abbrev pub Votes : Type 0
Votes = Text → ℕ → Bool

-- As many distinct nodes as the threshold voted for the key.
abbrev pub HasVoters : (k : ℕ) → (Text → ℕ → Bool) → Text → Type 0
HasVoters k v key =
    (nodes : List ℕ) × Distinct nodes × (length nodes ≡ k) × All (λ n. v key n ≡ true) nodes

All-mono : {P Q : ℕ → Type 0} (l : List ℕ) → ((n : ℕ) → P n → Q n) → All P l → All Q l
All-mono [] f h = tt
All-mono (n ∷ l) f h = (f n h.0, All-mono l f h.1)

module _ (keccak : Text → Text) (k : ℕ) where
  pub record IsBacked (v : Votes) (s : State) : Type 0 where
    pub decided :
        (key : Text) (nodes : List ℕ)
        → lookup key s.keygen_decisions ≡ some nodes
        → Distinct nodes × All (λ n. v key n ≡ true) nodes
    pub created :
        (id : Text) (p : KeygenPubKey)
        → lookup id s.keygen_pub_keys ≡ some p
        → HasVoters k v (decision_key keccak id p.point.x)

  pub IsBacked-more :
      (v w : Votes) (s : State)
      → ((key : Text) (n : ℕ) → v key n ≡ true → w key n ≡ true)
      → IsBacked v s
      → IsBacked w s
  IsBacked-more v w s f h = record {
    decided =
        λ key nodes e. let (d, all) = h.decided key nodes e in (d, All-mono nodes (f key) all);
    created = λ id p e.
        let (nodes, d, n, all) = h.created id p e in
        (nodes, d, n, All-mono nodes (f (decision_key keccak id p.point.x)) all);
  }

  -- Fewer entries are still backed.
  pub IsBacked-fewer :
      (v : Votes) (s t : State)
      → ((key : Text) (nodes : List ℕ)
          → lookup key t.keygen_decisions ≡ some nodes
          → lookup key s.keygen_decisions ≡ some nodes)
      → ((id : Text) (p : KeygenPubKey)
          → lookup id t.keygen_pub_keys ≡ some p
          → lookup id s.keygen_pub_keys ≡ some p)
      → IsBacked v s
      → IsBacked v t
  IsBacked-fewer v s t f g h = record {
    decided = λ key nodes e. h.decided key nodes (f key nodes e);
    created = λ id p e. h.created id p (g id p e);
  }

raise_counters_maps :
    (curve : Text) (index : ℕ) (s : State)
    → ((raise_counters curve index s).keygen_decisions ≡ s.keygen_decisions)
      × ((raise_counters curve index s).keygen_pub_keys ≡ s.keygen_pub_keys)
unfolding raise_counters
raise_counters_maps curve index s = ground arith

-- An assignment takes at most one key from the pool, and no vote.
abbrev Taken : State → State → Type 0
Taken s t =
    (t.keygen_decisions ≡ s.keygen_decisions)
    × ((t.keygen_pub_keys ≡ s.keygen_pub_keys)
        ⊎ ((id : Text) × (t.keygen_pub_keys ≡ delete id s.keygen_pub_keys)))

settle-Taken :
    (pk : KeyAssignmentPublic) (curve id : Text) (s : State) → Taken s (settle pk curve id s)
unfolding settle assign_key
settle-Taken pk curve id s = elim (Bool-cases (curve == secp256k1)) [
  | inl e ↦ rw e (refl, inr (id, refl))
  | inr e ↦ rw e (refl, inr (id, refl))
]

store_assignment_state :
    (sv : Services) (tx : AssignmentTx) (id : Text) (i : ℕ) (a : Abci)
    → let s = (store_assignment sv tx id i a).0.state in
      (s ≡ a.state)
      ⊎ (s ≡ settle (create_key_assignment tx i (point_of a.state id)) tx.curve id a.state)
unfolding store_assignment
store_assignment_state sv tx id i a =
    let pk = create_key_assignment tx i (point_of a.state id) in
    let l = get_key_assignment sv i tx a.db in
    elim (Option-cases (store_key_mapping sv i tx.curve pk a.db)) [
      | inl e ↦ inl (ground arith)
      | inr (d1, e) ↦ elim (Option-cases (sv.partition_for_app tx.app_id)) [
        | inl p ↦ inl (ground arith)
        | inr (q, p) ↦
            elim (Option-cases (store_verifier_to_key_index sv (get_verifier_key tx q) l d1)) [
              | inl w ↦ inl (ground arith)
              | inr (d2, w) ↦ inr (ground arith)
            ]
      ]
    ]

store_assignment-Taken :
    (sv : Services) (tx : AssignmentTx) (id : Text) (i : ℕ) (a : Abci)
    → Taken a.state (store_assignment sv tx id i a).0.state
store_assignment-Taken sv tx id i a = elim (store_assignment_state sv tx id i a) [
  | inl e ↦ rw e (refl, inl refl)
  | inr e ↦
      rw e (settle-Taken (create_key_assignment tx i (point_of a.state id)) tx.curve id a.state)
]

pub on_assignment-Taken :
    (sv : Services) (tx : AssignmentTx) (a : Abci) → Taken a.state (on_assignment sv tx a).0.state
unfolding on_assignment
on_assignment-Taken sv tx a = elim (Bool-cases (key_available a.state tx.curve)) [
  | inr out ↦ rw out (refl, inl refl)
  | inl there ↦ elim (Option-cases (find_unassigned_key a.state tx.curve)) [
    | inl missing ↦ rw (there, missing) (refl, inl refl)
    | inr ((id, i), found) ↦ rw (there, found) (store_assignment-Taken sv tx id i (reset_failed a))
  ]
]

module _ (keccak : Text → Text) (k : ℕ) where
  pub Taken-IsBacked :
      (v : Votes) (s t : State) → Taken s t → IsBacked keccak k v s → IsBacked keccak k v t
  Taken-IsBacked v s t (d, p) h =
      IsBacked-fewer keccak k v s t (λ key nodes e. rw (← d) e)
        (λ id x e. elim p [
          | inl same ↦ rw (← same) e
          | inr (gone, less) ↦ lookup_of_delete gone id x s.keygen_pub_keys (rw (← less) e)
        ])
        h
