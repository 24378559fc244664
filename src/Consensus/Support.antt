-- ===== src/Consensus/Support.antt =====
-- Behind each public key in the pool stand as many nodes as the threshold says.
use adkg.Base.{
  Map, ℕ, ℤ, ◌≡◌, refl, true, none, some, List, [], ◌∷◌, ◌++◌, text_eq, nat_beq, length, contains,
  All, ◌==◌, Bool-cases, Option-cases, inl, inr, ◌⊎◌, arith, All-append,
}
use adkg.Base.Maps.{lookup, insert, delete, lookup-insert, lookup-delete, lookup_of_insert}
use adkg.Base.Classes.{beq_refl}
use adkg.Base.Distinct.{Distinct, Distinct-snoc}
use adkg.Rounds.{Text, adkg_id_from_round_id, get_index}
use adkg.Consensus.{State, Abci, PubKeygenMessage, KeygenPubKey, Services, Tx, pub_keygen_type}
use adkg.Consensus.Keyspace.{decision_key}
use adkg.Consensus.Votes.{
  raise_counters, complete_key, count_votes, add_vote, on_pub_keygen, update_by_type,
  update_tx-cases, deliver_tx,
}
use adkg.Consensus.Blocks.{begin_block, commit, save_state}
use adkg.Consensus.Run.{Event, on_event}
use adkg.Consensus.Backed.{
  voted, Votes, IsBacked, IsBacked-fewer, on_assignment-Taken, Taken-IsBacked,
}

-- The votes with a new one are kept, or there are enough of them and they make a key.
count_votes_state :
    (sv : Services) (k : ℕ) (id : Text) (index : ℤ) (key : Text) (nodes : List ℕ)
    (m : PubKeygenMessage) (a : Abci)
    → let s = a.state in
      let t = (count_votes sv k id index key nodes m a).0.state in
      ((t.keygen_decisions ≡ insert key nodes s.keygen_decisions)
        × (t.keygen_pub_keys ≡ s.keygen_pub_keys))
      ⊎ ((length nodes ≡ k)
          × (t.keygen_decisions ≡ delete key (insert key nodes s.keygen_decisions))
          × (t.keygen_pub_keys
              ≡ insert id (record { id = id; point = m.public_key }) s.keygen_pub_keys))
unfolding count_votes complete_key raise_counters
count_votes_state sv k id index key nodes m a = elim (Bool-cases (nat_beq (length nodes) k)) [
  | inr few ↦ inl (ground arith, ground arith)
  | inl enough ↦ elim (Bool-cases sv.stores_public_key) [
    | inr fails ↦ inl (ground arith, ground arith)
    | inl stores ↦ inr (ground arith, ground arith, ground arith)
  ]
]

kept_votes :
    (key j : Text) (nodes l : List ℕ) (d : Map Text (List ℕ))
    → lookup j (delete key (insert key nodes d)) ≡ some l
    → lookup j d ≡ some l
kept_votes key j nodes l d e =
    ground (arith, lookup-delete key j (insert key nodes d), lookup-insert key j nodes d)

module _ (keccak : Text → Text) (k : ℕ) where
  insert-IsBacked :
      (v : Votes) (key : Text) (nodes : List ℕ) (s t : State)
      → Distinct nodes
      → All (λ n. v key n ≡ true) nodes
      → t.keygen_decisions ≡ insert key nodes s.keygen_decisions
      → t.keygen_pub_keys ≡ s.keygen_pub_keys
      → IsBacked keccak k v s
      → IsBacked keccak k v t
  insert-IsBacked v key nodes s t distinct all d p h = record {
    decided = λ key' nodes' e.
        elim (lookup_of_insert key key' nodes nodes' s.keygen_decisions (rw (← d) e)) [
          | inl (same, new) ↦ rw (same, new) (distinct, all)
          | inr old ↦ h.decided key' nodes' old
        ];
    created = λ id x e. h.created id x (rw (← p) e);
  }

  complete-IsBacked :
      (v : Votes) (id : Text) (m : PubKeygenMessage) (nodes : List ℕ) (s t : State)
      → let key = decision_key keccak id m.public_key.x in
        Distinct nodes
        → All (λ n. v key n ≡ true) nodes
        → length nodes ≡ k
        → t.keygen_decisions ≡ delete key (insert key nodes s.keygen_decisions)
        → t.keygen_pub_keys ≡ insert id (record { id = id; point = m.public_key }) s.keygen_pub_keys
        → IsBacked keccak k v s
        → IsBacked keccak k v t
  complete-IsBacked v id m nodes s t distinct all enough d p h =
      let key = decision_key keccak id m.public_key.x in
      let new : KeygenPubKey = record { id = id; point = m.public_key } in
      record {
        decided = λ key' nodes' e.
            h.decided key' nodes'
              (kept_votes key key' nodes nodes' s.keygen_decisions (rw (← d) e));
        created = λ id' x e. elim (lookup_of_insert id id' new x s.keygen_pub_keys (rw (← p) e)) [
          | inl (same, now) ↦ rw (same, now) (nodes, distinct, enough, all)
          | inr old ↦ h.created id' x old
        ];
      }

  count_votes-IsBacked :
      (v : Votes) (sv : Services) (id : Text) (index : ℤ) (nodes : List ℕ) (m : PubKeygenMessage)
      (a : Abci)
      → let key = decision_key keccak id m.public_key.x in
        Distinct nodes
        → All (λ n. v key n ≡ true) nodes
        → IsBacked keccak k v a.state
        → IsBacked keccak k v (count_votes sv k id index key nodes m a).0.state
  count_votes-IsBacked v sv id index nodes m a distinct all h =
      let key = decision_key keccak id m.public_key.x in
      elim (count_votes_state sv k id index key nodes m a) [
        | inl (d, p) ↦ insert-IsBacked v key nodes a.state _ distinct all d p h
        | inr (enough, d, p) ↦ complete-IsBacked v id m nodes a.state _ distinct all enough d p h
      ]

module _ (k : ℕ) (v : Votes) (sv : Services) (sender : ℕ) where
  add_vote-IsBacked :
      (id : Text) (index : ℤ) (m : PubKeygenMessage) (a : Abci)
      → v (decision_key sv.keccak_hex id m.public_key.x) sender ≡ true
      → IsBacked sv.keccak_hex k v a.state
      → IsBacked sv.keccak_hex k v (add_vote sv k sender id index m a).0.state
  unfolding add_vote
  add_vote-IsBacked id index m a vote h =
      let key = decision_key sv.keccak_hex id m.public_key.x in
      elim (Option-cases (lookup key a.state.keygen_decisions)) [
        | inl e ↦
            rw (add_vote, e)
              (count_votes-IsBacked sv.keccak_hex k v sv id index (sender ∷ []) m a (refl, tt)
                (vote, tt) h)
        | inr (nodes, e) ↦ elim (Bool-cases (contains nodes sender)) [
          | inl again ↦ rw (add_vote, e, again) h
          | inr fresh ↦
              let (d, all) = h.decided key nodes e in
              rw (add_vote, e, fresh)
                (count_votes-IsBacked sv.keccak_hex k v sv id index (nodes ++ sender ∷ []) m a
                  (Distinct-snoc nodes sender fresh d)
                  (All-append (λ n. v key n ≡ true) nodes (sender ∷ []) all (vote, tt)) h)
        ]
      ]

  on_pub_keygen-IsBacked :
      (m : PubKeygenMessage) (a : Abci)
      → ((id : Text)
          → adkg_id_from_round_id m.round_id ≡ some id
          → v (decision_key sv.keccak_hex id m.public_key.x) sender ≡ true)
      → IsBacked sv.keccak_hex k v a.state
      → IsBacked sv.keccak_hex k v (on_pub_keygen sv k sender m a).0.state
  unfolding on_pub_keygen
  on_pub_keygen-IsBacked m a vote h = elim (Option-cases (adkg_id_from_round_id m.round_id)) [
    | inl e ↦ rw (on_pub_keygen, e) h
    | inr (id, e) ↦ elim (Option-cases (get_index id)) [
      | inl i ↦ rw (on_pub_keygen, e, i) h
      | inr (index, i) ↦ elim (Option-cases (lookup id a.state.keygen_pub_keys)) [
        | inr (p, l) ↦ rw (on_pub_keygen, e, i, l) h
        | inl l ↦ rw (on_pub_keygen, e, i, l) (add_vote-IsBacked id index m a (vote id e) h)
      ]
    ]
  ]

  update_by_type-IsBacked :
      (tx : Tx) (a : Abci)
      → ((key : Text) (n : ℕ)
          → voted sv.keccak_hex (Event.deliver (some (sender, tx))) key n ≡ true
          → v key n ≡ true)
      → IsBacked sv.keccak_hex k v a.state
      → IsBacked sv.keccak_hex k v (update_by_type sv k sender tx a).0.state
  unfolding update_by_type voted
  update_by_type-IsBacked (Tx.assignment (some tx)) a vote h =
      Taken-IsBacked sv.keccak_hex k v a.state _ (on_assignment-Taken sv tx a) h
  update_by_type-IsBacked (Tx.assignment none) a vote h = h
  update_by_type-IsBacked Tx.undecoded_message a vote h = h
  update_by_type-IsBacked Tx.other_type a vote h = h
  update_by_type-IsBacked (Tx.dkg_message method none) a vote h =
      elim (Bool-cases (method == pub_keygen_type)) [ inl e ↦ rw e h | inr e ↦ rw e h ]
  update_by_type-IsBacked (Tx.dkg_message method (some m)) a vote h =
      elim (Bool-cases (method == pub_keygen_type)) [
        | inr e ↦ rw e h
        | inl e ↦ rw e (
            on_pub_keygen-IsBacked m a
              (λ id i. vote (decision_key sv.keccak_hex id m.public_key.x) sender (
                rw (voted, i, e, beq_refl (decision_key sv.keccak_hex id m.public_key.x))
                  (ground arith)))
              h)
      ]

pub on_event-IsBacked :
    (k : ℕ) (v : Votes) (sv : Services) (e : Event) (a : Abci)
    → sv.threshold ≡ some k
    → ((key : Text) (n : ℕ) → voted sv.keccak_hex e key n ≡ true → v key n ≡ true)
    → IsBacked sv.keccak_hex k v a.state
    → IsBacked sv.keccak_hex k v (on_event sv e a).state
unfolding on_event begin_block commit save_state deliver_tx
on_event-IsBacked k v sv (Event.begin time) a t vote h =
    IsBacked-fewer sv.keccak_hex k v a.state _ (λ key nodes e. e) (λ id p e. e) h
on_event-IsBacked k v sv (Event.close hash) a t vote h = h
on_event-IsBacked k v sv (Event.deliver none) a t vote h = h
on_event-IsBacked k v sv (Event.deliver (some (sender, tx))) a t vote h =
    elim (update_tx-cases sv sender tx a) [
      | inl e ↦ rw (on_event, deliver_tx, e) h
      | inr (j, now, e) ↦
          let same : j ≡ k = cc (now, t) in
          rw (on_event, deliver_tx, e, same) (update_by_type-IsBacked k v sv sender tx a vote h)
    ]
