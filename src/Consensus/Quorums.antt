-- ===== src/Consensus/Quorums.antt =====
-- The public keys of a run of the application: who voted for them, and whose point is kept.
use mathlib.Core.Path.{subst}
use adkg.Base.{
  ℕ, ℤ, ◌+◌, ◌^◌, ◌≡◌, ◌≤◌, ◌<◌, ◌∙◌, pos, true, false, ◌||◌, none, some, List, [], ◌∷◌, ◌++◌,
  text_eq, length, length-append, contains, All, arith,
}
use adkg.Base.Maps.{lookup, insert, lookup-insert_self, lookup-delete_self}
use adkg.Rounds.{Text, secp256k1, adkg_id_from_round_id, get_index, get_curve}
use adkg.Consensus.{Abci, PubKeygenMessage, KeygenPubKey, Services, Call, Verdict, to_uint}
use adkg.Consensus.Keyspace.{decision_key}
use adkg.Consensus.Votes.{
  on_pub_keygen, add_vote, count_votes, complete_key, raise_counters, raise_created,
}
use adkg.Consensus.Run.{Event, on_event, run_chain}
use adkg.Consensus.Backed.{Votes, HasVoters, IsBacked, IsBacked-more, voted, voted_in}
use adkg.Consensus.Support.{on_event-IsBacked}

-- The epoch has the threshold, and the hash is the same, at each event.
abbrev pub Steady : (Text → Text) → ℕ → List (Services × Event) → Type 0
Steady keccak k = All (λ e. (e.0.threshold ≡ some k) × (e.0.keccak_hex ≡ keccak))

module _ (keccak : Text → Text) (k : ℕ) where
  step-IsBacked :
      (v : Votes) (sv : Services) (e : Event) (a : Abci)
      → sv.threshold ≡ some k
      → sv.keccak_hex ≡ keccak
      → IsBacked keccak k v a.state
      → IsBacked keccak k (λ key n. v key n || voted keccak e key n) (on_event sv e a).state
  step-IsBacked v sv e a t same h =
      let w = λ (key : Text) (n : ℕ). v key n || voted keccak e key n in
      subst
        (λ κ.
          ((key : Text) (n : ℕ) → voted κ e key n ≡ true → w key n ≡ true)
          → IsBacked κ k w a.state
          → IsBacked κ k w (on_event sv e a).state)
        same (on_event-IsBacked k w sv e a t) (λ key n vote. ground arith)
        (IsBacked-more keccak k v w a.state (λ key n old. ground arith) h)

  run_chain-IsBacked :
      (es : List (Services × Event)) (v : Votes) (a : Abci)
      → Steady keccak k es
      → IsBacked keccak k v a.state
      → IsBacked keccak k (λ key n. v key n || voted_in keccak es key n) (run_chain es a).state
  unfolding run_chain voted_in
  run_chain-IsBacked [] v a steady h =
      IsBacked-more keccak k v _ a.state (λ key n old. ground arith) h
  run_chain-IsBacked ((sv, e) ∷ es) v a steady h =
      let w = λ (key : Text) (n : ℕ). v key n || voted keccak e key n in
      let b = on_event sv e a in
      IsBacked-more keccak k (λ key n. w key n || voted_in keccak es key n) _ (run_chain es b).state
        (λ key n old. ground arith)
        (run_chain-IsBacked es w b steady.1 (step-IsBacked v sv e a steady.0.0 steady.0.1 h))

empty_lookup {ℓ} : {V : Type ℓ} (k : Text) (v : V) → lookup {V = V} k [] ≡ some v → ⊥
unfolding lookup
empty_lookup k v h = cc

pub keys_have_quorum :
    (keccak : Text → Text) (k : ℕ) (es : List (Services × Event)) (a : Abci) (id : Text)
    (p : KeygenPubKey)
    → a.state.keygen_decisions ≡ []
    → a.state.keygen_pub_keys ≡ []
    → Steady keccak k es
    → lookup id (run_chain es a).state.keygen_pub_keys ≡ some p
    → HasVoters k (voted_in keccak es) (decision_key keccak id p.point.x)
keys_have_quorum keccak k es a id p d q steady h =
    let start : IsBacked keccak k (λ key n. false) a.state = record {
      decided = λ key nodes e. absurd (empty_lookup key nodes (rw (← d) e));
      created = λ i x e. absurd (empty_lookup i x (rw (← q) e));
    } in
    (run_chain-IsBacked keccak k es (λ key n. false) a steady start).created id p h

-- The last vote is counted, and makes the key.
last_vote_completes :
    (sv : Services) (k sender : ℕ) (index : ℤ) (m : PubKeygenMessage) (a : Abci) (id : Text)
    (nodes : List ℕ)
    → adkg_id_from_round_id m.round_id ≡ some id
    → get_index id ≡ some index
    → lookup id a.state.keygen_pub_keys ≡ none
    → lookup (decision_key sv.keccak_hex id m.public_key.x) a.state.keygen_decisions ≡ some nodes
    → contains nodes sender ≡ false
    → length nodes + 1 ≡ k
    → let key = decision_key sv.keccak_hex id m.public_key.x in
      on_pub_keygen sv k sender m a
      ≡ complete_key sv id index key m (record a {
        state = record a.state {
          keygen_decisions = insert key (nodes ++ sender ∷ []) a.state.keygen_decisions;
        };
      })
unfolding on_pub_keygen add_vote count_votes
last_vote_completes sv k sender index m a id nodes r x fresh votes new enough =
    let key = decision_key sv.keccak_hex id m.public_key.x in
    let counted : on_pub_keygen sv k sender m a ≡ add_vote sv k sender id index m a =
      ground arith in
    let added : add_vote sv k sender id index m a
        ≡ count_votes sv k id index key (nodes ++ sender ∷ []) m a =
      ground arith in
    let full : length (nodes ++ sender ∷ []) ≡ k =
      omega (arith, length-append nodes (sender ∷ []), enough) in
    counted ∙ added ∙ ground arith

pub last_vote_decides :
    (sv : Services) (k sender i : ℕ) (m : PubKeygenMessage) (a : Abci) (id : Text) (nodes : List ℕ)
    → adkg_id_from_round_id m.round_id ≡ some id
    → get_index id ≡ some (pos i)
    → get_curve id ≡ some secp256k1
    → i < 2 ^ 64
    → sv.stores_public_key ≡ true
    → lookup id a.state.keygen_pub_keys ≡ none
    → lookup (decision_key sv.keccak_hex id m.public_key.x) a.state.keygen_decisions ≡ some nodes
    → contains nodes sender ≡ false
    → length nodes + 1 ≡ k
    → let (b, v, calls) = on_pub_keygen sv k sender m a in
      (lookup id b.state.keygen_pub_keys ≡ some (record { id = id; point = m.public_key }))
      × (lookup (decision_key sv.keccak_hex id m.public_key.x) b.state.keygen_decisions ≡ none)
      × (v ≡ Verdict.untagged)
      × (calls
          ≡ Call.store_public_key_to_index m.public_key (pos i) secp256k1 ∷ Call.cleanup id ∷ [])
      × (i ≤ b.state.secp_state.last_created_index)
unfolding complete_key raise_counters raise_created to_uint
last_vote_decides sv k sender i m a id nodes r x c small stores fresh votes new enough =
    let key = decision_key sv.keccak_hex id m.public_key.x in
    let made = last_vote_completes sv k sender (pos i) m a id nodes r x fresh votes new enough in
    let d = insert key (nodes ++ sender ∷ []) a.state.keygen_decisions in
    let new_key : KeygenPubKey = record { id = id; point = m.public_key } in
    rw made (
      ground (arith, lookup-insert_self id new_key a.state.keygen_pub_keys),
      ground (arith, lookup-delete_self key d),
      ground arith,
      ground arith,
      ground arith,
    )
