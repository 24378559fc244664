-- ===== src/Node/Cleanup.antt =====
-- After its end, no message for a key generation does anything.
use adkg.Base.{
  ℕ, ◌≡◌, refl, ◌∙◌, true, Option, none, some, List, [], ◌∷◌, arith, contains, nat_beq, Bool-cases,
  inl, inr, ◌==◌, text_eq,
}
use mathlib.Core.Path.{subst}
use adkg.Base.Classes.{beq_refl}
use adkg.Base.Maps.{lookup, lookup-insert}
use adkg.Messages.{Text, Share}
use adkg.Runtime.{Runtime}
use adkg.Rounds.{create_round}
use adkg.Session.{Session}
use adkg.Stores.{StoreMap, complete, with_store, get_or_set_if_not_complete}
use adkg.Rbc.{SharingStore}
use adkg.Aba.State.{AbaState}
use adkg.Acss
use adkg.Keyset
use adkg.Aba.Process
use adkg.Node.{
  NodeState, acss_kind, keyset_kind, cleanup_keygen_store, cleanup_session_store, cleanup,
}

-- The entry of a key is the nil of a complete store.
abbrev pub IsClosed {ℓ} : {S : Type ℓ} → StoreMap S → Text → Type ℓ
IsClosed m q = lookup q m ≡ some none

module _ {ℓ} {S : Type ℓ} where
  complete-IsClosed : (m : StoreMap S) (r : Text) → IsClosed (complete m r) r
  unfolding complete
  complete-IsClosed m r =
      let gone : Option S = none in lookup-insert r r gone m ∙ rw (beq_refl r) refl

  complete-IsClosed_other : (m : StoreMap S) (r q : Text) → IsClosed m q → IsClosed (complete m r) q
  unfolding complete
  complete-IsClosed_other m r q h = elim (Bool-cases (r == q)) [
    | inl same ↦ (let gone : Option S = none in lookup-insert r q gone m ∙ rw same refl)
    | inr other ↦ (let gone : Option S = none in lookup-insert r q gone m ∙ rw other h)
  ]

  -- A handler does nothing on a closed entry.
  with_store-IsClosed {κ} :
      {E : Type κ} (m : StoreMap S) (r : Text) (input : S) (body : S → S × List E)
      → IsClosed m r
      → with_store m r input body ≡ (m, [])
  unfolding with_store get_or_set_if_not_complete
  with_store-IsClosed m r input body h =
      rw (with_store, get_or_set_if_not_complete, h, get_or_set_if_not_complete, h) refl

module _ {Point : Type 0} (id : Text) where
  -- The rounds of a node are closed in the maps of rounds and of agreements.
  record AreClosed (node : ℕ) (s : NodeState Point) : Type 0 where
    pub acss : IsClosed s.keygen_store (create_round id node acss_kind)
    pub keyset : IsClosed s.keygen_store (create_round id node keyset_kind)
    pub aba : IsClosed s.aba_store (create_round id node keyset_kind)

  close_one : ℕ → NodeState Point → NodeState Point
  close_one node s = record s {
    keygen_store =
        complete (complete s.keygen_store (create_round id node acss_kind))
          (create_round id node keyset_kind);
    aba_store = complete s.aba_store (create_round id node keyset_kind);
  }

  close_one-AreClosed : (node : ℕ) (s : NodeState Point) → AreClosed node (close_one node s)
  unfolding close_one
  close_one-AreClosed node s = record {
    acss =
        complete-IsClosed_other _ _ _
          (complete-IsClosed s.keygen_store (create_round id node acss_kind));
    keyset = complete-IsClosed _ (create_round id node keyset_kind);
    aba = complete-IsClosed s.aba_store (create_round id node keyset_kind);
  }

  close_other-AreClosed :
      (node other : ℕ) (s : NodeState Point) → AreClosed node s → AreClosed node (close_one other s)
  unfolding close_one
  close_other-AreClosed node other s c = record {
    acss = complete-IsClosed_other _ _ _ (complete-IsClosed_other s.keygen_store _ _ c.acss);
    keyset = complete-IsClosed_other _ _ _ (complete-IsClosed_other s.keygen_store _ _ c.keyset);
    aba = complete-IsClosed_other s.aba_store _ _ c.aba;
  }

  stay_closed :
      (nodes : List ℕ) (node : ℕ) (s : NodeState Point)
      → AreClosed node s
      → AreClosed node (cleanup_keygen_store nodes id s)
  unfolding cleanup_keygen_store close_one
  stay_closed [] node s c = c
  stay_closed (other ∷ nodes) node s c =
      stay_closed nodes node (close_one other s) (close_other-AreClosed node other s c)

  all_closed :
      (nodes : List ℕ) (node : ℕ) (s : NodeState Point)
      → contains nodes node ≡ true
      → AreClosed node (cleanup_keygen_store nodes id s)
  unfolding cleanup_keygen_store close_one
  all_closed [] node s h = absurd (ground arith)
  all_closed (other ∷ nodes) node s h = elim (Bool-cases (nat_beq other node)) [
    | inl same ↦
        let e : other ≡ node = ground arith in
        stay_closed nodes node (close_one other s)
          (subst (λ i. AreClosed i (close_one other s)) e (close_one-AreClosed other s))
    | inr differ ↦ all_closed nodes node (close_one other s) (ground arith)
  ]

-- No message changes the map of rounds or sends anything: neither an echo nor a ready message of either
-- broadcast, under the identifiers of the two rounds of a dealer.
abbrev pub IsSilentBroadcast : Runtime → StoreMap SharingStore → (acss_id keyset_id : Text) → Type 0
IsSilentBroadcast rt m acss_id keyset_id =
    (sender : ℕ) (curve : Text) (share : Share) (hash : Text)
    → (Acss.process_echo rt sender acss_id curve share hash m ≡ (m, []))
      × (Acss.process_ready rt sender acss_id curve share hash m ≡ (m, []))
      × (Keyset.process_echo rt sender keyset_id curve share hash m ≡ (m, []))
      × (Keyset.process_ready rt sender keyset_id curve share hash m ≡ (m, []))

-- The same for the votes of an agreement
abbrev pub IsSilentAgreement :
    {Point : Type 0} → Runtime → StoreMap (AbaState Point) → Text → Type 0
IsSilentAgreement rt m round =
    (sender : ℕ) (curve : Text) (v r : ℕ) (sessions : StoreMap Session)
    → (Process.process_init rt.self sender round curve v r m ≡ (m, []))
      × (Process.process_est1 rt.f sender round curve v r m ≡ (m, []))
      × (Process.process_aux1 rt.n rt.f sender round curve v r m ≡ (m, []))
      × (Process.process_auxset rt.n rt.f sender round curve v r m ≡ (m, []))
      × (Process.process_est2 rt.f sender round curve v r m ≡ (m, []))
      × (Process.process_aux2 rt.n rt.f sender round curve v r (m, sessions) ≡ (m, sessions, []))

silent_broadcast :
    (rt : Runtime) (m : StoreMap SharingStore) (acss_id keyset_id : Text)
    → IsClosed m acss_id
    → IsClosed m keyset_id
    → IsSilentBroadcast rt m acss_id keyset_id
unfolding Acss.process_echo Acss.process_ready Keyset.process_echo Keyset.process_ready
silent_broadcast rt m acss_id keyset_id a k sender curve share hash = (
  with_store-IsClosed m acss_id _ _ a,
  with_store-IsClosed m acss_id _ _ a,
  with_store-IsClosed m keyset_id _ _ k,
  with_store-IsClosed m keyset_id _ _ k,
)

silent_agreement :
    {Point : Type 0} (rt : Runtime) (m : StoreMap (AbaState Point)) (round : Text)
    → IsClosed m round
    → IsSilentAgreement rt m round
unfolding Process.process_init Process.process_est1 Process.process_aux1 Process.process_auxset
    Process.process_est2 Process.process_aux2 get_or_set_if_not_complete
silent_agreement rt m round h sender curve v r sessions = (
  elim (Bool-cases (nat_beq sender rt.self)) [
    | inl own ↦ rw own (with_store-IsClosed m round _ _ h)
    | inr other ↦ rw other refl
  ],
  with_store-IsClosed m round _ _ h,
  with_store-IsClosed m round _ _ h,
  with_store-IsClosed m round _ _ h,
  with_store-IsClosed m round _ _ h,
  rw (Process.process_aux2, get_or_set_if_not_complete, h, get_or_set_if_not_complete, h) refl,
)

-- After the cleanup of a key generation its session is closed, and for each node of the list no echo,
-- ready message or vote of its rounds changes a map or sends anything, whatever the state was before.
pub cleanup_silences :
    {Point : Type 0} (rt : Runtime) (nodes : List ℕ) (id : Text) (node : ℕ) (s : NodeState Point)
    → contains nodes node ≡ true
    → let t = cleanup nodes id s in
      IsClosed t.session_store id
      × IsSilentBroadcast rt t.keygen_store
          (create_round id node acss_kind)
          (create_round id node keyset_kind)
      × IsSilentAgreement rt t.aba_store (create_round id node keyset_kind)
unfolding cleanup cleanup_session_store
cleanup_silences rt nodes id node s h =
    let t = cleanup_keygen_store nodes id s in
    let c = all_closed id nodes node s h in
    (
      complete-IsClosed t.session_store id,
      silent_broadcast rt t.keygen_store _ _ c.acss c.keyset,
      silent_agreement rt t.aba_store _ c.aba,
    )
