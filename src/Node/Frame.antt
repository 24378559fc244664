-- ===== src/Node/Frame.antt =====
-- The end of one key generation leaves the others alone.
use adkg.Base.{
  ℕ, ◌≡◌, ◌≢◌, refl, ◌∙◌, Option, none, List, [], ◌∷◌, arith, Bool-cases, inl, inr, ◌==◌, text_eq,
}
use adkg.Base.Maps.{lookup, lookup-insert}
use adkg.Messages.{Text}
use adkg.Rounds.{create_round, delimiter4}
use adkg.Rounds.Parts.{Lacks}
use adkg.Rounds.Ids.{create_round-injective}
use adkg.Stores.{StoreMap, complete}
use adkg.Node.{
  NodeState, acss_kind, keyset_kind, cleanup_keygen_store, cleanup_session_store, cleanup,
}

lookup-complete :
    {S : Type 0} (m : StoreMap S) (r q : Text) → r ≢ q → lookup q (complete m r) ≡ lookup q m
unfolding complete
lookup-complete {S} m r q ne = elim (Bool-cases (r == q)) [
  | inl same ↦ absurd (ne ((text_eq.beq_iff r q).0 same))
  | inr other ↦ (let gone : Option S = none in lookup-insert r q gone m ∙ rw other refl)
]

apart :
    (id other kind sort : Text) (node leading : ℕ)
    → id ≢ other
    → Lacks delimiter4 id
    → Lacks delimiter4 other
    → Lacks delimiter4 sort
    → Lacks delimiter4 kind
    → create_round id node sort ≢ create_round other leading kind
apart id other kind sort node leading differ pi po ps pk e =
    differ (create_round-injective id other sort kind node leading pi po ps pk e)

module _ {Point : Type 0} (id other kind : Text) (leading : ℕ) (differ : id ≢ other)
    (plain_id : Lacks delimiter4 id) (plain_other : Lacks delimiter4 other)
    (plain_kind : Lacks delimiter4 kind) where
  rounds_kept :
      (nodes : List ℕ) (s : NodeState Point)
      → let t = cleanup_keygen_store nodes id s in
        let q = create_round other leading kind in
        (lookup q t.keygen_store ≡ lookup q s.keygen_store)
        × (lookup q t.aba_store ≡ lookup q s.aba_store)
  unfolding cleanup_keygen_store
  rounds_kept [] s = (refl, refl)
  rounds_kept (node ∷ nodes) s =
      let a = create_round id node acss_kind in
      let k = create_round id node keyset_kind in
      let q = create_round other leading kind in
      let na =
        apart id other kind acss_kind node leading differ plain_id plain_other (omega arith)
          plain_kind in
      let nk =
        apart id other kind keyset_kind node leading differ plain_id plain_other (omega arith)
          plain_kind in
      let s1 : NodeState Point = record s {
        keygen_store = complete (complete s.keygen_store a) k;
        aba_store = complete s.aba_store k;
      } in
      let rest = rounds_kept nodes s1 in
      (
        rest.0
            ∙ lookup-complete (complete s.keygen_store a) k q nk
            ∙ lookup-complete s.keygen_store a q na,
        rest.1 ∙ lookup-complete s.aba_store k q nk,
      )

  sessions_kept :
      (nodes : List ℕ) (s : NodeState Point)
      → lookup other (cleanup_keygen_store nodes id s).session_store ≡ lookup other s.session_store
  unfolding cleanup_keygen_store
  sessions_kept [] s = refl
  sessions_kept (node ∷ nodes) s = sessions_kept nodes (record s {
    keygen_store =
        complete (complete s.keygen_store (create_round id node acss_kind))
          (create_round id node keyset_kind);
    aba_store = complete s.aba_store (create_round id node keyset_kind);
  })

  -- The cleanup of a key generation leaves each round, agreement and session of any other as it was, when
  -- the identifiers and the kind are without the delimiter.
  pub cleanup_frame :
      (nodes : List ℕ) (s : NodeState Point)
      → let t = cleanup nodes id s in
        let q = create_round other leading kind in
        (lookup q t.keygen_store ≡ lookup q s.keygen_store)
        × (lookup q t.aba_store ≡ lookup q s.aba_store)
        × (lookup other t.session_store ≡ lookup other s.session_store)
  unfolding cleanup cleanup_session_store
  cleanup_frame nodes s =
      let kept = rounds_kept nodes s in
      let t = cleanup_keygen_store nodes id s in
      (kept.0, kept.1, lookup-complete t.session_store id other differ ∙ sessions_kept nodes s)
