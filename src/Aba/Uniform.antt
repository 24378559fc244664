-- ===== src/Aba/Uniform.antt =====
-- The value that a node supports in a round is the first one that came into its bin.
use adkg.Base.{
  ℕ, ◌+◌, ◌*◌, ◌≡◌, refl, ◌&&◌, not, Option, none, some, List, [], ◌∷◌, ◌++◌, arith, nat_beq, leb,
  contains, length, Bool-cases, Option-cases, inl, inr, get_elem?, All, All-append,
}
use adkg.Messages.{Text, Message, Effect, broadcast}
use adkg.Session.{Session}
use adkg.Stores.{StoreMap}
use adkg.Aba.{
  on_init, on_est, on_est1, on_est2, on_aux1, on_auxset, relay, fill_bin, send_chosen, auxset_value,
  est2_value, announce_bin, new_est1_message, new_est2_message, new_auxset_message,
  new_aux1_message, new_aux2_message,
}
use adkg.Aba.Decision.{on_aux2, values2}
use adkg.Aba.Laws.{get_bin-set_values, get_bin-set_sent, get_bin-set_started, get_bin-set_bin}
use adkg.Aba.Frames.{get_bin-on_est, get_bin-send_chosen}
use adkg.Aba.Run.{Kind, Input, handle, run}
use adkg.Aba.Silent.{conclude-All}
use adkg.Aba.State.{
  AbaState, Values, Sends, Bins, values, set_values, sent, get_bin, set_bin, set_started,
  get_started, get_round,
}

first-snoc : (l : List ℕ) (v x : ℕ) → get_elem? l 0 ≡ some x → get_elem? (l ++ v ∷ []) 0 ≡ some x
first-snoc [] v x h = cc
first-snoc (y ∷ l) v x h = h

module _ {Point : Type 0} where
  -- The first value of the bin of a round
  abbrev pub first : Bins → ℕ → AbaState Point → Option ℕ
  first b q s = get_elem? (get_bin b q s) 0

  -- An aux message carries the first value of its bin, that of its phase and its round.
  unfoldable pub IsFirst : AbaState Point → Effect → Type 0
  IsFirst s (Effect.broadcast (Message.aba_aux1 _ _ v r)) = first Bins.bin r s ≡ some v
  IsFirst s (Effect.broadcast (Message.aba_aux2 _ _ v r)) = first Bins.bin2 r s ≡ some v
  IsFirst s _ = Unit {0}

  abbrev Extends : AbaState Point → AbaState Point → Type 0
  Extends s t = (b : Bins) (q x : ℕ) → first b q s ≡ some x → first b q t ≡ some x

  IsFirst-Extends : (s t : AbaState Point) (e : Effect) → Extends s t → IsFirst s e → IsFirst t e
  unfolding IsFirst
  IsFirst-Extends s t (Effect.broadcast (Message.aba_aux1 _ _ v r)) h p = h Bins.bin r v p
  IsFirst-Extends s t (Effect.broadcast (Message.aba_aux2 _ _ v r)) h p = h Bins.bin2 r v p
  IsFirst-Extends s t _ h p = p

  All-Extends :
      (s t : AbaState Point) (out : List Effect)
      → Extends s t
      → All (IsFirst s) out
      → All (IsFirst t) out
  All-Extends s t [] h p = tt
  All-Extends s t (e ∷ out) h p = (IsFirst-Extends s t e h p.0, All-Extends s t out h p.1)

  on_est-Extends :
      (f : ℕ) (j : Values) (flag : Sends) (c : Bins) (ne : Message) (na : ℕ → Message)
      (sender v r : ℕ) (s : AbaState Point)
      → Extends s (on_est f j flag c ne na sender v r s).0
  on_est-Extends f j flag c ne na sender v r s b q x h =
      rw (get_bin-on_est f j flag b c ne na sender v r q s, get_bin-set_bin b c r v q s)
        (ground (arith, first-snoc (get_bin b q s) v x))

  relay-IsFirst :
      (f : ℕ) (j : Values) (flag : Sends) (ne : Message) (v r : ℕ) (s t : AbaState Point)
      → IsFirst t (broadcast ne)
      → All (IsFirst t) (relay f j flag ne v r s).1
  unfolding relay
  relay-IsFirst f j flag ne v r s t he =
      elim (Bool-cases (leb (f + 1) (length (values j r v s)) && not (sent flag r v s))) [
        | inl due ↦ rw (relay, due) (he, tt)
        | inr not_due ↦ rw (relay, not_due) tt
      ]

  fill_bin-IsFirst :
      (f : ℕ) (j : Values) (c : Bins) (na : ℕ → Message) (v r : ℕ) (s : AbaState Point)
      → ((t : AbaState Point) (x : ℕ) → first c r t ≡ some x → IsFirst t (broadcast (na x)))
      → let out = fill_bin f j c na v r s in All (IsFirst out.0) out.1
  unfolding fill_bin announce_bin
  fill_bin-IsFirst f j c na v r s ha =
      elim (Bool-cases (nat_beq (length (values j r v s)) (2 * f + 1))) [
        | inl full ↦ elim (Option-cases (first c r (set_bin c r v s))) [
          | inl empty ↦ rw (fill_bin, full, announce_bin, empty) tt
          | inr (x, e) ↦ rw (fill_bin, full, announce_bin, e) (ha (set_bin c r v s) x e, tt)
        ]
        | inr more ↦ rw (fill_bin, more) tt
      ]

  on_est-IsFirst :
      (f : ℕ) (j : Values) (flag : Sends) (c : Bins) (ne : Message) (na : ℕ → Message)
      (sender v r : ℕ) (s : AbaState Point)
      → ((t : AbaState Point) → IsFirst t (broadcast ne))
      → ((t : AbaState Point) (x : ℕ) → first c r t ≡ some x → IsFirst t (broadcast (na x)))
      → let out = on_est f j flag c ne na sender v r s in All (IsFirst out.0) out.1
  unfolding on_est
  on_est-IsFirst f j flag c ne na sender v r s he ha =
      let s1 = set_values j r v sender s in
      let relayed = relay f j flag ne v r s1 in
      let filled = fill_bin f j c na v r relayed.0 in
      elim (Bool-cases (contains (values j r v s) sender)) [
        | inl seen ↦ rw (on_est, seen) tt
        | inr fresh ↦
            rw (on_est, fresh)
              (All-append (IsFirst filled.0) relayed.1 filled.1
                (relay-IsFirst f j flag ne v r s1 filled.0 (he filled.0))
                (fill_bin-IsFirst f j c na v r relayed.0 ha))
      ]

  send_chosen-IsFirst :
      (flag : Sends) (nm : ℕ → Message) (r : ℕ) (o : Option ℕ) (s : AbaState Point)
      → ((t : AbaState Point) (x : ℕ) → IsFirst t (broadcast (nm x)))
      → let out = send_chosen flag nm r o s in All (IsFirst out.0) out.1
  unfolding send_chosen
  send_chosen-IsFirst flag nm r none s h = tt
  send_chosen-IsFirst flag nm r (some x) s h = elim (Bool-cases (sent flag r x s)) [
    | inl up ↦ rw (send_chosen, up) tt
    | inr down ↦ rw (send_chosen, down) (h _ x, tt)
  ]

module _ {Point : Type 0} (n f : ℕ) (round curve : Text) where
  kept-Extends :
      (s t : AbaState Point) → ((b : Bins) (q : ℕ) → get_bin b q t ≡ get_bin b q s) → Extends s t
  kept-Extends s t same b q x h = rw (same b q) h

  handle-Extends :
      (k : Kind) (sender v r : ℕ) (s : AbaState Point) (ss : StoreMap Session)
      → Extends s (handle n f round curve k sender v r s ss).0
  unfolding handle on_init on_est1 on_est2 on_aux1 on_auxset on_aux2
  handle-Extends Kind.init sender v r s ss = kept-Extends s _ (λ b q.
      ground
        (arith, get_bin-set_started b r q s, get_bin-set_sent b Sends.est r v q (set_started r s)))
  handle-Extends Kind.est1 sender v r s ss = on_est-Extends f _ _ _ _ _ sender v r s
  handle-Extends Kind.est2 sender v r s ss = on_est-Extends f _ _ _ _ _ sender v r s
  handle-Extends Kind.aux1 sender v r s ss =
      let s1 = set_values Values.aux r v sender s in
      kept-Extends s _ (λ b q. ground (
        arith,
        get_bin-set_values b Values.aux r v sender q s,
        get_bin-send_chosen b Sends.auxset (λ x. new_auxset_message round x r curve) r q
            (auxset_value n f r s1) s1,
      ))
  handle-Extends Kind.auxset sender v r s ss =
      let s1 = set_values Values.auxset r v sender s in
      kept-Extends s _ (λ b q. ground (
        arith,
        get_bin-set_values b Values.auxset r v sender q s,
        get_bin-send_chosen b Sends.est2 (λ x. new_est2_message round x r curve) r q
            (est2_value n f r s1) s1,
      ))
  handle-Extends Kind.aux2 sender v r s ss =
      kept-Extends s _ (λ b q. ground (arith, get_bin-set_values b Values.aux2 r v sender q s))

  handle-IsFirst :
      (k : Kind) (sender v r : ℕ) (s : AbaState Point) (ss : StoreMap Session)
      → let x = handle n f round curve k sender v r s ss in All (IsFirst x.0) x.2
  unfolding handle on_init on_est1 on_est2 on_aux1 on_auxset on_aux2 IsFirst
  handle-IsFirst Kind.init sender v r s ss = elim (Bool-cases (get_started r s)) [
    | inl old ↦ rw (on_init, old) tt
    | inr new ↦ elim (Bool-cases (sent Sends.est r v s)) [
      | inl up ↦ rw (on_init, new, up) tt
      | inr down ↦ rw (on_init, new, down) (tt, tt)
    ]
  ]
  handle-IsFirst Kind.est1 sender v r s ss =
      on_est-IsFirst f Values.est Sends.est Bins.bin (new_est1_message round v r curve)
        (λ x. new_aux1_message round x r curve) sender v r s (λ t. tt) (λ t x h. h)
  handle-IsFirst Kind.est2 sender v r s ss =
      on_est-IsFirst f Values.est2 Sends.est2 Bins.bin2 (new_est2_message round v r curve)
        (λ x. new_aux2_message round x r curve) sender v r s (λ t. tt) (λ t x h. h)
  handle-IsFirst Kind.aux1 sender v r s ss =
      elim (Bool-cases (contains (values Values.aux r v s) sender)) [
        | inl seen ↦ rw (on_aux1, seen) tt
        | inr fresh ↦
            let s1 = set_values Values.aux r v sender s in
            rw (on_aux1, fresh)
              (send_chosen-IsFirst Sends.auxset (λ x. new_auxset_message round x r curve) r
                (auxset_value n f r s1) s1 (λ t x. tt))
      ]
  handle-IsFirst Kind.auxset sender v r s ss =
      elim (Bool-cases (contains (values Values.auxset r v s) sender)) [
        | inl seen ↦ rw (on_auxset, seen) tt
        | inr fresh ↦
            let s1 = set_values Values.auxset r v sender s in
            rw (on_auxset, fresh)
              (send_chosen-IsFirst Sends.est2 (λ x. new_est2_message round x r curve) r
                (est2_value n f r s1) s1 (λ t x. tt))
      ]
  handle-IsFirst Kind.aux2 sender v r s ss =
      elim (Bool-cases (contains (values Values.aux2 r v s) sender)) [
        | inl seen ↦ rw (on_aux2, seen) tt
        | inr fresh ↦
            let s1 = set_values Values.aux2 r v sender s in
            rw (on_aux2, fresh)
              (conclude-All (get_round s1) (IsFirst s1) (λ m _. tt) n round curve r s1
                (values2 n f r s1) ss refl)
      ]

  run-Extends :
      (s : AbaState Point) (ss : StoreMap Session) (inputs : List Input)
      → Extends s (run n f round curve s ss inputs).0
  unfolding run
  run-Extends s ss [] b q x h = h
  run-Extends s ss (i ∷ inputs) b q x h =
      let w = handle n f round curve i.kind i.sender i.v i.r s ss in
      run-Extends w.0 w.1 inputs b q x (handle-Extends i.kind i.sender i.v i.r s ss b q x h)

  -- Whatever messages an agreement gets: every aux message that the node broadcasts for a round, in
  -- either phase, carries the first value of that round's bin at the end, so all of them carry the same.
  pub aux_uniform :
      (s : AbaState Point) (ss : StoreMap Session) (inputs : List Input)
      → let w = run n f round curve s ss inputs in All (IsFirst w.0) w.2
  unfolding run
  aux_uniform s ss [] = tt
  aux_uniform s ss (i ∷ inputs) =
      let x = handle n f round curve i.kind i.sender i.v i.r s ss in
      let rest = run n f round curve x.0 x.1 inputs in
      All-append (IsFirst rest.0) x.2 rest.2
        (All-Extends x.0 rest.0 x.2 (run-Extends x.0 x.1 inputs)
          (handle-IsFirst i.kind i.sender i.v i.r s ss))
        (aux_uniform x.0 x.1 inputs)
