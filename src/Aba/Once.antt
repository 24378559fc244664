-- ===== src/Aba/Once.antt =====
-- A node announces each estimate at most once, and one set of values in each round.
use adkg.Base.{
  ℕ, zero, suc, ◌+◌, ◌*◌, ◌≤◌, ◌≡◌, refl, Bool, true, false, ◌&&◌, not, Option, none, some, List,
  [], ◌∷◌, ◌++◌, arith, nat_beq, leb, contains, length, if◌then◌else◌, Bool-cases, Option-cases,
  inl, inr, ap, ◌∙◌, get_elem?, pos, ℤ, int_eq, text_eq, text_eq,
}
use adkg.Base.Maps.{lookup, insert}
use adkg.Messages.{Text, Message, Effect, broadcast}
use adkg.Session.{Session}
use adkg.Stores.{StoreMap}
use adkg.Aba.{
  on_init, on_est, on_est1, on_est2, on_aux1, on_auxset, relay, fill_bin, send_chosen, auxset_value,
  est2_value, announce_bin, new_est1_message, new_est2_message, new_auxset_message,
  new_aux1_message, new_aux2_message,
}
use adkg.Aba.Decision.{on_aux2, values2}
use adkg.Aba.Laws.{
  same_flag, same_flag-sent, sent-set_values, sent-set_bin, sent-set_started, sent-set_sent,
}
use adkg.Aba.Run.{Kind, Input, handle, run}
use adkg.Aba.State.{
  AbaState, Values, Sends, Bins, default_aba_store, values, set_values, sent, set_sent, get_bin,
  set_bin, set_started, get_started, entry,
}
use adkg.Aba.Silent.{is_for, one_if, count_for, count-append, count-conclude}

-- The flag of each kind of broadcast
module _ (b : Sends) (q w : ℕ) (round curve : Text) (v r : ℕ) where
  est1_flag :
      is_for b q w (broadcast (new_est1_message round v r curve)) ≡ same_flag Sends.est r v b q w
  unfolding is_for same_flag
  est1_flag = ground arith

  est2_flag :
      is_for b q w (broadcast (new_est2_message round v r curve)) ≡ same_flag Sends.est2 r v b q w
  unfolding is_for same_flag
  est2_flag = ground arith

  auxset_flag :
      is_for b q w (broadcast (new_auxset_message round v r curve))
      ≡ same_flag Sends.auxset r v b q w
  unfolding is_for same_flag
  auxset_flag = ground arith

  aux1_flag : is_for b q w (broadcast (new_aux1_message round v r curve)) ≡ false
  unfolding is_for
  aux1_flag = ground arith

  aux2_flag : is_for b q w (broadcast (new_aux2_message round v r curve)) ≡ false
  unfolding is_for
  aux2_flag = ground arith

-- The broadcasts that a flag stands for are those that raise it.
module _ {Point : Type 0} (b : Sends) (q w : ℕ) where
  abbrev Settles : AbaState Point → List Effect → AbaState Point → Type 0
  Settles s out t = count_for b q w out + one_if (sent b q w s) ≡ one_if (sent b q w t)

  -- Raising a flag that was down, with its broadcast
  raise-Settles :
      (flag : Sends) (r x : ℕ) (m : Message) (s : AbaState Point)
      → is_for b q w (broadcast m) ≡ same_flag flag r x b q w
      → sent flag r x s ≡ false
      → Settles s (broadcast m ∷ []) (set_sent flag r x s)
  unfolding count_for
  raise-Settles flag r x m s h down = elim (Bool-cases (same_flag flag r x b q w)) [
    | inl same ↦
        ground (arith, same, sent-set_sent b flag r x q w s, same_flag-sent flag b r x q w s same)
    | inr other ↦ ground (arith, other, sent-set_sent b flag r x q w s)
  ]

  send_chosen-Settles :
      (flag : Sends) (nm : ℕ → Message) (r : ℕ) (o : Option ℕ) (s : AbaState Point)
      → ((x : ℕ) → is_for b q w (broadcast (nm x)) ≡ same_flag flag r x b q w)
      → Settles s (send_chosen flag nm r o s).1 (send_chosen flag nm r o s).0
  unfolding send_chosen count_for
  send_chosen-Settles flag nm r none s h = omega arith
  send_chosen-Settles flag nm r (some x) s h = elim (Bool-cases (sent flag r x s)) [
    | inl up ↦ rw (send_chosen, up) (omega arith)
    | inr down ↦ rw (send_chosen, down) (raise-Settles flag r x (nm x) s (h x) down)
  ]

  relay-Settles :
      (f : ℕ) (j : Values) (flag : Sends) (ne : Message) (v r : ℕ) (s : AbaState Point)
      → is_for b q w (broadcast ne) ≡ same_flag flag r v b q w
      → Settles s (relay f j flag ne v r s).1 (relay f j flag ne v r s).0
  unfolding relay count_for
  relay-Settles f j flag ne v r s h =
      elim (Bool-cases (leb (f + 1) (length (values j r v s)) && not (sent flag r v s))) [
        | inl due ↦ rw (relay, due) (raise-Settles flag r v ne s h (ground arith))
        | inr not_due ↦ rw (relay, not_due) (omega arith)
      ]

  fill_bin-silent :
      (f : ℕ) (j : Values) (c : Bins) (na : ℕ → Message) (v r : ℕ) (s : AbaState Point)
      → ((x : ℕ) → is_for b q w (broadcast (na x)) ≡ false)
      → Settles s (fill_bin f j c na v r s).1 (fill_bin f j c na v r s).0
  unfolding fill_bin announce_bin count_for
  fill_bin-silent f j c na v r s h =
      elim (Bool-cases (nat_beq (length (values j r v s)) (2 * f + 1))) [
        | inl full ↦ elim (Option-cases (get_elem? (get_bin c r (set_bin c r v s)) 0)) [
          | inl empty ↦
              rw (fill_bin, full, announce_bin, empty) (ground (arith, sent-set_bin b c r v q w s))
          | inr (x, e) ↦
              rw (fill_bin, full, announce_bin, e) (ground (arith, h x, sent-set_bin b c r v q w s))
        ]
        | inr more ↦ rw (fill_bin, more) (omega arith)
      ]

  on_est-Settles :
      (f : ℕ) (j : Values) (flag : Sends) (c : Bins) (ne : Message) (na : ℕ → Message)
      (sender v r : ℕ) (s : AbaState Point)
      → is_for b q w (broadcast ne) ≡ same_flag flag r v b q w
      → ((x : ℕ) → is_for b q w (broadcast (na x)) ≡ false)
      → Settles s (on_est f j flag c ne na sender v r s).1 (on_est f j flag c ne na sender v r s).0
  unfolding on_est count_for
  on_est-Settles f j flag c ne na sender v r s he ha =
      let s1 = set_values j r v sender s in
      let relayed = relay f j flag ne v r s1 in
      elim (Bool-cases (contains (values j r v s) sender)) [
        | inl seen ↦ rw (on_est, seen) (omega arith)
        | inr fresh ↦
            rw (on_est, fresh, count-append b q w relayed.1 (fill_bin f j c na v r relayed.0).1)
              (ground (
                arith,
                sent-set_values b j r v sender q w s,
                relay-Settles f j flag ne v r s1 he,
                fill_bin-silent f j c na v r relayed.0 ha,
              ))
      ]

module _ {Point : Type 0} (n f : ℕ) (round curve : Text) (b : Sends) (q w : ℕ) where
  init-Settles :
      (v r : ℕ) (s : AbaState Point)
      → Settles b q w s (on_init round curve v r s).1 (on_init round curve v r s).0
  unfolding on_init count_for is_for same_flag
  init-Settles v r s = elim (Bool-cases (get_started r s)) [
    | inl old ↦ rw (on_init, old) (omega arith)
    | inr new ↦ elim (Bool-cases (sent Sends.est r v s)) [
      | inl up ↦ rw (on_init, new, up) (ground (arith, sent-set_started b r q w s))
      | inr down ↦
          let t = set_started r s in
          rw (on_init, new, down)
            (ground (
              arith,
              sent-set_started b r q w s,
              raise-Settles b q w Sends.est r v (new_est1_message round v r curve) t
                  (est1_flag b q w round curve v r) (sent-set_started Sends.est r r v s ∙ down),
            ))
    ]
  ]

  handle-Settles :
      (k : Kind) (sender v r : ℕ) (s : AbaState Point) (ss : StoreMap Session)
      → Settles b q w s
          (handle n f round curve k sender v r s ss).2
          (handle n f round curve k sender v r s ss).0
  unfolding handle on_est1 on_est2 on_aux1 on_auxset on_aux2 count_for
  handle-Settles Kind.init sender v r s ss = init-Settles v r s
  handle-Settles Kind.est1 sender v r s ss =
      on_est-Settles b q w f Values.est Sends.est Bins.bin _ _ sender v r s
        (est1_flag b q w round curve v r) (λ x. aux1_flag b q w round curve x r)
  handle-Settles Kind.est2 sender v r s ss =
      on_est-Settles b q w f Values.est2 Sends.est2 Bins.bin2 _ _ sender v r s
        (est2_flag b q w round curve v r) (λ x. aux2_flag b q w round curve x r)
  handle-Settles Kind.aux1 sender v r s ss =
      elim (Bool-cases (contains (values Values.aux r v s) sender)) [
        | inl seen ↦ rw seen (omega arith)
        | inr fresh ↦
            let s1 = set_values Values.aux r v sender s in
            rw fresh (
              rw (← sent-set_values b Values.aux r v sender q w s) (
                send_chosen-Settles b q w Sends.auxset _ r (auxset_value n f r s1) s1
                  (λ x. auxset_flag b q w round curve x r)))
      ]
  handle-Settles Kind.auxset sender v r s ss =
      elim (Bool-cases (contains (values Values.auxset r v s) sender)) [
        | inl seen ↦ rw seen (omega arith)
        | inr fresh ↦
            let s1 = set_values Values.auxset r v sender s in
            rw fresh (
              rw (← sent-set_values b Values.auxset r v sender q w s) (
                send_chosen-Settles b q w Sends.est2 _ r (est2_value n f r s1) s1
                  (λ x. est2_flag b q w round curve x r)))
      ]
  handle-Settles Kind.aux2 sender v r s ss =
      elim (Bool-cases (contains (values Values.aux2 r v s) sender)) [
        | inl seen ↦ rw seen (omega arith)
        | inr fresh ↦
            let s1 = set_values Values.aux2 r v sender s in
            rw (fresh, count-conclude b q w n round curve r s1 (values2 n f r s1) ss)
              (ground (arith, sent-set_values b Values.aux2 r v sender q w s))
      ]

  run-Settles :
      (s : AbaState Point) (ss : StoreMap Session) (inputs : List Input)
      → Settles b q w s (run n f round curve s ss inputs).2 (run n f round curve s ss inputs).0
  unfolding run count_for
  run-Settles s ss [] = omega arith
  run-Settles s ss (i ∷ inputs) =
      let x = handle n f round curve i.kind i.sender i.v i.r s ss in
      let rest = run n f round curve x.0 x.1 inputs in
      rw (count-append b q w x.2 rest.2)
        (omega (arith, handle-Settles i.kind i.sender i.v i.r s ss, run-Settles x.0 x.1 inputs))

-- Whatever messages an agreement gets, a node broadcasts each estimate of a round and value, of either
-- phase, at most once, and in each round at most one set of values: once if the flag is up in the end.
pub announces_at_most_once :
    (Point : Type 0) (n f : ℕ) (round curve : Text) (ss : StoreMap Session) (inputs : List Input)
    (b : Sends) (q w : ℕ)
    → let x = run n f round curve (default_aba_store Point) ss inputs in
      (count_for b q w x.2 ≤ 1) × (count_for b q w x.2 ≡ one_if (sent b q w x.0))
unfolding sent entry adkg.Base.Maps.get_or
announces_at_most_once Point n f round curve ss inputs b q w =
    let fresh : sent b q w (default_aba_store Point) ≡ false = ground arith in
    ground (arith, fresh, run-Settles n f round curve b q w (default_aba_store Point) ss inputs)
