-- ===== src/Aba/Tally.antt =====
-- The bins of an agreement hold just the values that enough distinct nodes sent.
use adkg.Base.{
  ℕ, ◌+◌, ◌*◌, ◌≤◌, ◌≡◌, ◌↔◌, true, false, ◌&&◌, Option, List, [], ◌∷◌, ◌++◌, arith, nat_beq,
  contains, length, if◌then◌else◌, Bool-cases, inl, inr, ap, ◌∙◌, length-append,
}
use adkg.Base.Distinct.{Distinct, contains-snoc, Distinct-snoc}
use adkg.Messages.{Message}
use adkg.Aba.{on_est, send_chosen}
use adkg.Aba.Laws.{
  same_values, same_values_self, same_bin_self, same_bin, values-set_values, get_bin-set_values,
  get_bin-set_bin,
}
use adkg.Aba.Frames.{values-on_est, get_bin-on_est, values-send_chosen, get_bin-send_chosen}
use adkg.Aba.State.{AbaState, Values, Sends, Bins, values, set_values, get_bin, set_bin}

module _ {Point : Type 0} (f : ℕ) (k : Values) (b : Bins) where
  -- In each round the votes for a value come from distinct nodes, and the bin holds a value exactly when
  -- it has `2f + 1` of them.
  abbrev pub IsTalliedAt : ℕ → ℕ → AbaState Point → Type 0
  IsTalliedAt r v s =
      Distinct (values k r v s)
      × ((contains (get_bin b r s) v ≡ true) ↔ (2 * f + 1 ≤ length (values k r v s)))

  abbrev pub IsTallied : AbaState Point → Type 0
  IsTallied s = (r v : ℕ) → IsTalliedAt r v s

  pub carry :
      (s t : AbaState Point)
      → ((r v : ℕ) → values k r v t ≡ values k r v s)
      → ((r : ℕ) → get_bin b r t ≡ get_bin b r s)
      → IsTallied s
      → IsTallied t
  carry s t ev eb h r v = rw (ev r v, eb r) (h r v)

  -- A fresh vote for `v` in the round `r`, seen from any value and round
  counted :
      (sender v r : ℕ) (s : AbaState Point) (q w : ℕ)
      → contains (values k r v s) sender ≡ false
      → IsTalliedAt q w s
      → let s1 = set_values k r v sender s in
        let bin1 =
          if nat_beq (length (values k r v s1)) (2 * f + 1)
          then get_bin b q (set_bin b r v s)
          else get_bin b q s in
        Distinct (values k q w s1)
        × ((contains bin1 w ≡ true) ↔ (2 * f + 1 ≤ length (values k q w s1)))
  counted sender v r s q w fresh h =
      let xs = values k r v s in
      let put : values k r v (set_values k r v sender s) ≡ xs ++ sender ∷ [] =
        ground (arith, values-set_values k k r v sender r v s, same_values_self k) in
      let size = length-append xs (sender ∷ []) in
      elim (Bool-cases (nat_beq r q && nat_beq v w)) [
        | inl here ↦
            let e : (r ≡ q) × (v ≡ w) = ground arith in
            let same = ap (λ i. values k i v s) e.0 ∙ ap (λ i. values k q i s) e.1 in
            rw
              (
                values-set_values k k r v sender q w s,
                same_values_self k,
                here,
                put,
                size,
                get_bin-set_bin b b r v q s,
              )
              (let fresh2 : contains (values k q w s) sender ≡ false = rw (← same) fresh in
                let grown = contains-snoc (get_bin b q s) v w in
                let more = length-append (values k q w s) (sender ∷ []) in
                (
                  Distinct-snoc (values k q w s) sender fresh2 h.0,
                  ground (
                    arith,
                    ap (λ (l : List ℕ). length l) same,
                    grown,
                    more,
                    same_bin_self b,
                    h.1,
                  ),
                ))
        | inr there ↦
            rw
              (
                values-set_values k k r v sender q w s,
                same_values_self k,
                there,
                put,
                size,
                get_bin-set_bin b b r v q s,
              )
              (h.0, ground (arith, contains-snoc (get_bin b q s) v w, same_bin_self b, h.1))
      ]

  pub on_est-IsTallied :
      (flag : Sends) (ne : Message) (na : ℕ → Message) (sender v r : ℕ) (s : AbaState Point)
      → IsTallied s
      → IsTallied (on_est f k flag b ne na sender v r s).0
  on_est-IsTallied flag ne na sender v r s h q w =
      rw
        (
          values-on_est f k k flag b ne na sender v r q w s,
          get_bin-on_est f k flag b b ne na sender v r q s,
        )
        (elim (Bool-cases (contains (values k r v s) sender)) [
          | inl seen ↦ rw seen (h q w)
          | inr fresh ↦ rw fresh (counted sender v r s q w fresh (h q w))
        ])

  pub other_est-IsTallied :
      (j : Values) (c : Bins) (flag : Sends) (ne : Message) (na : ℕ → Message) (sender v r : ℕ)
      (s : AbaState Point)
      → same_values j k ≡ false
      → same_bin c b ≡ false
      → IsTallied s
      → IsTallied (on_est f j flag c ne na sender v r s).0
  other_est-IsTallied j c flag ne na sender v r s ej ec h =
      carry s _
        (λ q w. ground (
          arith,
          values-on_est f j k flag c ne na sender v r q w s,
          values-set_values k j r v sender q w s,
        ))
        (λ q.
          ground
            (arith, get_bin-on_est f j flag b c ne na sender v r q s, get_bin-set_bin b c r v q s))
        h

  pub chosen-IsTallied :
      (j : Values) (flag : Sends) (nm : ℕ → Message) (o : Option ℕ) (sender v r : ℕ)
      (s : AbaState Point)
      → same_values j k ≡ false
      → IsTallied s
      → IsTallied (send_chosen flag nm r o (set_values j r v sender s)).0
  chosen-IsTallied j flag nm o sender v r s ej h =
      let s1 = set_values j r v sender s in
      carry s _
        (λ q w.
          ground (
            arith,
            values-send_chosen k flag nm r q w o s1,
            values-set_values k j r v sender q w s,
          ))
        (λ q.
          ground
            (arith, get_bin-send_chosen b flag nm r q o s1, get_bin-set_values b j r v sender q s))
        h

  pub kept-IsTallied :
      (j : Values) (sender v r : ℕ) (s : AbaState Point)
      → same_values j k ≡ false
      → IsTallied s
      → IsTallied (set_values j r v sender s)
  kept-IsTallied j sender v r s ej h =
      carry s _ (λ q w. ground (arith, values-set_values k j r v sender q w s))
        (λ q. get_bin-set_values b j r v sender q s) h

-- The tallies of both phases
abbrev pub IsCounted : {Point : Type 0} → (f : ℕ) → AbaState Point → Type 0
IsCounted f s = IsTallied f Values.est Bins.bin s × IsTallied f Values.est2 Bins.bin2 s
