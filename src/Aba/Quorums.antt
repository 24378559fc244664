-- ===== src/Aba/Quorums.antt =====
-- Every value in a bin has its quorum of distinct voters, after any messages.
use adkg.Base.{ℕ, refl, List, [], ◌∷◌, arith, contains, Bool-cases, inl, inr}
use adkg.Messages.{Text}
use adkg.Session.{Session}
use adkg.Stores.{StoreMap}
use adkg.Aba.{on_init, on_est1, on_est2, on_aux1, on_auxset}
use adkg.Aba.Decision.{on_aux2}
use adkg.Aba.Laws.{
  same_values, same_bin, values-set_sent, values-set_started, get_bin-set_sent, get_bin-set_started,
}
use adkg.Aba.Run.{Kind, Input, handle, run}
use adkg.Aba.Tally.{
  IsTallied, IsCounted, carry, on_est-IsTallied, other_est-IsTallied, chosen-IsTallied,
  kept-IsTallied,
}
use adkg.Aba.State.{
  AbaState, Values, Sends, Bins, default_aba_store, values, get_bin, set_started, entry,
  values_table,
}

module _ {Point : Type 0} (n f : ℕ) (round curve : Text) where
  init-IsTallied :
      (k : Values) (b : Bins) (v r : ℕ) (s : AbaState Point)
      → IsTallied f k b s
      → IsTallied f k b (on_init round curve v r s).0
  unfolding on_init
  init-IsTallied k b v r s =
      carry f k b s _
        (λ q w. ground (
          arith,
          values-set_started k r q w s,
          values-set_sent k Sends.est r v q w (set_started r s),
        ))
        (λ q. ground (
          arith,
          get_bin-set_started b r q s,
          get_bin-set_sent b Sends.est r v q (set_started r s),
        ))

  est1-IsCounted :
      (sender v r : ℕ) (s : AbaState Point)
      → IsCounted f s
      → IsCounted f (on_est1 f sender round curve v r s).0
  unfolding on_est1 same_values same_bin
  est1-IsCounted sender v r s h = (
    on_est-IsTallied f Values.est Bins.bin _ _ _ sender v r s h.0,
    other_est-IsTallied f Values.est2 Bins.bin2 Values.est Bins.bin _ _ _ sender v r s refl refl
        h.1,
  )

  est2-IsCounted :
      (sender v r : ℕ) (s : AbaState Point)
      → IsCounted f s
      → IsCounted f (on_est2 f sender round curve v r s).0
  unfolding on_est2 same_values same_bin
  est2-IsCounted sender v r s h = (
    other_est-IsTallied f Values.est Bins.bin Values.est2 Bins.bin2 _ _ _ sender v r s refl refl
        h.0,
    on_est-IsTallied f Values.est2 Bins.bin2 _ _ _ sender v r s h.1,
  )

  aux1-IsCounted :
      (sender v r : ℕ) (s : AbaState Point)
      → IsCounted f s
      → IsCounted f (on_aux1 n f sender round curve v r s).0
  unfolding on_aux1 same_values
  aux1-IsCounted sender v r s h = elim (Bool-cases (contains (values Values.aux r v s) sender)) [
    | inl seen ↦ rw seen h
    | inr fresh ↦ rw fresh (
      chosen-IsTallied f Values.est Bins.bin Values.aux _ _ _ sender v r s refl h.0,
      chosen-IsTallied f Values.est2 Bins.bin2 Values.aux _ _ _ sender v r s refl h.1,
    )
  ]

  auxset-IsCounted :
      (sender v r : ℕ) (s : AbaState Point)
      → IsCounted f s
      → IsCounted f (on_auxset n f sender round curve v r s).0
  unfolding on_auxset same_values
  auxset-IsCounted sender v r s h =
      elim (Bool-cases (contains (values Values.auxset r v s) sender)) [
        | inl seen ↦ rw seen h
        | inr fresh ↦ rw fresh (
          chosen-IsTallied f Values.est Bins.bin Values.auxset _ _ _ sender v r s refl h.0,
          chosen-IsTallied f Values.est2 Bins.bin2 Values.auxset _ _ _ sender v r s refl h.1,
        )
      ]

  aux2-IsCounted :
      (sender v r : ℕ) (s : AbaState Point) (ss : StoreMap Session)
      → IsCounted f s
      → IsCounted f (on_aux2 n f sender round curve v r s ss).0
  unfolding on_aux2 same_values
  aux2-IsCounted sender v r s ss h =
      elim (Bool-cases (contains (values Values.aux2 r v s) sender)) [
        | inl seen ↦ rw seen h
        | inr fresh ↦ rw fresh (
          kept-IsTallied f Values.est Bins.bin Values.aux2 sender v r s refl h.0,
          kept-IsTallied f Values.est2 Bins.bin2 Values.aux2 sender v r s refl h.1,
        )
      ]

  handle-IsCounted :
      (k : Kind) (sender v r : ℕ) (s : AbaState Point) (ss : StoreMap Session)
      → IsCounted f s
      → IsCounted f (handle n f round curve k sender v r s ss).0
  unfolding handle
  handle-IsCounted Kind.init sender v r s ss h =
      (init-IsTallied Values.est Bins.bin v r s h.0, init-IsTallied Values.est2 Bins.bin2 v r s h.1)
  handle-IsCounted Kind.est1 sender v r s ss h = est1-IsCounted sender v r s h
  handle-IsCounted Kind.aux1 sender v r s ss h = aux1-IsCounted sender v r s h
  handle-IsCounted Kind.auxset sender v r s ss h = auxset-IsCounted sender v r s h
  handle-IsCounted Kind.est2 sender v r s ss h = est2-IsCounted sender v r s h
  handle-IsCounted Kind.aux2 sender v r s ss h = aux2-IsCounted sender v r s ss h

  run-IsCounted :
      (s : AbaState Point) (ss : StoreMap Session) (inputs : List Input)
      → IsCounted f s
      → IsCounted f (run n f round curve s ss inputs).0
  unfolding run
  run-IsCounted s ss [] h = h
  run-IsCounted s ss (i ∷ inputs) h =
      let w = handle n f round curve i.kind i.sender i.v i.r s ss in
      run-IsCounted w.0 w.1 inputs (handle-IsCounted i.kind i.sender i.v i.r s ss h)

new-IsCounted : (Point : Type 0) (f : ℕ) → IsCounted f (default_aba_store Point)
unfolding values values_table entry get_bin adkg.Base.Maps.get_or
new-IsCounted Point f = (
  (λ r v. (tt, ((λ h. absurd (ground arith)), λ h. absurd (omega arith)))),
  λ r v. (tt, ((λ h. absurd (ground arith)), λ h. absurd (omega arith))),
)

-- After any messages of an agreement, in both of its phases and in each round: no node's estimate is
-- counted twice for a value, and the bin holds a value exactly when `2f + 1` distinct nodes sent it as
-- their estimate.
pub bins_quorum :
    (Point : Type 0) (n f : ℕ) (round curve : Text) (ss : StoreMap Session) (inputs : List Input)
    → IsCounted f (run n f round curve (default_aba_store Point) ss inputs).0
bins_quorum Point n f round curve ss inputs =
    run-IsCounted n f round curve (default_aba_store Point) ss inputs (new-IsCounted Point f)
