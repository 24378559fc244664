-- ===== src/Aba/Counter.antt =====
-- The counter of rounds: `IncrementRound` has no caller, so an agreement asks for no round after 1.
use adkg.Base.{ℕ, ◌≡◌, ◌∙◌, List, [], ◌∷◌, arith, contains, Bool-cases, inl, inr, All, All-append}
use adkg.Messages.{Text, Message, Effect}
use adkg.Session.{Session}
use adkg.Stores.{StoreMap}
use adkg.Aba.{
  on_init, on_est, on_est1, on_est2, on_aux1, on_auxset, relay, fill_bin, send_chosen, announce_bin,
}
use adkg.Aba.Decision.{on_aux2, values2}
use adkg.Aba.Run.{Kind, Input, handle, run}
use adkg.Aba.Silent.{Starts, conclude-All}
use adkg.Aba.State.{
  AbaState, Values, get_round, set_values, with_values, set_sent, set_bin, set_started, values,
}

-- What the node does to itself names the round 0 or 1 in an init message.
unfoldable pub IsEarly : Effect → Type 0
IsEarly (Effect.receive m) = Starts 0 m
IsEarly (Effect.broadcast (Message.aba_init _ _ _ _)) = ⊥
IsEarly _ = Unit {0}

module _ {Point : Type 0} (n f : ℕ) (round curve : Text) where
  handle-get_round :
      (k : Kind) (sender v r : ℕ) (s : AbaState Point) (ss : StoreMap Session)
      → get_round (handle n f round curve k sender v r s ss).0 ≡ get_round s
  unfolding handle on_init on_est on_est1 on_est2 on_aux1 on_auxset on_aux2 relay fill_bin
      send_chosen set_values with_values set_sent set_bin set_started
  handle-get_round k sender v r s ss = ground arith

  get_round-set_values :
      (j : Values) (r v node : ℕ) (s : AbaState Point)
      → get_round (set_values j r v node s) ≡ get_round s
  unfolding set_values with_values
  get_round-set_values j r v node s = ground arith

  handle-IsEarly :
      (k : Kind) (sender v r : ℕ) (s : AbaState Point) (ss : StoreMap Session)
      → get_round s ≡ 0
      → All IsEarly (handle n f round curve k sender v r s ss).2
  unfolding handle on_init on_est on_est1 on_est2 on_aux1 on_auxset on_aux2 relay fill_bin
      announce_bin send_chosen IsEarly
  handle-IsEarly Kind.init sender v r s ss h = ground arith
  handle-IsEarly Kind.est1 sender v r s ss h = ground arith
  handle-IsEarly Kind.est2 sender v r s ss h = ground arith
  handle-IsEarly Kind.aux1 sender v r s ss h = ground arith
  handle-IsEarly Kind.auxset sender v r s ss h = ground arith
  handle-IsEarly Kind.aux2 sender v r s ss h =
      elim (Bool-cases (contains (values Values.aux2 r v s) sender)) [
        | inl seen ↦ rw (on_aux2, seen) tt
        | inr fresh ↦
            let s1 = set_values Values.aux2 r v sender s in
            rw (on_aux2, fresh)
              (conclude-All 0 IsEarly (λ m x. x) n round curve r s1 (values2 n f r s1) ss
                (get_round-set_values Values.aux2 r v sender s ∙ h))
      ]

  -- While the counter is at 0 it stays there, whatever messages an agreement gets, and every init message
  -- that comes of them names the round 0 or 1: an undecided round 1 is followed by round 1 again, which
  -- has started, and not by a round 2.
  pub rounds_stop :
      (s : AbaState Point) (ss : StoreMap Session) (inputs : List Input)
      → get_round s ≡ 0
      → let x = run n f round curve s ss inputs in (get_round x.0 ≡ 0) × All IsEarly x.2
  unfolding run
  rounds_stop s ss [] h = (h, tt)
  rounds_stop s ss (i ∷ inputs) h =
      let x = handle n f round curve i.kind i.sender i.v i.r s ss in
      let kept = handle-get_round i.kind i.sender i.v i.r s ss ∙ h in
      let rest = rounds_stop x.0 x.1 inputs kept in
      (
        rest.0,
        All-append IsEarly x.2 (run n f round curve x.0 x.1 inputs).2
            (handle-IsEarly i.kind i.sender i.v i.r s ss h) rest.1,
      )
