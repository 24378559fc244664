-- ===== src/Aba/Frames.antt =====
-- What the handlers of an agreement leave of the votes and of the bins.
use adkg.Base.{
  ℕ, ◌+◌, ◌*◌, ◌≡◌, refl, Option, none, some, arith, nat_beq, contains, length, if◌then◌else◌,
}
use adkg.Messages.{Message}
use adkg.Aba.{on_est, relay, fill_bin, send_chosen}
use adkg.Aba.Laws.{
  values-set_sent, values-set_bin, get_bin-set_values, get_bin-set_sent, get_bin-set_bin,
}
use adkg.Aba.State.{AbaState, Values, Sends, Bins, values, set_values, set_sent, get_bin, set_bin}

module _ {Point : Type 0} where
  pub values-on_est :
      (f : ℕ) (j k : Values) (flag : Sends) (c : Bins) (ne : Message) (na : ℕ → Message)
      (sender v r q w : ℕ) (s : AbaState Point)
      → values k q w (on_est f j flag c ne na sender v r s).0 ≡ (
          if contains (values j r v s) sender
          then values k q w s
          else values k q w (set_values j r v sender s))
  unfolding on_est relay fill_bin
  values-on_est f j k flag c ne na sender v r q w s =
      let s1 = set_values j r v sender s in
      ground (
        arith,
        values-set_sent k flag r v q w s1,
        values-set_bin k c r v q w s1,
        values-set_bin k c r v q w (set_sent flag r v s1),
      )

  pub get_bin-on_est :
      (f : ℕ) (j : Values) (flag : Sends) (b c : Bins) (ne : Message) (na : ℕ → Message)
      (sender v r q : ℕ) (s : AbaState Point)
      → get_bin b q (on_est f j flag c ne na sender v r s).0 ≡ (
          if contains (values j r v s) sender
          then get_bin b q s
          else if nat_beq (length (values j r v (set_values j r v sender s))) (2 * f + 1)
          then get_bin b q (set_bin c r v s)
          else get_bin b q s)
  unfolding on_est relay fill_bin
  get_bin-on_est f j flag b c ne na sender v r q s =
      let s1 = set_values j r v sender s in
      let s2 = set_sent flag r v s1 in
      ground (
        arith,
        values-set_sent j flag r v r v s1,
        get_bin-set_values b j r v sender q s,
        get_bin-set_sent b flag r v q s1,
        get_bin-set_bin b c r v q s,
        get_bin-set_bin b c r v q s1,
        get_bin-set_bin b c r v q s2,
      )

  pub values-send_chosen :
      (k : Values) (flag : Sends) (nm : ℕ → Message) (r q w : ℕ) (o : Option ℕ) (s : AbaState Point)
      → values k q w (send_chosen flag nm r o s).0 ≡ values k q w s
  unfolding send_chosen
  values-send_chosen k flag nm r q w none s = refl
  values-send_chosen k flag nm r q w (some x) s = ground (arith, values-set_sent k flag r x q w s)

  pub get_bin-send_chosen :
      (b : Bins) (flag : Sends) (nm : ℕ → Message) (r q : ℕ) (o : Option ℕ) (s : AbaState Point)
      → get_bin b q (send_chosen flag nm r o s).0 ≡ get_bin b q s
  unfolding send_chosen
  get_bin-send_chosen b flag nm r q none s = refl
  get_bin-send_chosen b flag nm r q (some x) s = ground (arith, get_bin-set_sent b flag r x q s)
