-- ===== src/Coin/Counted.antt =====
-- The share of a coin that a node sends counts at every node with the dealers' commitments.
use adkg.Base.{
  drop, ◌%◌, ℕ, ◌+◌, ◌<◌, ◌≡◌, refl, ap, ℤ, true, ◌&&◌, Option, none, some, List, [], ◌∷◌, All,
  length, map, int_eq, nat_eq, nat_beq, Bool-cases, Option-cases, List-cases, inl, inr, ◌⊎◌, arith,
}
use adkg.Base.Maps.{lookup}
use adkg.Messages.{Text, Effect}
use adkg.Rounds.{secp256k1}
use adkg.Aba.State.{AbaState, set_coin_share}
use adkg.Aba.Decision.{decide}
use adkg.Curve.{Curve, IsLawful}
use adkg.Coin.{Unpack, done, unpack, verify}
use adkg.Coin.Acceptance.{coin_accepted}
use adkg.Coin.Handlers.{
  Player, leader_dealers, on_coin_init, coin_value, toss, on_coin, is_undecided, first_of, last_bit,
}
use adkg.KeyDerivation.Keys.{KeySession, derive_public_key, sum_shares, lagrange_coeffs}
use adkg.KeyDerivation.Acceptance.{IsDealt, derive_public_key_lem}

pub honest_coin_counted :
    (c : Curve) (law : IsLawful c 33) (p : Player c) (round : Text) (leader : ℤ) (sender : ℕ)
    (sent ss : KeySession c) (s : AbaState c.Point) (g_tilde : c.Point) (r : c.Scalar) (j : ℕ)
    (t : List ℕ)
    → leader_dealers c p leader sent.session ≡ j ∷ t
    → leader_dealers c p leader ss.session ≡ j ∷ t
    → All (IsDealt c secp256k1 law p.g p.k sender sent.shares ss.commitments) (j ∷ t)
    → let z = sum_shares c sent.shares c.zero_scalar (j ∷ t) in
      (u : Unpack c) × (unpack c (on_coin_init c p leader g_tilde r sent) ≡ done u)
      × (on_coin c p round secp256k1 leader g_tilde sender u s ss
          ≡ toss c p round secp256k1 leader (set_coin_share sender (c.mul g_tilde z) s) ss)
unfolding on_coin_init on_coin
honest_coin_counted c law p round leader sender sent ss s g_tilde r j t own same dealt =
    let z = sum_shares c sent.shares c.zero_scalar (j ∷ t) in
    let (u, opened, share, verified) = coin_accepted c law p.sha256 p.g g_tilde z r in
    let key =
      derive_public_key_lem c secp256k1 law p.g p.k sender sent.shares ss.commitments j t dealt in
    (
      u,
      rw (on_coin_init, own) opened,
      rw (on_coin, same, key, verified)
          (ap (λ q. toss c p round secp256k1 leader (set_coin_share sender q s) ss) share),
    )

last_bit-lt-two : (t : Text) → last_bit t < 2
unfolding last_bit
last_bit-lt-two t = go (drop 31 t)
  where
    go : (l : Text) → (elim l [ [] ↦ 0 | b ∷ _ ↦ b % 2 ]) < 2
    go [] = omega arith
    go (b ∷ l) = omega arith

undecided_lem : (o : Option ℕ) → is_undecided o ≡ true → o ≡ none
unfolding is_undecided
undecided_lem none h = refl
undecided_lem (some w) h = absurd (ground arith)

module _ (c : Curve) (p : Player c) (round curve : Text) (leader : ℤ) where
  -- With f + 1 shares and without a decision, the coin decides for a bit; else it decides nothing.
  toss_cases :
      (s s1 : AbaState c.Point) (ss ss1 : KeySession c) (out : List Effect)
      → toss c p round curve leader s ss ≡ some (s1, ss1, out)
      → (ss1.session ≡ ss.session)
        ⊎ ((w : ℕ) × (w < 2)
            × (length s1.coin_shares ≡ p.f + 1)
            × (lookup leader ss.session.decisions ≡ none)
            × (ss1.session ≡ (decide p.n round curve leader w ss.session).0))
  unfolding toss coin_value
  toss_cases s s1 ss ss1 out h =
      let ids : List ℕ = map (λ e. e.0) (p.walk s.coin_shares) in
      let enough = nat_beq (length s.coin_shares) (p.f + 1) in
      let undecided = is_undecided (lookup leader ss.session.decisions) in
      elim (Bool-cases (enough && undecided)) [
        | inr early ↦ inl (ground arith)
        | inl ready ↦ elim (Option-cases (first_of p.capacity p.k ids)) [
          | inl panic ↦ absurd (ground arith)
          | inr (first, cut) ↦ elim (Option-cases (lagrange_coeffs c first first)) [
            | inl fails ↦ inl (ground arith)
            | inr (coeff, found) ↦
                let w = coin_value c p s.coin_shares coeff in
                let same : s ≡ s1 = ground arith in
                let full : length s.coin_shares ≡ p.f + 1 = ground arith in
                inr (
                  w,
                  last_bit-lt-two _,
                  rw (← same) full,
                  undecided_lem (lookup leader ss.session.decisions) (ground arith),
                  ground arith,
                )
          ]
        ]
      ]

-- A share of a coin, if the handler does not panic, either leaves the decisions and the progress of the
-- session as they were, or its proof was verified against the sender's public key from the commitments,
-- it is among f + 1 shares, the leader had no decision, and the session is the one that a decision for 0
-- or 1 on the leader makes.
pub coin_guarded :
    (c : Curve) (p : Player c) (round curve : Text) (leader : ℤ) (g_tilde : c.Point) (sender : ℕ)
    (u : Unpack c) (s s1 : AbaState c.Point) (ss ss1 : KeySession c) (out : List Effect)
    → on_coin c p round curve leader g_tilde sender u s ss ≡ some (s1, ss1, out)
    → (ss1.session ≡ ss.session)
      ⊎ ((g_i : c.Point) × (w : ℕ) × (w < 2)
          × (derive_public_key c sender p.k (leader_dealers c p leader ss.session) ss.commitments
              ≡ some g_i)
          × (verify c p.sha256 u p.g g_tilde g_i ≡ true)
          × (length s1.coin_shares ≡ p.f + 1)
          × (lookup leader ss.session.decisions ≡ none)
          × (ss1.session ≡ (decide p.n round curve leader w ss.session).0))
unfolding on_coin
coin_guarded c p round curve leader g_tilde sender u s s1 ss ss1 out h =
    let dealers = leader_dealers c p leader ss.session in
    elim (List-cases dealers) [
      | inl empty ↦ inl (ground arith)
      | inr (j, t, named) ↦
          elim (Option-cases (derive_public_key c sender p.k (j ∷ t) ss.commitments)) [
            | inl panic ↦ absurd (ground arith)
            | inr (g_i, key) ↦ elim (Bool-cases (verify c p.sha256 u p.g g_tilde g_i)) [
              | inr refused ↦ inl (ground arith)
              | inl verified ↦
                  let tossed : toss c p round curve leader (set_coin_share sender u.g_i_tilde s) ss
                      ≡ some (s1, ss1, out) =
                    ground arith in
                  elim (toss_cases c p round curve leader (set_coin_share sender u.g_i_tilde s) s1
                    ss ss1 out tossed) [
                      | inl same ↦ inl same
                      | inr (w, bit, full, open_still, result) ↦
                          inr (g_i, w, bit, rw named key, verified, full, open_still, result)
                    ]
            ]
          ]
    ]
