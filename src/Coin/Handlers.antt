-- ===== src/Coin/Handlers.antt =====
-- keygen/message_handlers/aba/coin_init_handler.go and coin_handler.go: the share of a coin that a node
-- sends, and what a share does to the agreement and the session, behind the loops that wait for the
-- keyset of the leader.
use adkg.Base.{
  ℕ, ◌+◌, ◌%◌, ℤ, true, false, ◌&&◌, Option, none, some, List, [], ◌∷◌, ◌++◌, map, Map, drop, take,
  int_eq, nat_eq, nat_beq, leb, length, Bool, if◌then◌else◌,
}
use adkg.Base.Maps
use adkg.Messages.{Text, Effect}
use adkg.Bitset.{get_set_bits}
use adkg.Session.{Session}
use adkg.Aba.State.{AbaState, set_coin_share}
use adkg.Aba.Decision.{decide}
use adkg.Curve.{Curve}
use adkg.Coin.{Unpack, coin_data, verify}
use adkg.KeyDerivation.Keys.{
  KeySession, derive_public_key, sum_shares, lagrange_coeffs,
}

-- The parameters of the node, the hash function and the base point; the order in which one `range` goes
-- through the shares, and the capacity of a slice that `append` has grown to a length
pub record Player (c : Curve) : Type 0 where
  pub n : ℕ
  pub k : ℕ
  pub f : ℕ
  pub sha256 : Text → Text
  pub g : c.Point
  pub walk : Map ℕ c.Point → Map ℕ c.Point
  pub capacity : ℕ → ℕ

-- `int(sum[31]) % 2`
unfoldable pub last_bit : Text → ℕ
last_bit t = elim (drop 31 t) [ [] ↦ 0 | b ∷ _ ↦ b % 2 ]

unfoldable pub is_undecided : Option ℕ → Bool
is_undecided none = true
is_undecided (some w) = false

-- The keys of `identities[0:k]`: behind the length and up to the capacity the entries are 0; `none` is the
-- panic past the capacity.
unfoldable pub first_of : (capacity : ℕ → ℕ) → ℕ → List ℕ → Option (List ℕ)
first_of capacity k identities =
    if leb k (length identities)
    then some (take k identities)
    else if leb k (capacity (length identities)) then some (identities ++ 0 ∷ []) else none

module _ (c : Curve) (p : Player c) (leader : ℤ) where
  -- `TiSet`
  abbrev pub leader_dealers : Session → List ℕ
  leader_dealers ss = get_set_bits p.n (Maps.get_or ss.keysets leader 0)

  -- `CoinInitMessage.Process`, for the point `g_tilde` of the coin and the random scalar `s`: the data of
  -- the message that is broadcast
  unfoldable pub on_coin_init : (g_tilde : c.Point) → (s : c.Scalar) → KeySession c → Text
  on_coin_init g_tilde s ss =
      coin_data c p.sha256 p.g g_tilde
        (sum_shares c ss.shares c.zero_scalar (leader_dealers ss.session)) s

module _ (c : Curve) (p : Player c) where
  -- The sum of the shares with their coefficients; an identity without a share is left out.
  unfoldable pub add_shares : Map ℕ c.Point → (g0_tilde : c.Point) → List (ℕ × c.Scalar) → c.Point
  add_shares shares g0_tilde [] = g0_tilde
  add_shares shares g0_tilde ((i, a) ∷ coeff) = elim (Maps.lookup i shares) [
    | none ↦ add_shares shares g0_tilde coeff
    | some share ↦ add_shares shares (c.add g0_tilde (c.mul share a)) coeff
  ]

  -- The coin of shares with the coefficients
  unfoldable pub coin_value : Map ℕ c.Point → List (ℕ × c.Scalar) → ℕ
  unfolding add_shares
  coin_value shares coeff =
      last_bit (p.sha256 (c.point_bytes (add_shares shares c.identity coeff)))

module _ (c : Curve) (p : Player c) (round curve : Text) (leader : ℤ) where
  -- The part of `CoinMessage.Process` behind the verified share: with f + 1 shares and no decision yet,
  -- the coin decides; `none` is a panic.
  unfoldable pub toss :
      AbaState c.Point → KeySession c → Option (AbaState c.Point × KeySession c × List Effect)
  unfolding coin_value is_undecided first_of
  toss s ss =
      let ids : List ℕ = map (λ e. e.0) (p.walk s.coin_shares) in
      if nat_beq (length s.coin_shares) (p.f + 1)
        && is_undecided (Maps.lookup leader ss.session.decisions)
      then elim (first_of p.capacity p.k ids) [
        | none ↦ none
        | some first ↦ elim (lagrange_coeffs c first first) [
          | none ↦ some (s, ss, [])
          | some coeff ↦
              let (session, out) =
                decide p.n round curve leader (coin_value c p s.coin_shares coeff) ss.session in
              some (s, record ss { session = session }, out)
        ]
      ]
      else some (s, ss, [])

  -- `CoinMessage.Process` with an unpacked message, under the lock of the session
  unfoldable pub on_coin :
      (g_tilde : c.Point)
      → (sender : ℕ) → Unpack c
      → AbaState c.Point
      → KeySession c
      → Option (AbaState c.Point × KeySession c × List Effect)
  unfolding toss
  on_coin g_tilde sender u s ss = elim (leader_dealers c p leader ss.session) [
    | [] ↦ some (s, ss, [])
    | j ∷ t ↦ elim (derive_public_key c sender p.k (j ∷ t) ss.commitments) [
      | none ↦ none
      | some g_i ↦
          if verify c p.sha256 u p.g g_tilde g_i
          then toss (set_coin_share sender u.g_i_tilde s) ss
          else some (s, ss, [])
    ]
  ]
