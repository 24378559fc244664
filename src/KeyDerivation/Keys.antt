-- ===== src/KeyDerivation/Keys.antt =====
-- common/adkg_common.go and keygen/common/aba/aba.go: what a session keeps for the shares of the key,
-- the public key of a node's share, and coefficients of Lagrange.
use adkg.Base.{
  ℕ, ◌-◌, Bool, false, Option, none, some, List, [], ◌∷◌, Map, nat_eq, nat_beq, leb, length, take,
  if◌then◌else◌,
}
use adkg.Base.Maps
use adkg.Messages.{Text}
use adkg.Rounds.{◌>>=◌}
use adkg.Session.{Session, default_adkg_session}
use adkg.Curve.{Curve}
use adkg.Sharing.{ShamirShare, combine_commitments}

-- `PubKeyShare`
pub record PubKeyShare : Type 0 where
  pub r : Text
  pub s : Text
  pub share : Text

-- `ADKGSession`, with the fields S, C, PubKeyShares, PubKeySharesUnverified, Over, BFTDecided, Share and
-- the T of Commitments beside those of `Session`
pub record KeySession (c : Curve) : Type 0 where
  pub session : Session
  pub shares : Map ℕ ShamirShare
  pub commitments : Map ℕ (List c.Point)
  pub pub_key_shares : Map ℕ c.Point
  pub pub_key_shares_unverified : Map ℕ PubKeyShare
  pub over : Bool
  pub bft_decided : Bool
  pub share : Option c.Scalar
  pub dealers : List ℕ

abbrev pub default_key_session : (c : Curve) → KeySession c
default_key_session c = record {
  session = default_adkg_session;
  shares = [];
  commitments = [];
  pub_key_shares = [];
  pub_key_shares_unverified = [];
  over = false;
  bft_decided = false;
  share = none;
  dealers = [];
}

module _ (c : Curve) where
  -- The inner loop of `DerivePublicKey` for one dealer; `none` is the panic on commitments that are
  -- missing or fewer than `k`.
  unfoldable pub dealer_key : (k : ℕ) → (x : c.Scalar) → Option (List c.Point) → Option c.Point
  dealer_key k x none = none
  dealer_key k x (some []) = none
  dealer_key k x (some (p ∷ l)) =
      if leb (k - 1) (length l)
      then some (combine_commitments c x c.one_scalar p (take (k - 1) l))
      else none

  -- The outer loop behind its first round
  unfoldable pub add_dealers :
      (k : ℕ) → (x : c.Scalar) → Map ℕ (List c.Point) → (g_i : c.Point) → List ℕ → Option c.Point
  unfolding dealer_key
  add_dealers k x commitments g_i [] = some g_i
  add_dealers k x commitments g_i (j ∷ t) = do
    rhs ← dealer_key k x (Maps.lookup j commitments)
    add_dealers k x commitments (c.add g_i rhs) t

  -- `DerivePublicKey`; for no dealer the result is nil, which its callers use.
  unfoldable pub derive_public_key : (node k : ℕ) → List ℕ → Map ℕ (List c.Point) → Option c.Point
  unfolding add_dealers
  derive_public_key node k [] commitments = none
  derive_public_key node k (j ∷ t) commitments = do
    rhs ← dealer_key k (c.scalar_of node) (Maps.lookup j commitments)
    add_dealers k (c.scalar_of node) commitments rhs t

  abbrev pub no_share : ShamirShare
  no_share = record { id = 0; value = [] }

  -- The loop that adds the shares of the dealers; a share that cannot be read is left out.
  unfoldable pub sum_shares : Map ℕ ShamirShare → (z : c.Scalar) → List ℕ → c.Scalar
  sum_shares shares z [] = z
  sum_shares shares z (j ∷ t) = elim (c.scalar_of_bytes (Maps.get_or shares j no_share).value) [
    | none ↦ sum_shares shares z t
    | some x ↦ sum_shares shares (c.plus z x) t
  ]

  -- The inner loop of `LagrangeCoeffs`
  unfoldable pub lagrange_basis :
      (i : ℕ) → (xi : c.Scalar) → List ℕ → (num den : c.Scalar) → c.Scalar × c.Scalar
  lagrange_basis i xi [] num den = (num, den)
  lagrange_basis i xi (j ∷ l) num den =
      let xj = c.scalar_of j in
      let other = lagrange_basis i xi l (c.times num xj) (c.times den (c.minus xj xi)) in
      let own = lagrange_basis i xi l num den in if nat_beq i j then own else other

  -- The outer loop of `LagrangeCoeffs`, over the identities that are left; `none` is its error.
  unfoldable pub lagrange_coeffs : (all left : List ℕ) → Option (List (ℕ × c.Scalar))
  unfolding lagrange_basis
  lagrange_coeffs all [] = some []
  lagrange_coeffs all (i ∷ left) =
      let (num, den) = lagrange_basis i (c.scalar_of i) all c.one_scalar c.one_scalar in
      let rest = lagrange_coeffs all left in
      if c.is_zero den then none else (do l ← rest; some ((i, c.divide num den) ∷ l))

  -- The sum of the points with their coefficients
  unfoldable pub combine_points : Map ℕ c.Point → (h : c.Point) → List (ℕ × c.Scalar) → c.Point
  combine_points points h [] = h
  combine_points points h ((i, a) ∷ l) =
      combine_points points (c.add h (c.mul (Maps.get_or points i c.identity) a)) l
