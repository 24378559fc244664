-- ===== src/Sharing.antt =====
-- common/sharing/shamir.go and common/sharing/feldman.go: shares of a secret and their check against
-- commitments, over an abstract curve. The coefficients of the polynomial behind the secret, which
-- `Init` takes from the reader, are an argument.
pub mod Verify
pub mod Guards
pub mod Points
pub mod Examples
use adkg.Base.{
  ℕ, zero, suc, ◌+◌, Bool, true, false, Option, none, some, List, [], ◌∷◌, ◌++◌, map, ltb, nat_beq,
  contains, length, take, if◌then◌else◌,
}
use adkg.Messages.{Text}
use adkg.Curve.{Curve}

pub record ShamirShare : Type 0 where
  pub id : ℕ
  pub value : Text

pub data ShareError : Type 0 where
  invalid_identifier undecodable zero_share too_few above_limit duplicate : ShareError
  divide_by_zero not_equal invalid_secret no_share : ShareError

-- A result, an error, or a panic
pub data Checked {ℓ} (A : Type ℓ) : Type ℓ where
  good : A → Checked A
  bad : ShareError → Checked A
  panics : Checked A

infixl 5 ◌>>=◌
abbrev pub ◌>>=◌ {ℓ κ} : {A : Type ℓ} {B : Type κ} → Checked A → (A → Checked B) → Checked B
good a >>= f = f a
bad e >>= f = bad e
panics >>= f = panics

module _ (c : Curve) where
  -- `ShamirShare.Validate`
  unfoldable pub validate : ShamirShare → Checked (Unit {0})
  validate s =
      if nat_beq s.id 0
      then bad ShareError.invalid_identifier
      else elim (c.scalar_of_bytes s.value) [
        | none ↦ bad ShareError.undecodable
        | some x ↦ if c.is_zero x then bad ShareError.zero_share else good tt
      ]

  -- The loop of `getPolyAndShares`, with the number of shares left, from the identifier `i`
  unfoldable pub shares_from : (coefficients : List c.Scalar) → (left i : ℕ) → List ShamirShare
  shares_from coefficients zero i = []
  shares_from coefficients (suc left) i =
      record { id = i; value = c.scalar_bytes (c.evaluate coefficients (c.scalar_of i)) }
      ∷ shares_from coefficients left (i + 1)

  -- `Feldman.Split`: the commitments to the coefficients, and a share for each identifier up to the limit
  unfoldable pub split :
      (g : c.Point)
      → (threshold limit : ℕ) → (secret : c.Scalar) → (random : List c.Scalar)
      → Checked (List c.Point × List ShamirShare)
  unfolding shares_from
  split g threshold limit secret random =
      if c.is_zero secret
      then bad ShareError.invalid_secret
      else (let coefficients = secret ∷ random in
          good (map (c.mul g) (take threshold coefficients), shares_from coefficients limit 1))

  -- The loop of `FeldmanVerifier.Verify` over the commitments behind the first
  unfoldable pub combine_commitments : (x i : c.Scalar) → (rhs : c.Point) → List c.Point → c.Point
  combine_commitments x i rhs [] = rhs
  combine_commitments x i rhs (p ∷ commitments) =
      let i1 = c.times i x in combine_commitments x i1 (c.add rhs (c.mul p i1)) commitments

  -- `FeldmanVerifier.Verify`; without a commitment it panics.
  unfoldable pub verify_share : (g : c.Point) → List c.Point → ShamirShare → Checked (Unit {0})
  unfolding validate combine_commitments
  verify_share g [] s = panics
  verify_share g (p ∷ commitments) s =
      let rhs = combine_commitments (c.scalar_of s.id) c.one_scalar p commitments in
      validate s >>= λ _. elim (c.scalar_of_bytes s.value) [
        | none ↦ panics
        | some x ↦ if c.equal (c.mul g x) rhs then good tt else bad ShareError.not_equal
      ]

  -- The loop of `Combine`, with the identifiers that it has met: the coordinates of each share
  unfoldable pub read_shares :
      (limit : ℕ) → (dups : List ℕ) → List ShamirShare → Checked (List (c.Scalar × c.Scalar))
  unfolding validate
  read_shares limit dups [] = good []
  read_shares limit dups (s ∷ shares) =
      let rest = read_shares limit (s.id ∷ dups) shares in
      validate s >>= λ _.
      if ltb limit s.id
      then bad ShareError.above_limit
      else if contains dups s.id
      then bad ShareError.duplicate
      else elim (c.scalar_of_bytes s.value) [
        | none ↦ panics
        | some y ↦ rest >>= λ l. good ((c.scalar_of s.id, y) ∷ l)
      ]

  -- The inner loop of `interpolate`, over the other shares: numerator and denominator
  unfoldable pub basis :
      {A : Type 0}
      → (i j : ℕ) → (xi : c.Scalar) → List (c.Scalar × A)
      → (num den : c.Scalar) → c.Scalar × c.Scalar
  basis i j xi [] num den = (num, den)
  basis i j xi ((xj, _) ∷ points) num den =
      let other = basis i (j + 1) xi points (c.times num xj) (c.times den (c.minus xj xi)) in
      let own = basis i (j + 1) xi points num den in if nat_beq i j then own else other

  -- `interpolate`, over the points that are left, from the position `i`
  unfoldable pub interpolate_from :
      (points : List (c.Scalar × c.Scalar))
      → (i : ℕ) → (left : List (c.Scalar × c.Scalar)) → (result : c.Scalar) → Checked c.Scalar
  unfolding basis
  interpolate_from points i [] result = good result
  interpolate_from points i ((xi, yi) ∷ left) result =
      let (num, den) = basis i 0 xi points c.one_scalar c.one_scalar in
      let rest =
        interpolate_from points (i + 1) left (c.plus result (c.times yi (c.divide num den))) in
      if c.is_zero den then bad ShareError.divide_by_zero else rest

  -- `Shamir.Combine`, and `Feldman.Combine`
  unfoldable pub combine : (threshold limit : ℕ) → List ShamirShare → Checked c.Scalar
  unfolding read_shares interpolate_from
  combine threshold limit shares =
      if ltb (length shares) threshold
      then bad ShareError.too_few
      else read_shares limit [] shares >>= λ points. interpolate_from points 0 points c.zero_scalar
