-- ===== src/Curve.antt =====
-- The curves of github.com/coinbase/kryptology, as far as the handlers call them: the operations as
-- parameters, and what is documented of them.
pub mod Sample
use adkg.Base.{ℕ, ◌≡◌, Bool, true, List, [], ◌∷◌, Option, some, length}
use adkg.Messages.{Text}

-- `mul_add x y z` is `x.MulAdd(y, z)`, `scalar_of` is `Scalar.New`, `evaluate` is `Evaluate` of a
-- polynomial with the coefficients, the constant one first; the encoding of a point is
-- `ToAffineCompressed`, and `identity` is `Point.Identity`.
pub record Curve : Type 1 where
  pub Scalar : Type 0
  pub Point : Type 0
  pub zero_scalar : Scalar
  pub one_scalar : Scalar
  pub scalar_of : ℕ → Scalar
  pub is_zero : Scalar → Bool
  pub plus : Scalar → Scalar → Scalar
  pub minus : Scalar → Scalar → Scalar
  pub times : Scalar → Scalar → Scalar
  pub divide : Scalar → Scalar → Scalar
  pub negate : Scalar → Scalar
  pub mul_add : Scalar → Scalar → Scalar → Scalar
  pub evaluate : List Scalar → Scalar → Scalar
  pub identity : Point
  pub add : Point → Point → Point
  pub sub : Point → Point → Point
  pub mul : Point → Scalar → Point
  pub equal : Point → Point → Bool
  pub hash_to_scalar : Text → Scalar
  pub scalar_bytes : Scalar → Text
  pub scalar_of_bytes : Text → Option Scalar
  pub point_bytes : Point → Text
  pub point_of_bytes : Text → Option Point

-- The encodings have a fixed length, that of points being 33 bytes on secp256k1 and 32 on ed25519, and
-- can be read back.
pub record IsEncoded (c : Curve) (size : ℕ) : Type 0 where
  pub scalar_length : (x : c.Scalar) → length (c.scalar_bytes x) ≡ 32
  pub point_length : (p : c.Point) → length (c.point_bytes p) ≡ size
  pub read_scalar : (x : c.Scalar) → c.scalar_of_bytes (c.scalar_bytes x) ≡ some x
  pub read_point : (p : c.Point) → c.point_of_bytes (c.point_bytes p) ≡ some p

-- The scalars are a commutative ring, in which polynomials are evaluated.
pub record IsRing (c : Curve) : Type 0 where
  pub plus_assoc : (x y z : c.Scalar) → c.plus (c.plus x y) z ≡ c.plus x (c.plus y z)
  pub times_assoc : (x y z : c.Scalar) → c.times (c.times x y) z ≡ c.times x (c.times y z)
  pub times_comm : (x y : c.Scalar) → c.times x y ≡ c.times y x
  pub times-one : (x : c.Scalar) → c.times c.one_scalar x ≡ x
  pub times-plus : (x y z : c.Scalar) → c.times x (c.plus y z) ≡ c.plus (c.times x y) (c.times x z)
  pub zero-plus : (x : c.Scalar) → c.plus c.zero_scalar x ≡ x
  pub evaluate_one : (a x : c.Scalar) → c.evaluate (a ∷ []) x ≡ a
  pub evaluate_more :
      (a b x : c.Scalar) (l : List c.Scalar)
      → c.evaluate (a ∷ b ∷ l) x ≡ c.plus a (c.times x (c.evaluate (b ∷ l) x))

-- The points are a module over them, and the test for equality finds equal points equal.
pub record IsModule (c : Curve) : Type 0 where
  pub mul-plus :
      (p : c.Point) (x y : c.Scalar) → c.mul p (c.plus x y) ≡ c.add (c.mul p x) (c.mul p y)
  pub mul-times : (p : c.Point) (x y : c.Scalar) → c.mul p (c.times x y) ≡ c.mul (c.mul p x) y
  pub mul-mul_add :
      (p : c.Point) (x y z : c.Scalar)
      → c.mul p (c.mul_add x y z) ≡ c.add (c.mul (c.mul p x) y) (c.mul p z)
  pub mul-negate :
      (p : c.Point) (x y : c.Scalar)
      → c.add (c.mul p (c.negate (c.minus x y))) (c.mul p x) ≡ c.mul p y
  pub mul-zero : (p : c.Point) → c.mul p c.zero_scalar ≡ c.identity
  pub sub-add : (p q : c.Point) → c.sub (c.add p q) p ≡ q
  pub equal_self : (p : c.Point) → c.equal p p ≡ true

pub record IsLawful (c : Curve) (size : ℕ) : Type 0 where
  pub encoded : IsEncoded c size
  pub ring : IsRing c
  pub module_laws : IsModule c
