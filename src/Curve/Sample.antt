-- ===== src/Curve/Sample.antt =====
-- The field with two elements, as its own module of points.
use adkg.Base.{
  ℕ, ◌%◌, ◌≡◌, refl, sym, Bool, true, false, not, ◌&&◌, List, [], ◌∷◌, Option, none, some, nat_beq,
  replicate,
}
use adkg.Messages.{Text}
use adkg.Curve.{Curve, IsLawful}

abbrev pub xor : Bool → Bool → Bool
xor true b = not b
xor false b = b

abbrev pub value_at : List Bool → Bool → Bool
value_at [] x = false
value_at (a ∷ []) x = a
value_at (a ∷ b ∷ l) x = xor a (x && value_at (b ∷ l) x)

abbrev pub bit_of : Bool → ℕ
bit_of true = 1
bit_of false = 0

abbrev pub read_bit : Text → Option Bool
read_bit [] = none
read_bit (n ∷ t) = some (nat_beq n 1)

abbrev pub bits : Curve
bits = record {
  Scalar = Bool;
  Point = Bool;
  zero_scalar = false;
  one_scalar = true;
  scalar_of = λ n. nat_beq (n % 2) 1;
  is_zero = λ x. not x;
  plus = xor;
  minus = xor;
  times = λ x y. x && y;
  divide = λ x y. x && y;
  negate = λ x. x;
  mul_add = λ x y z. xor (x && y) z;
  evaluate = value_at;
  identity = false;
  add = xor;
  sub = xor;
  mul = λ p x. p && x;
  equal = λ p q. not (xor p q);
  hash_to_scalar = λ t. true;
  scalar_bytes = λ x. bit_of x ∷ replicate 31 0;
  scalar_of_bytes = read_bit;
  point_bytes = λ p. bit_of p ∷ replicate 32 0;
  point_of_bytes = read_bit;
}

read_bit_of : (b : Bool) (t : Text) → read_bit (bit_of b ∷ t) ≡ some b
read_bit_of true t = refl
read_bit_of false t = refl

-- Three values are enough to try every case.
assoc : (x y z : Bool) → xor (xor x y) z ≡ xor x (xor y z)
assoc true true true = refl
assoc true true false = refl
assoc true false z = refl
assoc false y z = refl

distribute : (x y z : Bool) → (x && xor y z) ≡ xor (x && y) (x && z)
distribute true y z = refl
distribute false y z = refl

and_assoc : (x y z : Bool) → ((x && y) && z) ≡ (x && (y && z))
and_assoc true y z = refl
and_assoc false y z = refl

and_comm : (x y : Bool) → (x && y) ≡ (y && x)
and_comm true true = refl
and_comm true false = refl
and_comm false true = refl
and_comm false false = refl

mul_mul_add : (p x y z : Bool) → (p && xor (x && y) z) ≡ xor ((p && x) && y) (p && z)
mul_mul_add true x y z = refl
mul_mul_add false x y z = refl

mul_negate : (p x y : Bool) → xor (p && xor x y) (p && x) ≡ (p && y)
mul_negate false x y = refl
mul_negate true true true = refl
mul_negate true true false = refl
mul_negate true false true = refl
mul_negate true false false = refl

sub_add : (p q : Bool) → xor (xor p q) p ≡ q
sub_add true true = refl
sub_add true false = refl
sub_add false true = refl
sub_add false false = refl

and_false : (p : Bool) → (p && false) ≡ false
and_false true = refl
and_false false = refl

same : (p : Bool) → not (xor p p) ≡ true
same true = refl
same false = refl

pub bits-IsLawful : IsLawful bits 33
bits-IsLawful = record {
  encoded = record {
    scalar_length = λ x. refl;
    point_length = λ p. refl;
    read_scalar = λ x. read_bit_of x (replicate 31 0);
    read_point = λ p. read_bit_of p (replicate 32 0);
  };
  ring = record {
    plus_assoc = assoc;
    times_assoc = and_assoc;
    times_comm = and_comm;
    times-one = λ x. refl;
    times-plus = distribute;
    zero-plus = λ x. refl;
    evaluate_one = λ a x. refl;
    evaluate_more = λ a b x l. refl;
  };
  module_laws = record {
    mul-plus = distribute;
    mul-times = λ p x y. sym (and_assoc p x y);
    mul-mul_add = mul_mul_add;
    mul-negate = mul_negate;
    mul-zero = and_false;
    sub-add = sub_add;
    equal_self = same;
  };
}
