-- ===== src/Sharing/Verify.antt =====
-- A share of a dealer who follows the code passes the check against the dealer's commitments.
use adkg.Base.{
  ℕ, zero, suc, ◌+◌, ◌<◌, ◌≡◌, refl, sym, ap, ◌∙◌, true, false, List, [], ◌∷◌, map, take_all, All,
  length, nat_beq, if◌then◌else◌, arith,
}
use adkg.Curve.{Curve, IsLawful}
use adkg.Sharing.{
  ShamirShare, ShareError, Checked, good, bad, validate, shares_from, split, combine_commitments,
  verify_share,
}

length-shares_from :
    (c : Curve) (l : List c.Scalar) (left i : ℕ) → length (shares_from c l left i) ≡ left
unfolding shares_from
length-shares_from c l zero i = refl
length-shares_from c l (suc left) i = ap suc (length-shares_from c l left (i + 1))

module _ (c : Curve) (size : ℕ) (law : IsLawful c size) where
  -- The value of the polynomial, by the powers of `x` as the check forms them
  pub power_sum : (x i acc : c.Scalar) → List c.Scalar → c.Scalar
  power_sum x i acc [] = acc
  power_sum x i acc (a ∷ l) = let i1 = c.times i x in power_sum x i1 (c.plus acc (c.times a i1)) l

  combine_commitments_lem :
      (g : c.Point) (x i acc : c.Scalar) (l : List c.Scalar)
      → combine_commitments c x i (c.mul g acc) (map (c.mul g) l) ≡ c.mul g (power_sum x i acc l)
  unfolding combine_commitments power_sum
  combine_commitments_lem g x i acc [] = refl
  combine_commitments_lem g x i acc (a ∷ l) =
      let m = law.module_laws in
      let i1 = c.times i x in
      let next : c.add (c.mul g acc) (c.mul (c.mul g a) i1) ≡ c.mul g (c.plus acc (c.times a i1)) =
        ap (c.add (c.mul g acc)) (sym (m.mul-times g a i1))
        ∙ sym (m.mul-plus g acc (c.times a i1)) in
      ap (λ r. combine_commitments c x i1 r (map (c.mul g) l)) next
      ∙ combine_commitments_lem g x i1 (c.plus acc (c.times a i1)) l

  -- Horner's rule and the powers give one value.
  power_sum_lem :
      (x i acc a : c.Scalar) (l : List c.Scalar)
      → power_sum x i acc (a ∷ l) ≡ c.plus acc (c.times (c.times i x) (c.evaluate (a ∷ l) x))
  unfolding power_sum
  power_sum_lem x i acc a [] =
      let r = law.ring in
      ap (c.plus acc)
        (r.times_comm a (c.times i x) ∙ ap (c.times (c.times i x)) (sym (r.evaluate_one a x)))
  power_sum_lem x i acc a (b ∷ l) =
      let r = law.ring in
      let i1 = c.times i x in
      let e = c.evaluate (b ∷ l) x in
      power_sum_lem x i1 (c.plus acc (c.times a i1)) b l
      ∙ r.plus_assoc acc (c.times a i1) (c.times (c.times i1 x) e)
      ∙ ap (c.plus acc) (
          ap (λ t. c.plus t (c.times (c.times i1 x) e)) (r.times_comm a i1)
          ∙ ap (c.plus (c.times i1 a)) (r.times_assoc i1 x e)
          ∙ sym (r.times-plus i1 a (c.times x e))
          ∙ ap (c.times i1) (sym (r.evaluate_more a b x l)))

  power_sum_value :
      (x a : c.Scalar) (l : List c.Scalar) → power_sum x c.one_scalar a l ≡ c.evaluate (a ∷ l) x
  unfolding power_sum
  power_sum_value x a [] = sym (law.ring.evaluate_one a x)
  power_sum_value x a (b ∷ l) =
      power_sum_lem x c.one_scalar a b l
      ∙ ap (λ t. c.plus a (c.times t (c.evaluate (b ∷ l) x))) (law.ring.times-one x)
      ∙ sym (law.ring.evaluate_more a b x l)

  -- The commitments to a polynomial, put together for a node, are the commitment to its value there.
  pub commitments_value :
      (g : c.Point) (x a : c.Scalar) (l : List c.Scalar)
      → combine_commitments c x c.one_scalar (c.mul g a) (map (c.mul g) l)
        ≡ c.mul g (c.evaluate (a ∷ l) x)
  commitments_value g x a l =
      combine_commitments_lem g x c.one_scalar a l ∙ ap (c.mul g) (power_sum_value x a l)

  -- What the check of a share says if its value is the one of the polynomial
  abbrev verdict : c.Scalar → Checked (Unit {0})
  verdict y = if c.is_zero y then bad ShareError.zero_share else good tt

  pub share_verifies :
      (g : c.Point) (a : c.Scalar) (l : List c.Scalar) (i : ℕ)
      → 0 < i
      → let y = c.evaluate (a ∷ l) (c.scalar_of i) in
        verify_share c g (map (c.mul g) (a ∷ l)) (record { id = i; value = c.scalar_bytes y })
        ≡ verdict y
  unfolding verify_share validate
  share_verifies g a l i h =
      let y = c.evaluate (a ∷ l) (c.scalar_of i) in
      let named : nat_beq i 0 ≡ false = ground arith in
      let readable = law.encoded.read_scalar y in
      let same : c.equal (c.mul g y)
            (combine_commitments c (c.scalar_of i) c.one_scalar (c.mul g a) (map (c.mul g) l))
          ≡ true =
        ap (c.equal (c.mul g y)) (commitments_value g (c.scalar_of i) a l)
        ∙ law.module_laws.equal_self (c.mul g y) in
      ground arith

  shares_verify :
      (g : c.Point) (a : c.Scalar) (l : List c.Scalar) (left i : ℕ)
      → 0 < i
      → All
          (λ s.
            verify_share c g (map (c.mul g) (a ∷ l)) s
            ≡ verdict (c.evaluate (a ∷ l) (c.scalar_of s.id)))
          (shares_from c (a ∷ l) left i)
  unfolding shares_from
  shares_verify g a l zero i h = tt
  shares_verify g a l (suc left) i h =
      (share_verifies g a l i h, shares_verify g a l left (i + 1) (omega arith))

-- Over any lawful curve: of a secret that is not zero and as many random coefficients as the threshold
-- leaves, `Split` makes commitments and shares, and each share passes the check against the
-- commitments, unless its value is zero, which the check refuses.
pub split_verifies :
    (c : Curve) (size : ℕ) (law : IsLawful c size) (g : c.Point) (threshold limit : ℕ)
    (secret : c.Scalar) (random : List c.Scalar)
    → c.is_zero secret ≡ false
    → length random + 1 ≡ threshold
    → (commitments : List c.Point) × (shares : List ShamirShare) × (split c g threshold limit secret
          random
        ≡ good (commitments, shares))
      × (length shares ≡ limit)
      × All
          (λ s. verify_share c g commitments s ≡ (
            if c.is_zero (c.evaluate (secret ∷ random) (c.scalar_of s.id))
            then bad ShareError.zero_share
            else good tt))
          shares
unfolding split
split_verifies c size law g threshold limit secret random nonzero enough = (
  map (c.mul g) (secret ∷ random),
  shares_from c (secret ∷ random) limit 1,
  rw (nonzero, take_all threshold (secret ∷ random) (omega arith)) refl,
  length-shares_from c (secret ∷ random) limit 1,
  shares_verify c size law g secret random limit 1 (omega arith),
)
