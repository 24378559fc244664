-- ===== src/Sharing/Points.antt =====
-- common/sharing/shamir.go: the combination of shares in the exponent, and what it has to do with that of
-- the shares themselves.
use adkg.Base.{
  ℕ, ◌+◌, ◌≡◌, refl, sym, ap, ◌∙◌, none, some, List, [], ◌∷◌, nat_beq, ltb, length, contains,
  Bool-cases, Option-cases, inl, inr, if◌then◌else◌,
}
use adkg.Curve.{Curve, IsLawful}
use adkg.Sharing.{
  ShamirShare, ShareError, Checked, good, bad, panics, ◌>>=◌, validate, read_shares, basis,
  interpolate_from, combine,
}

module _ (c : Curve) (base : c.Point) where
  -- The loop of `CombinePoints`, as that of `Combine`, with the points of the values; `base` is the point
  -- of `ScalarBaseMult`.
  unfoldable pub read_point_shares :
      (limit : ℕ) → (dups : List ℕ) → List ShamirShare → Checked (List (c.Scalar × c.Point))
  unfolding validate
  read_point_shares limit dups [] = good []
  read_point_shares limit dups (s ∷ shares) =
      let rest = read_point_shares limit (s.id ∷ dups) shares in
      validate c s >>= λ _.
      if ltb limit s.id
      then bad ShareError.above_limit
      else if contains dups s.id
      then bad ShareError.duplicate
      else elim (c.scalar_of_bytes s.value) [
        | none ↦ panics
        | some y ↦ rest >>= λ l. good ((c.scalar_of s.id, c.mul base y) ∷ l)
      ]

  -- `interpolatePoint`, over the points that are left, from the position `i`
  unfoldable pub interpolate_point_from :
      (points : List (c.Scalar × c.Point))
      → (i : ℕ) → (left : List (c.Scalar × c.Point)) → (result : c.Point) → Checked c.Point
  unfolding basis
  interpolate_point_from points i [] result = good result
  interpolate_point_from points i ((xi, yi) ∷ left) result =
      let (num, den) = basis c i 0 xi points c.one_scalar c.one_scalar in
      let rest =
        interpolate_point_from points (i + 1) left (c.add result (c.mul yi (c.divide num den))) in
      if c.is_zero den then bad ShareError.divide_by_zero else rest

  -- `Shamir.CombinePoints`, and `Feldman.CombinePoints`
  unfoldable pub combine_share_points : (threshold limit : ℕ) → List ShamirShare → Checked c.Point
  unfolding read_point_shares interpolate_point_from
  combine_share_points threshold limit shares =
      if ltb (length shares) threshold
      then bad ShareError.too_few
      else read_point_shares limit [] shares >>= λ points.
          interpolate_point_from points 0 points c.identity

  -- A result carried to the points
  abbrev pub on_points : Checked c.Scalar → Checked c.Point
  on_points (good x) = good (c.mul base x)
  on_points (bad e) = bad e
  on_points panics = panics

  push : List (c.Scalar × c.Scalar) → List (c.Scalar × c.Point)
  push [] = []
  push ((x, y) ∷ l) = (x, c.mul base y) ∷ push l

  basis-push :
      (i j : ℕ) (xi : c.Scalar) (l : List (c.Scalar × c.Scalar)) (num den : c.Scalar)
      → basis c i j xi (push l) num den ≡ basis c i j xi l num den
  unfolding basis push
  basis-push i j xi [] num den = refl
  basis-push i j xi ((xj, y) ∷ l) num den = elim (Bool-cases (nat_beq i j)) [
    | inl own ↦ rw own (basis-push i (j + 1) xi l num den)
    | inr other ↦
        rw other (basis-push i (j + 1) xi l (c.times num xj) (c.times den (c.minus xj xi)))
  ]

  -- What `CombinePoints` reads, for what `Combine` reads
  pushed : Checked (List (c.Scalar × c.Scalar)) → Checked (List (c.Scalar × c.Point))
  pushed (good l) = good (push l)
  pushed (bad e) = bad e
  pushed panics = panics

  pushed-cons :
      (x y : c.Scalar) (r : Checked (List (c.Scalar × c.Scalar)))
      → (pushed r >>= λ l. good ((x, c.mul base y) ∷ l)) ≡ pushed (r >>= λ l. good ((x, y) ∷ l))
  unfolding pushed push
  pushed-cons x y (good l) = refl
  pushed-cons x y (bad e) = refl
  pushed-cons x y panics = refl

  read_point_shares_lem :
      (limit : ℕ) (shares : List ShamirShare) (dups : List ℕ)
      → read_point_shares limit dups shares ≡ pushed (read_shares c limit dups shares)
  unfolding read_point_shares read_shares validate pushed push
  read_point_shares_lem limit [] dups = refl
  read_point_shares_lem limit (s ∷ shares) dups = elim (Bool-cases (nat_beq s.id 0)) [
    | inl e ↦ rw e refl
    | inr i ↦ elim (Option-cases (c.scalar_of_bytes s.value)) [
      | inl e ↦ rw (i, e) refl
      | inr (x, v) ↦ elim (Bool-cases (c.is_zero x)) [
        | inl e ↦ rw (i, v, e) refl
        | inr z ↦ elim (Bool-cases (ltb limit s.id)) [
          | inl e ↦ rw (i, v, z, e) refl
          | inr w ↦ elim (Bool-cases (contains dups s.id)) [
            | inl e ↦ rw (i, v, z, w, e) refl
            | inr n ↦
                let ih = read_point_shares_lem limit shares (s.id ∷ dups) in
                rw (i, v, z, w, n, ih)
                  (pushed-cons (c.scalar_of s.id) x (read_shares c limit (s.id ∷ dups) shares))
          ]
        ]
      ]
    ]
  ]

  module _ (size : ℕ) (law : IsLawful c size) where
    interpolate_point_from_lem :
        (points : List (c.Scalar × c.Scalar)) (i : ℕ) (left : List (c.Scalar × c.Scalar))
        (result : c.Scalar)
        → interpolate_point_from (push points) i (push left) (c.mul base result)
          ≡ on_points (interpolate_from c points i left result)
    unfolding interpolate_point_from interpolate_from push
    interpolate_point_from_lem points i [] result = refl
    interpolate_point_from_lem points i ((xi, yi) ∷ left) result =
        let w = basis c i 0 xi points c.one_scalar c.one_scalar in
        let a = c.divide w.0 w.1 in
        let same = basis-push i 0 xi points c.one_scalar c.one_scalar in
        let md = law.module_laws in
        let next : c.add (c.mul base result) (c.mul (c.mul base yi) a)
            ≡ c.mul base (c.plus result (c.times yi a)) =
          ap (c.add (c.mul base result)) (sym (md.mul-times base yi a))
          ∙ sym (md.mul-plus base result (c.times yi a)) in
        let ih = interpolate_point_from_lem points (i + 1) left (c.plus result (c.times yi a)) in
        elim (Bool-cases (c.is_zero w.1)) [
          | inl e ↦ rw (same, e) refl
          | inr e ↦ rw (same, e, next) ih
        ]

    combined :
        (r : Checked (List (c.Scalar × c.Scalar)))
        → (pushed r >>= λ points. interpolate_point_from points 0 points c.identity)
          ≡ on_points (r >>= λ points. interpolate_from c points 0 points c.zero_scalar)
    unfolding pushed
    combined (good l) =
        ap (interpolate_point_from (push l) 0 (push l)) (sym (law.module_laws.mul-zero base))
        ∙ interpolate_point_from_lem l 0 l c.zero_scalar
    combined (bad e) = refl
    combined panics = refl

-- Over any lawful curve, for any shares: `CombinePoints` gives the base point times the secret that
-- `Combine` gives, and where `Combine` refuses the shares it refuses them with the same error.
pub combine_share_points-combine :
    (c : Curve) (size : ℕ) (law : IsLawful c size) (base : c.Point) (threshold limit : ℕ)
    (shares : List ShamirShare)
    → combine_share_points c base threshold limit shares
      ≡ on_points c base (combine c threshold limit shares)
unfolding combine_share_points combine
combine_share_points-combine c size law base threshold limit shares =
    elim (Bool-cases (ltb (length shares) threshold)) [
      | inl few ↦ rw few refl
      | inr enough ↦
          rw (enough, read_point_shares_lem c base limit shares [])
            (combined c base size law (read_shares c limit [] shares))
    ]
