-- ===== src/Sharing/Guards.antt =====
-- Which shares `Combine` accepts.
use adkg.Base.{
  ℕ, ◌<◌, ◌≤◌, ◌≡◌, refl, false, some, List, [], ◌∷◌, map, All, length, ltb, nat_beq, contains,
  Bool-cases, Option-cases, inl, inr, arith,
}
use adkg.Base.Distinct.{Distinct}
use adkg.Curve.{Curve}
use adkg.Sharing.{
  ShamirShare, Checked, good, bad, panics, ◌>>=◌, validate, read_shares, interpolate_from, combine,
}

-- No identifier of the list has been met.
abbrev Fresh : List ℕ → List ℕ → Type 0
Fresh dups = All (λ i. contains dups i ≡ false)

Fresh-split :
    (d : ℕ) (dups ids : List ℕ) → Fresh (d ∷ dups) ids → Fresh dups ids × (contains ids d ≡ false)
Fresh-split d dups [] h = (tt, refl)
Fresh-split d dups (i ∷ ids) h =
    let (f, g) = Fresh-split d dups ids h.1 in ((ground arith, f), ground arith)

good_of_bind {ℓ κ} :
    {A : Type ℓ} {B : Type κ} (m : Checked A) (f : A → Checked B) {b : B}
    → (m >>= f) ≡ good b
    → (a : A) × (m ≡ good a)
good_of_bind (good a) f h = (a, refl)
good_of_bind (bad e) f h = cc
good_of_bind panics f h = cc

module _ (c : Curve) (limit : ℕ) where
  -- The identifier is in range, and the value is a scalar that is not zero.
  pub record IsFit (s : ShamirShare) : Type 0 where
    pub named : 0 < s.id
    pub within : s.id ≤ limit
    pub valued : (x : c.Scalar) × (c.scalar_of_bytes s.value ≡ some x) × (c.is_zero x ≡ false)

  record Accepted (dups : List ℕ) (s : ShamirShare) (shares : List ShamirShare) : Type 0 where
    fit : IsFit s
    new : contains dups s.id ≡ false
    points : List (c.Scalar × c.Scalar)
    more : read_shares c limit (s.id ∷ dups) shares ≡ good points

  read_first :
      (dups : List ℕ) (s : ShamirShare) (shares : List ShamirShare) (l : List (c.Scalar × c.Scalar))
      → read_shares c limit dups (s ∷ shares) ≡ good l
      → Accepted dups s shares
  unfolding read_shares validate
  read_first dups s shares l h = elim (Bool-cases (nat_beq s.id 0)) [
    | inl e ↦ absurd (ground arith)
    | inr i ↦ elim (Option-cases (c.scalar_of_bytes s.value)) [
      | inl e ↦ absurd (ground arith)
      | inr (x, v) ↦ elim (Bool-cases (c.is_zero x)) [
        | inl e ↦ absurd (ground arith)
        | inr z ↦ elim (Bool-cases (ltb limit s.id)) [
          | inl e ↦ absurd (ground arith)
          | inr w ↦ elim (Bool-cases (contains dups s.id)) [
            | inl e ↦ absurd (ground arith)
            | inr n ↦
                let rest : read_shares c limit (s.id ∷ dups) shares
                      >>= (λ r. good ((c.scalar_of s.id, x) ∷ r))
                    ≡ good l =
                  ground arith in
                let (r, e) =
                  good_of_bind (read_shares c limit (s.id ∷ dups) shares)
                    (λ r. good ((c.scalar_of s.id, x) ∷ r)) rest in
                record {
                  fit = record { named = ground arith; within = ground arith; valued = (x, v, z) };
                  new = n;
                  points = r;
                  more = e;
                }
          ]
        ]
      ]
    ]
  ]

  read_shares-IsFit :
      (shares : List ShamirShare) (dups : List ℕ) (l : List (c.Scalar × c.Scalar))
      → read_shares c limit dups shares ≡ good l
      → All IsFit shares
        × Distinct (map ShamirShare.id shares)
        × Fresh dups (map ShamirShare.id shares)
  read_shares-IsFit [] dups l h = (tt, tt, tt)
  read_shares-IsFit (s ∷ shares) dups l h =
      let r = read_first dups s shares l h in
      let (fits, distinct, fresh) = read_shares-IsFit shares (s.id ∷ dups) r.points r.more in
      let (before, own) = Fresh-split s.id dups (map ShamirShare.id shares) fresh in
      ((r.fit, fits), (own, distinct), (r.new, before))

-- `Combine` gives a secret only for as many shares as the threshold says at least, with identifiers that
-- differ and lie between 1 and the limit, and with values that are scalars and not zero.
pub combine_guards :
    (c : Curve) (threshold limit : ℕ) (shares : List ShamirShare) (secret : c.Scalar)
    → combine c threshold limit shares ≡ good secret
    → (threshold ≤ length shares)
      × Distinct (map ShamirShare.id shares)
      × All (IsFit c limit) shares
unfolding combine
combine_guards c threshold limit shares secret h =
    elim (Bool-cases (ltb (length shares) threshold)) [
      | inl few ↦ absurd (ground arith)
      | inr enough ↦
          let rest : read_shares c limit [] shares
                >>= (λ points. interpolate_from c points 0 points c.zero_scalar)
              ≡ good secret =
            ground arith in
          let (l, e) =
            good_of_bind (read_shares c limit [] shares)
              (λ points. interpolate_from c points 0 points c.zero_scalar) rest in
          let (fits, distinct, _) = read_shares-IsFit c limit shares [] l e in
          (ground arith, distinct, fits)
    ]
