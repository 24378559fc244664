-- ===== src/KeyDerivation/Acceptance.antt =====
-- The share of the public key that a node sends is accepted by every node with the dealers' commitments.
use adkg.Base.{
  ℕ, ◌+◌, ◌-◌, ◌≡◌, refl, sym, ap, ◌∙◌, true, some, List, [], ◌∷◌, ◌++◌, map, Map, All, length,
  length-map, take_all, leb, nat_eq, arith, text_eq,
}
use adkg.Base.Maps.{lookup, get_or}
use adkg.Messages.{Text}
use adkg.Curve.{Curve, IsLawful}
use adkg.Coin.{done, read, hash, slice, slice_from}
use adkg.Coin.Acceptance.{slice-append, slice_from-append}
use adkg.Sharing.{ShamirShare}
use adkg.Sharing.Verify.{commitments_value}
use adkg.KeyDerivation.Keys.{dealer_key, add_dealers, derive_public_key, sum_shares, no_share}
use adkg.KeyDerivation.Proof.{point_size, prove_share, verify_proof}

module _ (c : Curve) (name : Text) (law : IsLawful c (point_size name)) (g : c.Point) where
  -- The dealer committed to a polynomial with `k` coefficients, and the node's share is its value.
  pub record IsDealt (k node : ℕ) (shares : Map ℕ ShamirShare) (commitments : Map ℕ (List c.Point))
      (j : ℕ) : Type 0 where
    pub first : c.Scalar
    pub others : List c.Scalar
    pub count : length others + 1 ≡ k
    pub committed : lookup j commitments ≡ some (map (c.mul g) (first ∷ others))
    pub shared :
        (get_or shares j (no_share c)).value
        ≡ c.scalar_bytes (c.evaluate (first ∷ others) (c.scalar_of node))

  module _ (k node : ℕ) (shares : Map ℕ ShamirShare) (commitments : Map ℕ (List c.Point)) where
    value_of : {j : ℕ} → IsDealt k node shares commitments j → c.Scalar
    value_of d = c.evaluate (d.first ∷ d.others) (c.scalar_of node)

    dealer_key_lem :
        {j : ℕ} (d : IsDealt k node shares commitments j)
        → dealer_key c k (c.scalar_of node) (lookup j commitments) ≡ some (c.mul g (value_of d))
    unfolding dealer_key value_of
    dealer_key_lem {j} d =
        let l = map (c.mul g) d.others in
        let size : length l ≡ k - 1 = omega (arith, length-map (c.mul g) d.others, d.count) in
        let enough : leb (k - 1) (length l) ≡ true = ground arith in
        let value =
          commitments_value c (point_size name) law g (c.scalar_of node) d.first d.others in
        rw (dealer_key, d.committed, enough, take_all (k - 1) l size) (ap some value)

    read_dealt :
        {j : ℕ} (d : IsDealt k node shares commitments j)
        → c.scalar_of_bytes (get_or shares j (no_share c)).value ≡ some (value_of d)
    unfolding value_of
    read_dealt d = ap c.scalar_of_bytes d.shared ∙ law.encoded.read_scalar _

    add_dealers_lem :
        (t : List ℕ) (z : c.Scalar)
        → All (IsDealt k node shares commitments) t
        → add_dealers c k (c.scalar_of node) commitments (c.mul g z) t
          ≡ some (c.mul g (sum_shares c shares z t))
    unfolding add_dealers sum_shares
    add_dealers_lem [] z h = refl
    add_dealers_lem (j ∷ t) z (d, h) =
        let v = value_of d in
        let next : c.add (c.mul g z) (c.mul g v) ≡ c.mul g (c.plus z v) =
          sym (law.module_laws.mul-plus g z v) in
        rw (add_dealers, dealer_key_lem d, sum_shares, read_dealt d, next)
          (add_dealers_lem t (c.plus z v) h)

    -- The public key that the commitments give for the node is that of the sum of its shares.
    pub derive_public_key_lem :
        (j : ℕ) (t : List ℕ)
        → All (IsDealt k node shares commitments) (j ∷ t)
        → derive_public_key c node k (j ∷ t) commitments
          ≡ some (c.mul g (sum_shares c shares c.zero_scalar (j ∷ t)))
    unfolding derive_public_key sum_shares
    derive_public_key_lem j t (d, h) =
        let v = value_of d in
        let start : c.plus c.zero_scalar v ≡ v = law.ring.zero-plus v in
        rw (derive_public_key, dealer_key_lem d, sum_shares, read_dealt d, start)
          (add_dealers_lem t v h)

-- Behind the public key of its secret, the proof that a node makes is verified.
verify_proof-prove_share :
    (c : Curve) (name : Text) (law : IsLawful c (point_size name)) (sha256 : Text → Text)
    (g h : c.Point) (z k_rand : c.Scalar)
    → verify_proof c sha256 g h name (c.mul g z) (prove_share c sha256 g h z k_rand)
      ≡ done (c.mul h z)
unfolding verify_proof prove_share read
verify_proof-prove_share c name law sha256 g h z k_rand =
    let en = law.encoded in
    let md = law.module_laws in
    let a = c.mul g k_rand in
    let b = c.mul h k_rand in
    let ch = hash c sha256 g (c.mul g z) h (c.mul h z) a b in
    let s = c.negate (c.minus (c.times ch z) k_rand) in
    let bar : (p : c.Point) → c.add (c.mul p s) (c.mul (c.mul p z) ch) ≡ c.mul p k_rand = λ p.
      ap (c.add (c.mul p s)) (sym (md.mul-times p z ch) ∙ ap (c.mul p) (law.ring.times_comm z ch))
      ∙ md.mul-negate p (c.times ch z) k_rand in
    let s1 : slice 0 (point_size name) (c.point_bytes a ++ c.point_bytes b)
        ≡ some (c.point_bytes a) =
      slice-append 0 (point_size name) [] (c.point_bytes a) (c.point_bytes b) refl
        (omega (arith, en.point_length a)) in
    let s2 : slice_from (point_size name) (c.point_bytes a ++ c.point_bytes b)
        ≡ some (c.point_bytes b) =
      slice_from-append (point_size name) (c.point_bytes a) (c.point_bytes b) (en.point_length a) in
    rw
      (
        verify_proof,
        prove_share,
        read,
        en.read_scalar s,
        s1,
        read,
        en.read_point a,
        s2,
        read,
        en.read_point b,
        read,
        en.read_point (c.mul h z),
        bar g,
        bar h,
        md.equal_self a,
        md.equal_self b,
      )
      refl

-- Over any lawful curve, with points of the size that the name of the curve says: if for each of the
-- dealers, of whom there is one at least, the commitments that a node holds are those to a polynomial
-- with k coefficients, and the share of the sender is its value at the sender's index, then the public
-- key that the node derives is that of the sum of the sender's shares, and the message that the sender
-- makes of them, with any random scalar, is verified and gives the share of the key.
pub honest_share_accepted :
    (c : Curve) (name : Text) (law : IsLawful c (point_size name)) (sha256 : Text → Text)
    (g h : c.Point) (k sender j : ℕ) (t : List ℕ) (shares : Map ℕ ShamirShare)
    (commitments : Map ℕ (List c.Point)) (k_rand : c.Scalar)
    → All (IsDealt c name law g k sender shares commitments) (j ∷ t)
    → let z = sum_shares c shares c.zero_scalar (j ∷ t) in
      (derive_public_key c sender k (j ∷ t) commitments ≡ some (c.mul g z))
      × (verify_proof c sha256 g h name (c.mul g z) (prove_share c sha256 g h z k_rand)
          ≡ done (c.mul h z))
honest_share_accepted c name law sha256 g h k sender j t shares commitments k_rand dealt = (
  derive_public_key_lem c name law g k sender shares commitments j t dealt,
  verify_proof-prove_share c name law sha256 g h (sum_shares c shares c.zero_scalar (j ∷ t)) k_rand,
)
