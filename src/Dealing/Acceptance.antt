-- ===== src/Dealing/Acceptance.antt =====
-- What a dealer who follows the code sends is accepted by each node.
use adkg.Base.{
  ℕ, zero, suc, ◌+◌, ◌<◌, ◌≤◌, ◌≡◌, refl, sym, ap, ◌∙◌, some, List, [], ◌∷◌, map, Map, take_all,
  length, length-map, nat_eq, nat_beq, ltb, ◌||◌, Bool, true, false, if◌then◌else◌, Option-cases,
  Bool-cases, inl, inr, arith,
}
use adkg.Base.Maps.{get_or, get_or-insert, insert}
use adkg.Messages.{Text}
use adkg.Curve.{Curve, IsLawful}
use adkg.Coin.{Outcome, done, failed, panics}
use adkg.Sharing.{ShamirShare, Checked, good, bad, ShareError, shares_from, verify_share}
use adkg.Sharing.Verify.{share_verifies}
use adkg.Dealing.{
  Ecies, encrypt, decrypt, share_bytes, read_share, compress_commitments, decompress_commitments,
  new_feldman, acss_split, generate_commitment_and_shares, acss_predicate, encrypt_shares,
}
use adkg.Dealing.Codec.{IsSealing, decrypt-encrypt, read_share-share_bytes, decompress-compress}

module _ (c : Curve) (e : Ecies) (public_key seed : ℕ → Text) (coefficients : List c.Scalar) where
  abbrev pub share_of : ℕ → ShamirShare
  share_of i = record { id = i; value = c.scalar_bytes (c.evaluate coefficients (c.scalar_of i)) }

  -- The first share is encrypted, and then the rest.
  encrypt_first :
      (left start : ℕ) (m0 m : Map ℕ Text)
      → encrypt_shares e public_key seed (shares_from c coefficients (suc left) start) m0 ≡ some m
      → (t : Text) × (encrypt e (public_key start) (seed start) (share_bytes (share_of start))
          ≡ some t)
        × (encrypt_shares e public_key seed
              (shares_from c coefficients left (start + 1))
              (insert start t m0)
            ≡ some m)
  unfolding encrypt_shares shares_from
  encrypt_first left start m0 m h =
      elim (Option-cases
        (encrypt e (public_key start) (seed start) (share_bytes (share_of start)))) [
          | inl fails ↦ absurd (ground arith)
          | inr (t, sent) ↦ (t, sent, ground arith)
        ]

  kept :
      (left start : ℕ) (m0 m : Map ℕ Text) (i : ℕ)
      → encrypt_shares e public_key seed (shares_from c coefficients left start) m0 ≡ some m
      → i < start
      → get_or m i [] ≡ get_or m0 i []
  unfolding encrypt_shares shares_from
  kept zero start m0 m i h lt = ap (λ r. get_or r i []) (sym (cc h))
  kept (suc left) start m0 m i h lt =
      let (t, sent, rest) = encrypt_first left start m0 m h in
      kept left (start + 1) (insert start t m0) m i rest (omega arith)
      ∙ ground (arith, get_or-insert start i t [] m0)

  -- The map has for each node its share, encrypted under its key.
  pub dealt :
      (left start : ℕ) (m0 m : Map ℕ Text) (i : ℕ)
      → encrypt_shares e public_key seed (shares_from c coefficients left start) m0 ≡ some m
      → start ≤ i
      → i < start + left
      → encrypt e (public_key i) (seed i) (share_bytes (share_of i)) ≡ some (get_or m i [])
  dealt zero start m0 m i h from below = absurd (omega arith)
  dealt (suc left) start m0 m i h from below =
      let (t, sent, rest) = encrypt_first left start m0 m h in
      elim (Bool-cases (nat_beq start i)) [
        | inl here ↦
            let same : start ≡ i = ground arith in
            let found : get_or m i [] ≡ t =
              kept left (start + 1) (insert start t m0) m i rest (omega arith)
              ∙ ground (arith, get_or-insert start i t [] m0) in
            rw (found, ← same) sent
        | inr other ↦
            dealt left (start + 1) (insert start t m0) m i rest (ground arith) (omega arith)
      ]

-- `NewFeldman` gives back what it is given, if the limit is at most 255.
generate_lem :
    (c : Curve) (g : c.Point) (secret : c.Scalar) (random : List c.Scalar) (k n : ℕ)
    (commitments : List c.Point) (shares : List ShamirShare)
    → length random + 1 ≡ k
    → generate_commitment_and_shares c g secret random k n ≡ some (commitments, shares)
    → (n < 256)
      × (map (c.mul g) (secret ∷ random) ≡ commitments)
      × (shares_from c (secret ∷ random) n 1 ≡ shares)
unfolding generate_commitment_and_shares new_feldman acss_split
generate_lem c g secret random k n commitments shares enough made =
    elim (Bool-cases (ltb n k || (ltb k 2 || ltb 255 n))) [
      | inl refused ↦ absurd (ground arith)
      | inr fits ↦
          let all = take_all k (secret ∷ random) (omega arith) in
          (ground arith, ap (map (c.mul g)) (sym all) ∙ ground arith, ground arith)
    ]

-- What `Predicate` says of a share that it can read
unfoldable pub verdict_on :
    (c : Curve)
    → ShamirShare
    → List c.Point
    → Checked (Unit {0})
    → Outcome (ShamirShare × List c.Point)
verdict_on c s l (good _) = done (s, l)
verdict_on c s l (bad _) = failed
verdict_on c s l Checked.panics = panics

pub acss_predicate_lem :
    (c : Curve) (e : Ecies) (g : c.Point) (size k : ℕ) (key cipher commits t : Text)
    (s : ShamirShare) (l : List c.Point) (r : Checked (Unit {0}))
    → decrypt e key cipher ≡ done t
    → read_share t ≡ done s
    → decompress_commitments c size k 0 commits ≡ done l
    → verify_share c g l s ≡ r
    → acss_predicate c e g size k key cipher commits ≡ verdict_on c s l r
unfolding acss_predicate verdict_on
acss_predicate_lem c e g size k key cipher commits t s l r opened named listed verified =
    rw (acss_predicate, opened, named, listed) (ap (verdict_on c s l) verified)

verdict_on_if :
    (c : Curve) (s : ShamirShare) (l : List c.Point) (b : Bool)
    → verdict_on c s l (if b then bad ShareError.zero_share else good tt)
      ≡ (if b then failed else done (s, l))
unfolding verdict_on
verdict_on_if c s l true = refl
verdict_on_if c s l false = refl

-- Over any lawful curve, with k - 1 random coefficients and an encryption that opens what it seals: if
-- the dealer's sharing among n nodes and the encryption of the shares succeed, `Predicate` at each node
-- from 1 to n gives the node's share and the dealer's commitments, unless the share is zero; then it
-- refuses.
pub honest_dealing_accepted :
    (c : Curve) (size : ℕ) (law : IsLawful c size) (e : Ecies) (g : c.Point) (k n : ℕ)
    (secret : c.Scalar) (random : List c.Scalar) (public_key private_key seed : ℕ → Text)
    (commitments : List c.Point) (shares : List ShamirShare) (m : Map ℕ Text) (i : ℕ)
    → length random + 1 ≡ k
    → ((j : ℕ) → IsSealing e (private_key j) (public_key j))
    → generate_commitment_and_shares c g secret random k n ≡ some (commitments, shares)
    → encrypt_shares e public_key seed shares [] ≡ some m
    → 0 < i
    → i ≤ n
    → acss_predicate c e g size k
        (private_key i)
        (get_or m i [])
        (compress_commitments c commitments)
      ≡ (if c.is_zero (c.evaluate (secret ∷ random) (c.scalar_of i))
          then failed
          else done (share_of c e public_key seed (secret ∷ random) i, commitments))
honest_dealing_accepted c size law e g k n secret random public_key private_key seed commitments
      shares m i enough keys made sealed from below =
    let (small, committed, shared) =
      generate_lem c g secret random k n commitments shares enough made in
    let s = share_of c e public_key seed (secret ∷ random) i in
    let points = map (c.mul g) (secret ∷ random) in
    let sent =
      dealt c e public_key seed (secret ∷ random) n 1 [] m i (rw shared sealed) from
        (omega arith) in
    let opened =
      decrypt-encrypt e (private_key i) (public_key i) (seed i) (share_bytes s) (get_or m i [])
        (keys i) sent in
    let named = read_share-share_bytes s (omega arith) in
    let count : length points ≡ k = omega (arith, length-map (c.mul g) (secret ∷ random), enough) in
    let listed : decompress_commitments c size k 0 (compress_commitments c points) ≡ done points =
      rw (← count) (decompress-compress c size law.encoded points) in
    let y = c.evaluate (secret ∷ random) (c.scalar_of i) in
    let judged =
      acss_predicate_lem c e g size k (private_key i) (get_or m i [])
        (compress_commitments c points) (share_bytes s) s points
        (if c.is_zero y then bad ShareError.zero_share else good tt) opened named listed
        (share_verifies c size law g secret random i from) in
    rw (← committed) (judged ∙ verdict_on_if c s points (c.is_zero y))
