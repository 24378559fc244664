-- ===== src/Dealing.antt =====
-- keygen/common/acss/acss.go and keygen/messages/messages.go: what a dealer sends to a node, that is
-- commitments to a polynomial and, for each node, its share under the node's key; and how the node
-- takes it apart and checks it.
pub mod Codec
pub mod Acceptance
pub mod Handlers
pub mod Soundness
pub mod Proposals
pub mod Outputs
pub mod Examples
use adkg.Base.{
  ℕ, zero, suc, ◌+◌, ◌*◌, ◌/◌, ◌%◌, ◌^◌, Option, none, some, List, [], ◌∷◌, ◌++◌, map, Map, take,
  nat_eq, ltb, ◌||◌, if◌then◌else◌,
}
use adkg.Base.Maps
use adkg.Messages.{Text}
use adkg.Curve.{Curve}
use adkg.Coin.{Outcome, done, failed, panics, slice, slice_from, read}
use adkg.Sharing.{ShamirShare, Checked, good, bad, shares_from, verify_share}

infixl 5 ◌>>=◌
abbrev pub ◌>>=◌ : {A B : Type 0} → Outcome A → (A → Outcome B) → Outcome B
done a >>= f = f a
failed >>= f = failed
panics >>= f = panics

-- What `Encrypt` of github.com/TRON-US/go-eccrypto makes, as bytes, which the package writes in
-- hexadecimal
pub record Sealed : Type 0 where
  pub iv : Text
  pub ephem : Text
  pub mac : Text
  pub cipher : Text

-- That package: `seal public seed t` is `Encrypt` with the randomness `seed`, `unseal private` is
-- `Decrypt`, and `compress` and `expand` are `NewPublicKeyFromBytes` with `Bytes(true)` and
-- `Bytes(false)`; `none` is an error.
pub record Ecies : Type 0 where
  pub seal : (public seed t : Text) → Option Sealed
  pub unseal : (private : Text) → Sealed → Option Text
  pub compress : Text → Option Text
  pub expand : Text → Option Text

module _ (e : Ecies) where
  -- `EncodeEncrypted`
  unfoldable pub encode_encrypted : Sealed → Option Text
  encode_encrypted s = elim (e.compress s.ephem) [
    | none ↦ none
    | some cpk ↦ some (s.iv ++ (cpk ++ (s.mac ++ s.cipher)))
  ]

  -- `Encrypt`
  unfoldable pub encrypt : (public seed share : Text) → Option Text
  unfolding encode_encrypted
  encrypt public seed share = elim (e.seal public seed share) [
    | none ↦ none
    | some s ↦ encode_encrypted s
  ]

  -- `b[lo:hi]`
  unfoldable pub part : Option Text → Outcome Text
  part none = panics
  part (some t) = done t

  -- `DecodeEncrypted`
  unfoldable pub decode_encrypted : Text → Outcome Sealed
  unfolding part
  decode_encrypted b = part (slice 0 16 b) >>= λ iv. part (slice 16 49 b) >>= λ pk.
      part (slice 49 81 b) >>= λ mac. part (slice_from 81 b) >>= λ cipher. elim (e.expand pk) [
        | none ↦ failed
        | some upk ↦ done (record { iv = iv; ephem = upk; mac = mac; cipher = cipher })
      ]

  -- `Decrypt`
  unfoldable pub decrypt : (private cipher : Text) → Outcome Text
  unfolding decode_encrypted
  decrypt private cipher =
      decode_encrypted cipher >>= λ s. elim (e.unseal private s) [ none ↦ failed | some t ↦ done t ]

-- `ShamirShare.Bytes`
unfoldable pub share_bytes : ShamirShare → Text
share_bytes s =
    s.id / 2 ^ 24 % 256 ∷ s.id / 2 ^ 16 % 256 ∷ s.id / 2 ^ 8 % 256 ∷ s.id % 256 ∷ s.value

-- The share that `Predicate` reads, with its panic on less than 4 bytes
unfoldable pub read_share : Text → Outcome ShamirShare
read_share (a ∷ b ∷ d ∷ i ∷ t) =
    done (record { id = a * 2 ^ 24 + b * 2 ^ 16 + d * 2 ^ 8 + i; value = t })
read_share _ = panics

-- `NewFeldman`: its guards
unfoldable pub new_feldman : (threshold limit : ℕ) → Option (ℕ × ℕ)
new_feldman threshold limit =
    if ltb limit threshold || (ltb threshold 2 || ltb 255 limit)
    then none
    else some (threshold, limit)

module _ (c : Curve) where
  -- `CompressCommitments`
  unfoldable pub compress_commitments : List c.Point → Text
  compress_commitments [] = []
  compress_commitments (p ∷ l) = c.point_bytes p ++ compress_commitments l

  -- The loop of `DecompressCommitments`, with the number of points left
  unfoldable pub decompress_commitments : (size left i : ℕ) → Text → Outcome (List c.Point)
  decompress_commitments size zero i t = done []
  decompress_commitments size (suc left) i t =
      let rest = decompress_commitments size left (i + 1) t in
      read (slice (i * size) (i * size + size) t) c.point_of_bytes λ p. rest >>= λ l. done (p ∷ l)

  -- `Split`: the coefficients behind the secret come from the reader.
  unfoldable pub acss_split :
      (g : c.Point)
      → (threshold limit : ℕ) → (secret : c.Scalar) → (random : List c.Scalar)
      → List c.Point × List ShamirShare
  acss_split g threshold limit secret random =
      let coefficients = secret ∷ random in
      (map (c.mul g) (take threshold coefficients), shares_from c coefficients limit 1)

  -- `GenerateCommitmentAndShares`
  unfoldable pub generate_commitment_and_shares :
      (g : c.Point)
      → (secret : c.Scalar) → (random : List c.Scalar) → (k n : ℕ)
      → Option (List c.Point × List ShamirShare)
  unfolding new_feldman acss_split
  generate_commitment_and_shares g secret random k n = elim (new_feldman k n) [
    | none ↦ none
    | some (threshold, limit) ↦ some (acss_split g threshold limit secret random)
  ]

  -- `Predicate`: the share of a node under its key, checked against the commitments
  unfoldable pub acss_predicate :
      (e : Ecies)
      → (g : c.Point) → (size k : ℕ) → (key cipher commits : Text)
      → Outcome (ShamirShare × List c.Point)
  unfolding decrypt decompress_commitments read_share
  acss_predicate e g size k key cipher commits = decrypt e key cipher >>= λ t. read_share t >>= λ s.
      decompress_commitments size k 0 commits >>= λ l. elim (verify_share c g l s) [
        | good _ ↦ done (s, l)
        | bad _ ↦ failed
        | Checked.panics ↦ panics
      ]

-- `MessageData`
pub record MessageData : Type 0 where
  pub commitments : Text
  pub share_map : Map ℕ Text

-- The loop over the shares in `ShareMessage.Process`
unfoldable pub encrypt_shares :
    Ecies → (public_key seed : ℕ → Text) → List ShamirShare → Map ℕ Text → Option (Map ℕ Text)
unfolding encrypt share_bytes
encrypt_shares e public_key seed [] m = some m
encrypt_shares e public_key seed (s ∷ l) m =
    elim (encrypt e (public_key s.id) (seed s.id) (share_bytes s)) [
      | none ↦ none
      | some t ↦ encrypt_shares e public_key seed l (Maps.insert s.id t m)
    ]
