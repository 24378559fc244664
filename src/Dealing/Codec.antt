-- ===== src/Dealing/Codec.antt =====
-- What the dealer writes for a node can be read back.
use adkg.Base.{
  ℕ, ◌+◌, ◌*◌, ◌^◌, ◌<◌, ◌≡◌, refl, sym, ap, ◌∙◌, some, List, [], ◌∷◌, ◌++◌, length, length-append,
  append_assoc, Option-cases, inl, inr, arith,
}
use adkg.Messages.{Text}
use adkg.Curve.{Curve, IsEncoded}
use adkg.Coin.{done, read, slice, slice_from}
use adkg.Coin.Acceptance.{slice-append, slice_from-append}
use adkg.Sharing.{ShamirShare}
use adkg.Dealing.{
  Sealed, Ecies, encode_encrypted, encrypt, decode_encrypted, decrypt, share_bytes, read_share,
  part, compress_commitments, decompress_commitments,
}

-- A pair of keys of the encryption: what is sealed under the public one has parts of fixed length, its
-- point can be compressed to 33 bytes and expanded again, and the private one opens it.
pub record IsSealing (e : Ecies) (private public : Text) : Type 0 where
  pub sized :
      (seed t : Text) (s : Sealed)
      → e.seal public seed t ≡ some s
      → (length s.iv ≡ 16) × (length s.mac ≡ 32)
  pub compressed :
      (seed t : Text) (s : Sealed)
      → e.seal public seed t ≡ some s
      → (cpk : Text) × (e.compress s.ephem ≡ some cpk)
        × (length cpk ≡ 33)
        × (e.expand cpk ≡ some s.ephem)
  pub opened :
      (seed t : Text) (s : Sealed) → e.seal public seed t ≡ some s → e.unseal private s ≡ some t

decode-encode :
    (e : Ecies) (s : Sealed) (cpk : Text)
    → length s.iv ≡ 16
    → length cpk ≡ 33
    → length s.mac ≡ 32
    → e.expand cpk ≡ some s.ephem
    → decode_encrypted e (s.iv ++ (cpk ++ (s.mac ++ s.cipher))) ≡ done s
unfolding decode_encrypted part
decode-encode e s cpk li lk lm back =
    let b = s.iv ++ (cpk ++ (s.mac ++ s.cipher)) in
    let e1 : b ≡ (s.iv ++ cpk) ++ (s.mac ++ s.cipher) =
      sym (append_assoc s.iv cpk (s.mac ++ s.cipher)) in
    let e2 : b ≡ ((s.iv ++ cpk) ++ s.mac) ++ s.cipher =
      e1 ∙ sym (append_assoc (s.iv ++ cpk) s.mac s.cipher) in
    let s1 : slice 0 16 b ≡ some s.iv =
      slice-append 0 16 [] s.iv (cpk ++ (s.mac ++ s.cipher)) refl (omega (arith, li)) in
    let s2 : slice 16 49 b ≡ some cpk =
      slice-append 16 49 s.iv cpk (s.mac ++ s.cipher) li (omega (arith, lk)) in
    let s3 : slice 49 81 b ≡ some s.mac = rw e1 (
      slice-append 49 81 (s.iv ++ cpk) s.mac s.cipher
        (omega (arith, length-append s.iv cpk, li, lk)) (omega (arith, lm))) in
    let s4 : slice_from 81 b ≡ some s.cipher = rw e2 (
      slice_from-append 81 ((s.iv ++ cpk) ++ s.mac) s.cipher
        (omega (arith, length-append (s.iv ++ cpk) s.mac, length-append s.iv cpk, li, lk, lm))) in
    rw (decode_encrypted, s1, part, s2, part, s3, part, s4, part, back) refl

-- What is encrypted for a node, the node decrypts.
pub decrypt-encrypt :
    (e : Ecies) (private public seed share t : Text)
    → IsSealing e private public
    → encrypt e public seed share ≡ some t
    → decrypt e private t ≡ done share
unfolding encrypt encode_encrypted decrypt
decrypt-encrypt e private public seed share t law sent =
    elim (Option-cases (e.seal public seed share)) [
      | inl fails ↦ absurd (ground arith)
      | inr (s, sealed) ↦
          let (li, lm) = law.sized seed share s sealed in
          let (cpk, c1, lk, back) = law.compressed seed share s sealed in
          let whole : s.iv ++ (cpk ++ (s.mac ++ s.cipher)) ≡ t = ground arith in
          let opens = law.opened seed share s sealed in
          rw (← whole, decrypt, decode-encode e s cpk li lk lm back, opens) refl
    ]

pub read_share-share_bytes : (s : ShamirShare) → s.id < 2 ^ 32 → read_share (share_bytes s) ≡ done s
unfolding read_share share_bytes
read_share-share_bytes s h =
    ap (λ i. done (record { id = i; value = s.value })) {y = s.id} (omega arith)

module _ (c : Curve) (size : ℕ) (law : IsEncoded c size) where
  decompress_lem :
      (l : List c.Point) (i : ℕ) (before : Text)
      → length before ≡ i * size
      → decompress_commitments c size (length l) i (before ++ compress_commitments c l) ≡ done l
  unfolding decompress_commitments compress_commitments read
  decompress_lem [] i before h = refl
  decompress_lem (p ∷ l) i before h =
      let pb = c.point_bytes p in
      let rest = compress_commitments c l in
      let lp = law.point_length p in
      let s1 : slice (i * size) (i * size + size) (before ++ (pb ++ rest)) ≡ some pb =
        slice-append (i * size) (i * size + size) before pb rest h (omega (arith, lp)) in
      let more : decompress_commitments c size (length l) (i + 1) (before ++ (pb ++ rest))
          ≡ done l =
        rw (← append_assoc before pb rest) (
          decompress_lem l (i + 1) (before ++ pb)
            (omega (arith, length-append before pb, lp, h))) in
      rw (decompress_commitments, s1, read, law.read_point p, more) refl

  -- The commitments can be read back, if as many are read as were written.
  pub decompress-compress :
      (l : List c.Point)
      → decompress_commitments c size (length l) 0 (compress_commitments c l) ≡ done l
  decompress-compress l = decompress_lem l 0 [] (omega arith)
