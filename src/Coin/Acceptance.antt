-- ===== src/Coin/Acceptance.antt =====
-- A share that a node puts together is accepted by every node.
use adkg.Base.{
  ℕ, ◌+◌, ◌-◌, ◌≡◌, refl, sym, ap, ◌∙◌, true, some, [], ◌++◌, arith, leb, length, drop,
  length-append, length-take, length-drop, take, none, ◌≢◌, take-length, drop-length, append_assoc,
}
use adkg.Messages.{Text}
use adkg.Curve.{Curve, IsLawful, IsEncoded}
use adkg.Coin.{
  slice, slice_from, read, done, failed, Unpack, hash, generate_proof, coin_data, unpack, verify,
}

-- The middle one of three parts
pub slice-append :
    (lo hi : ℕ) (a b t : Text)
    → length a ≡ lo
    → length b + lo ≡ hi
    → slice lo hi (a ++ (b ++ t)) ≡ some b
unfolding slice
slice-append lo hi a b t ea eb =
    let enough : leb hi (length (a ++ (b ++ t))) ≡ true =
      ground (arith, length-append a (b ++ t), length-append b t) in
    let rest : drop lo (a ++ (b ++ t)) ≡ b ++ t = rw (← ea) (drop-length a (b ++ t)) in
    let size : hi - lo ≡ length b = omega arith in rw (enough, rest, size, take-length b t) refl

pub slice_from-append : (lo : ℕ) (a b : Text) → length a ≡ lo → slice_from lo (a ++ b) ≡ some b
unfolding slice_from
slice_from-append lo a b e =
    let enough : leb lo (length (a ++ b)) ≡ true = ground (arith, length-append a b) in
    let rest : drop lo (a ++ b) ≡ b = rw (← e) (drop-length a b) in rw (enough, rest) refl

module _ (c : Curve) (law : IsLawful c 33) where
  -- Four parts of the lengths that `unpack` expects are read back.
  unpack-append :
      (z : c.Scalar) (h t gi : c.Point)
      → unpack c ((c.scalar_bytes z ++ (c.point_bytes h ++ c.point_bytes t)) ++ c.point_bytes gi)
        ≡ done (record { z = z; h = h; h_tilde = t; g_i_tilde = gi })
  unfolding unpack read
  unpack-append z h t gi =
      let zb = c.scalar_bytes z in
      let hb = c.point_bytes h in
      let tb = c.point_bytes t in
      let gb = c.point_bytes gi in
      let lz = law.encoded.scalar_length z in
      let lh = law.encoded.point_length h in
      let lt = law.encoded.point_length t in
      let m = (zb ++ (hb ++ tb)) ++ gb in
      let e1 : m ≡ zb ++ ((hb ++ tb) ++ gb) = append_assoc zb (hb ++ tb) gb in
      let e2 : m ≡ zb ++ (hb ++ (tb ++ gb)) = e1 ∙ ap (◌++◌ zb) (append_assoc hb tb gb) in
      let e3 : m ≡ (zb ++ hb) ++ (tb ++ gb) = e2 ∙ sym (append_assoc zb hb (tb ++ gb)) in
      let s1 : slice 0 32 m ≡ some zb =
        rw e1 (slice-append 0 32 [] zb ((hb ++ tb) ++ gb) refl (omega (arith, lz))) in
      let s2 : slice 32 65 m ≡ some hb =
        rw e2 (slice-append 32 65 zb hb (tb ++ gb) lz (omega (arith, lh))) in
      let s3 : slice 65 98 m ≡ some tb = rw e3 (
        slice-append 65 98 (zb ++ hb) tb gb (omega (arith, length-append zb hb, lz, lh))
          (omega (arith, lt))) in
      let s4 : slice_from 98 m ≡ some gb =
        slice_from-append 98 (zb ++ (hb ++ tb)) gb
          (omega (arith, length-append zb (hb ++ tb), length-append hb tb, lz, lh, lt)) in
      rw
        (
          unpack,
          s1,
          read,
          law.encoded.read_scalar z,
          s2,
          read,
          law.encoded.read_point h,
          s3,
          read,
          law.encoded.read_point t,
          s4,
          read,
          law.encoded.read_point gi,
        )
        refl

  -- `h` of a proof is what `verify` computes from the answer `z`.
  opens :
      (p : c.Point) (x challenge s : c.Scalar)
      → c.sub (c.mul p (c.mul_add x challenge s)) (c.mul (c.mul p x) challenge) ≡ c.mul p s
  opens p x challenge s =
      rw (law.module_laws.mul-mul_add p x challenge s)
        (law.module_laws.sub-add (c.mul (c.mul p x) challenge) (c.mul p s))

  -- A coin message that a node puts together from its share `x` and any random `s` is read back without
  -- an error or a panic, holds the node's share of the coin, and is verified against the public key of
  -- the share, over any lawful curve and with any hash function.
  pub coin_accepted :
      (sha256 : Text → Text) (g g_tilde : c.Point) (x s : c.Scalar)
      → (u : Unpack c) × (unpack c (coin_data c sha256 g g_tilde x s) ≡ done u)
        × (u.g_i_tilde ≡ c.mul g_tilde x)
        × (verify c sha256 u g g_tilde (c.mul g x) ≡ true)
  unfolding coin_data generate_proof verify
  coin_accepted sha256 g g_tilde x s =
      let challenge =
        hash c sha256 g (c.mul g s) g_tilde (c.mul g_tilde s) (c.mul g x) (c.mul g_tilde x) in
      (
        record {
          z = c.mul_add x challenge s;
          h = c.mul g s;
          h_tilde = c.mul g_tilde s;
          g_i_tilde = c.mul g_tilde x;
        },
        unpack-append (c.mul_add x challenge s) (c.mul g s) (c.mul g_tilde s) (c.mul g_tilde x),
        refl,
        rw
            (
              verify,
              opens g x challenge s,
              opens g_tilde x challenge s,
              law.module_laws.equal_self (c.mul g s),
              law.module_laws.equal_self (c.mul g_tilde s),
            )
            refl,
      )

-- On a curve whose points have 32 bytes, as on ed25519, and are read from no other number of bytes, the
-- message that a node makes of its share is read with an error, whatever the share is.
pub coin_unreadable :
    (c : Curve) (encoded : IsEncoded c 32) (sha256 : Text → Text) (g g_tilde : c.Point)
    (x s : c.Scalar)
    → ((t : Text) → length t ≢ 32 → c.point_of_bytes t ≡ none)
    → unpack c (coin_data c sha256 g g_tilde x s) ≡ failed
unfolding unpack coin_data generate_proof slice read
coin_unreadable c encoded sha256 g g_tilde x s strict =
    let challenge =
      hash c sha256 g (c.mul g s) g_tilde (c.mul g_tilde s) (c.mul g x) (c.mul g_tilde x) in
    let zb = c.scalar_bytes (c.mul_add x challenge s) in
    let hb = c.point_bytes (c.mul g s) in
    let tb = c.point_bytes (c.mul g_tilde s) in
    let gb = c.point_bytes (c.mul g_tilde x) in
    let m = (zb ++ (hb ++ tb)) ++ gb in
    let size : length m ≡ 128 = omega (
      arith,
      length-append (zb ++ (hb ++ tb)) gb,
      length-append zb (hb ++ tb),
      length-append hb tb,
      encoded.scalar_length (c.mul_add x challenge s),
      encoded.point_length (c.mul g s),
      encoded.point_length (c.mul g_tilde s),
      encoded.point_length (c.mul g_tilde x),
    ) in
    let part = take 33 (drop 32 m) in
    let whole : leb 65 (length m) ≡ true = ground arith in
    let odd : length part ≡ 33 =
      length-take 33 (drop 32 m) (omega (arith, length-drop 32 m, size)) in
    let refused : c.point_of_bytes part ≡ none = strict part (omega arith) in
    let s1 : slice 0 32 m ≡ some zb = rw (append_assoc zb (hb ++ tb) gb) (
      slice-append 0 32 [] zb ((hb ++ tb) ++ gb) refl
        (omega (arith, encoded.scalar_length (c.mul_add x challenge s)))) in
    let s2 : slice 32 65 m ≡ some part = rw (slice, whole) refl in
    rw (unpack, s1, read, encoded.read_scalar (c.mul_add x challenge s), s2, read, refused) refl
