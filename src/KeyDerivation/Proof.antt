-- ===== src/KeyDerivation/Proof.antt =====
-- keygen/message_handlers/keyderivation: the proof that a node sends with its share of the public key
-- (init_handler.go), and its check (share_handler.go). `g` and `h` are those of `CurveParams`.
use adkg.Base.{ℕ, ℤ, ◌&&◌, Option, none, some, [], ◌∷◌, ◌++◌, Map, text_eq, ◌==◌, if◌then◌else◌}
use adkg.Messages.{Text}
use adkg.Rounds.{ed25519}
use adkg.Curve.{Curve}
use adkg.Coin.{slice, slice_from, Outcome, done, failed, read, hash}
use adkg.KeyDerivation.{union, agreed_keysets}
use adkg.KeyDerivation.Keys.{PubKeyShare, KeySession, sum_shares}

abbrev pub point_size : (name : Text) → ℕ
point_size name = if name == ed25519 then 32 else 33

module _ (c : Curve) (sha256 : Text → Text) (g h : c.Point) where
  -- The part of `InitMessage.Process` that makes the message, for the random scalar `k_rand`
  unfoldable pub prove_share : (z k_rand : c.Scalar) → PubKeyShare
  prove_share z k_rand =
      let g_zi = c.mul g z in
      let h_zi = c.mul h z in
      let a = c.mul g k_rand in
      let b = c.mul h k_rand in
      let challenge = hash c sha256 g g_zi h h_zi a b in
      record {
        r = c.point_bytes a ++ c.point_bytes b;
        s = c.scalar_bytes (c.negate (c.minus (c.times challenge z) k_rand));
        share = c.point_bytes h_zi;
      }

  -- `InitMessage.Process` behind its lock, for decisions in the order of the range: the message that is
  -- broadcast, or none
  unfoldable pub on_derivation_init :
      (n : ℕ) → (walked : Map ℤ ℕ) → (k_rand : c.Scalar) → KeySession c → Option PubKeyShare
  unfolding prove_share
  on_derivation_init n walked k_rand ss = elim (union (agreed_keysets n walked ss.session)) [
    | [] ↦ none
    | j ∷ t ↦ some (prove_share (sum_shares c ss.shares c.zero_scalar (j ∷ t)) k_rand)
  ]

  -- `VerifyShare`
  unfoldable pub verify_proof : (name : Text) → (g_zj : c.Point) → PubKeyShare → Outcome c.Point
  verify_proof name g_zj m = read (some m.s) c.scalar_of_bytes λ s_bar.
      read (slice 0 (point_size name) m.r) c.point_of_bytes λ a_bar.
        read (slice_from (point_size name) m.r) c.point_of_bytes λ b_bar.
          read (some m.share) c.point_of_bytes λ h_zj.
            let c_bar = hash c sha256 g g_zj h h_zj a_bar b_bar in
            let a_dash = c.add (c.mul g s_bar) (c.mul g_zj c_bar) in
            let b_dash = c.add (c.mul h s_bar) (c.mul h_zj c_bar) in
            if c.equal a_bar a_dash && c.equal b_bar b_dash then done h_zj else failed
