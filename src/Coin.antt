-- ===== src/Coin.antt =====
-- The share of a coin: what keygen/message_handlers/aba/coin_init_handler.go puts together and what
-- keygen/message_handlers/aba/coin_handler.go takes apart and verifies, with `Hash` of
-- keygen/common/aba/aba.go. `g` is the generator of `CurveParams`.
pub mod Acceptance
pub mod Handlers
pub mod Counted
pub mod Examples
use adkg.Base.{
  ◌≡◌, refl, ◌⊎◌, inl, inr, ℕ, ◌-◌, Bool, true, false, ◌&&◌, Option, none, some, List, [], ◌∷◌,
  ◌++◌, leb, if◌then◌else◌, length, take, drop,
}
use adkg.Messages.{Text}
use adkg.Curve.{Curve}

-- `msg[lo:hi]`; `none` is the panic on a slice that has neither the length nor spare capacity.
unfoldable pub slice : ℕ → ℕ → Text → Option Text
slice lo hi msg = if leb hi (length msg) then some (take (hi - lo) (drop lo msg)) else none

-- `msg[lo:]`
unfoldable pub slice_from : ℕ → Text → Option Text
slice_from lo msg = if leb lo (length msg) then some (drop lo msg) else none

-- The result of a function that may also return an error or panic
pub data Outcome (A : Type 0) : Type 0 where
  done : A → Outcome A
  failed panics : Outcome A

pub Outcome-cases :
    {A : Type 0} (o : Outcome A) → ((a : A) × (o ≡ done a)) ⊎ ((o ≡ failed) ⊎ (o ≡ panics))
Outcome-cases (done a) = inl (a, refl)
Outcome-cases failed = inr (inl refl)
Outcome-cases panics = inr (inr refl)

-- `decode(msg[lo:hi])`, and its value to the rest
unfoldable pub read : {A B : Type 0} → Option Text → (Text → Option A) → (A → Outcome B) → Outcome B
read none decode rest = panics
read (some t) decode rest = elim (decode t) [ none ↦ failed | some a ↦ rest a ]

module _ (c : Curve) (sha256 : Text → Text) where
  -- `Hash` of keygen/common/aba/aba.go
  unfoldable pub hash : (g h g_tilde h_tilde g_i g_i_tilde : c.Point) → c.Scalar
  hash g h g_tilde h_tilde g_i g_i_tilde = c.hash_to_scalar (
      sha256 (
        c.point_bytes g
        ++ (c.point_bytes g_i
            ++ (c.point_bytes h
                ++ (c.point_bytes g_tilde ++ (c.point_bytes g_i_tilde ++ c.point_bytes h_tilde))))))

  -- `generateProof`, for the random scalar `s`
  unfoldable pub generate_proof : (g g_tilde : c.Point) → (x_i s : c.Scalar) → Text
  unfolding hash
  generate_proof g g_tilde x_i s =
      let h = c.mul g s in
      let h_tilde = c.mul g_tilde s in
      let challenge = hash g h g_tilde h_tilde (c.mul g x_i) (c.mul g_tilde x_i) in
      let z = c.mul_add x_i challenge s in
      c.scalar_bytes z ++ (c.point_bytes h ++ c.point_bytes h_tilde)

  -- The data of a coin message in `CoinInitMessage.Process`
  unfoldable pub coin_data : (g g_tilde : c.Point) → (u_ji s : c.Scalar) → Text
  coin_data g g_tilde u_ji s = generate_proof g g_tilde u_ji s ++ c.point_bytes (c.mul g_tilde u_ji)

pub record Unpack (c : Curve) : Type 0 where
  pub z : c.Scalar
  pub h : c.Point
  pub h_tilde : c.Point
  pub g_i_tilde : c.Point

module _ (c : Curve) where
  unfoldable pub unpack : Text → Outcome (Unpack c)
  unpack msg = read (slice 0 32 msg) c.scalar_of_bytes λ z.
      read (slice 32 65 msg) c.point_of_bytes λ h.
        read (slice 65 98 msg) c.point_of_bytes λ h_tilde.
          read (slice_from 98 msg) c.point_of_bytes
            λ g_i_tilde. done (record { z = z; h = h; h_tilde = h_tilde; g_i_tilde = g_i_tilde })

  unfoldable pub verify : (sha256 : Text → Text) → Unpack c → (g g_tilde g_i : c.Point) → Bool
  unfolding hash
  verify sha256 u g g_tilde g_i =
      let c_bar = hash c sha256 g u.h g_tilde u.h_tilde g_i u.g_i_tilde in
      let h_bar = c.sub (c.mul g u.z) (c.mul g_i c_bar) in
      let h_tilde_bar = c.sub (c.mul g_tilde u.z) (c.mul u.g_i_tilde c_bar) in
      c.equal u.h h_bar && c.equal u.h_tilde h_tilde_bar
