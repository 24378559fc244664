-- ===== src/Pkcs7/RoundTrip.antt =====
-- Padding and unpadding with the same size of block.
use adkg.Base.{
  ℕ, zero, suc, ◌+◌, ◌-◌, ◌*◌, ◌/◌, ◌%◌, ◌<◌, ◌≡◌, ◌≢◌, refl, true, List, [], ◌∷◌, ◌++◌, arith,
  length, replicate, length-append, length-replicate, take-length, drop-length,
}
use adkg.Pkcs7.{ok, pkcs7_pad, pkcs7_unpad, all_equal, last_byte}
use native.Mathlib.Nat.{div-add-mod, mod-lt, mul-add, mul-mod_right}

last_byte-replicate : (n c : ℕ) → last_byte (replicate (suc n) c) ≡ c
unfolding last_byte
last_byte-replicate zero c = refl
last_byte-replicate (suc n) c = last_byte-replicate n c

last_byte-append : (b : List ℕ) (n c : ℕ) → last_byte (b ++ replicate (suc n) c) ≡ c
unfolding last_byte
last_byte-append [] n c = last_byte-replicate n c
last_byte-append (x ∷ []) n c = last_byte-replicate n c
last_byte-append (x ∷ y ∷ b) n c = last_byte-append (y ∷ b) n c

all_equal-replicate : (n c : ℕ) → all_equal c (replicate n c) ≡ true
unfolding all_equal
all_equal-replicate zero c = refl
all_equal-replicate (suc n) c = ground (arith, all_equal-replicate n c)

length-pos : (b : List ℕ) → b ≢ [] → 0 < length b
length-pos [] ne = absurd (ne refl)
length-pos (x ∷ b) ne = omega arith

padded-mod : (l s : ℕ) → 0 < s → (l + (s - l % s)) % s ≡ 0
padded-mod l s h =
    let small : l % s < s = mod-lt l h in
    let e : l + (s - l % s) ≡ s * (l / s + 1) =
      omega (arith, div-add-mod l s, mul-add s (l / s) 1) in
    rw e (mul-mod_right s (l / s + 1))

-- The padding is found at the end, whole, and taken off.
unpad-append :
    (b : List ℕ) (m s : ℕ)
    → 0 < s
    → (length b + suc m) % s ≡ 0
    → pkcs7_unpad (b ++ replicate (suc m) (suc m)) s ≡ ok b
unfolding pkcs7_unpad
unpad-append b m s h whole =
    let pad = replicate (suc m) (suc m) in
    let len : length (b ++ pad) ≡ length b + suc m =
      omega (arith, length-append b pad, length-replicate (suc m) (suc m)) in
    let left : length b + suc m - suc m ≡ length b = omega arith in
    rw (len, last_byte-append b m (suc m), whole)
      (rw (left, drop-length b pad, take-length b pad, all_equal-replicate (suc m) (suc m))
        (ground arith))

-- What `pkcs7Pad` pads, `pkcs7Unpad` gives back, for a message that is not empty and a block of 1 to
-- 255 bytes; the padding ends on a whole number of blocks.
pub pkcs7_unpad-pkcs7_pad :
    (b : List ℕ) (blocksize : ℕ)
    → b ≢ []
    → 0 < blocksize
    → blocksize < 256
    → (p : List ℕ) × (pkcs7_pad b blocksize ≡ ok p)
      × (length p % blocksize ≡ 0)
      × (pkcs7_unpad p blocksize ≡ ok b)
unfolding pkcs7_pad
pkcs7_unpad-pkcs7_pad b blocksize ne h lt =
    let n = blocksize - length b % blocksize in
    let small : length b % blocksize < blocksize = mod-lt (length b) h in
    let e : n ≡ suc (n - 1) = omega arith in
    let c : n % 256 ≡ n = omega arith in
    let whole : (length b + n) % blocksize ≡ 0 = padded-mod (length b) blocksize h in
    (
      b ++ replicate n n,
      rw c (ground (arith, length-pos b ne)),
      rw (length-append b (replicate n n), length-replicate n n) whole,
      rw e (unpad-append b (n - 1) blocksize h (rw (← e) whole)),
    )
