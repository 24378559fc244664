-- ===== src/Pkcs7.antt =====
-- keygen/common/acss/acss.go: the PKCS#7 padding around the erasure code.
pub mod Examples
pub mod RoundTrip
use adkg.Base.{
  ℕ, zero, suc, ◌+◌, ◌-◌, ◌%◌, Bool, true, false, not, ◌&&◌, ◌||◌, List, [], ◌∷◌, ◌++◌, leb, ltb,
  nat_beq, if◌then◌else◌, length, take, drop, replicate, get_elem?, Option, none, some,
}

pub data Error : Type 0 where
  invalid_block_size invalid_data invalid_padding : Error

pub data Result : Type 0 where
  ok : List ℕ → Result
  err : Error → Result

-- `pkcs7Pad`; the size of a block is an `int` that is not negative.
unfoldable pub pkcs7_pad : List ℕ → ℕ → Result
pkcs7_pad b blocksize =
    if leb blocksize 0
    then err invalid_block_size
    else if nat_beq (length b) 0
    then err invalid_data
    else (let n = blocksize - length b % blocksize in ok (b ++ replicate n (n % 256)))

-- `for i := 0; i < n; i++ { if b[len(b)-n+i] != c … }`, over the last `n` bytes
all_equal : ℕ → List ℕ → Bool
all_equal c [] = true
all_equal c (x ∷ xs) = nat_beq x c && all_equal c xs

-- `b[len(b)-1]` of a slice that is not empty
last_byte : List ℕ → ℕ
last_byte [] = 0
last_byte (x ∷ []) = x
last_byte (x ∷ y ∷ xs) = last_byte (y ∷ xs)

-- `pkcs7Unpad`
unfoldable pub pkcs7_unpad : List ℕ → ℕ → Result
unfolding all_equal last_byte
pkcs7_unpad b blocksize =
    if leb blocksize 0
    then err invalid_block_size
    else if nat_beq (length b) 0
    then err invalid_data
    else if not (nat_beq (length b % blocksize) 0)
    then err invalid_padding
    else (let n = last_byte b in
        if nat_beq n 0 || ltb (length b) n
        then err invalid_padding
        else if all_equal n (drop (length b - n) b)
        then ok (take (length b - n) b)
        else err invalid_padding)
