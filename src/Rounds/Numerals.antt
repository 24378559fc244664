-- ===== src/Rounds/Numerals.antt =====
-- Numbers printed in a base and read back in the same base or in another.
use native.Mathlib.Nat.{div-add-mod, mod-lt}
use native.Mathlib.Numerals.{add-one}
use adkg.Base.{
  ℕ, zero, suc, ◌+◌, ◌*◌, ◌/◌, ◌%◌, ◌≤◌, ◌<◌, ◌≡◌, ◌≢◌, refl, ◌↔◌, some, [], ◌∷◌, arith, nat_beq,
  if◌then◌else◌, All, pos, Bool-cases, inl, inr, lt→ltb, ap,
}
use adkg.Rounds.{Text, digit_char, digits_loop, text_of, digit_value, scan, scan_number, set_string}

abbrev pub IsPrinted : ℕ → Type 0
IsPrinted c = b'0' ≤ c

digit_value-digit_char : (d : ℕ) → d < 16 → digit_value (digit_char d) ≡ d
unfolding digit_value digit_char
digit_value-digit_char d h = ground arith

digit_char-IsPrinted : (d : ℕ) → IsPrinted (digit_char d)
unfolding digit_char
digit_char-IsPrinted d = ground arith

div-lt : (n b : ℕ) → 2 ≤ b → n / b ≢ 0 → n / b < n
div-lt n b two some_left = grind (arith, div-add-mod)

-- The number that the base-`b` digits of `n` stand for when they are read in base `r`.
abbrev pub reread : ℕ → ℕ → ℕ → ℕ → ℕ
reread zero b r n = 0
reread (suc fuel) b r n =
    let more = reread fuel b r (n / b) * r + n % b in if nat_beq (n / b) 0 then n % b else more

scan-digit_char :
    (r d a : ℕ) (out : Text)
    → d < r
    → r ≤ 16
    → scan r (digit_char d ∷ out) a ≡ scan r out (a * r + d)
unfolding scan
scan-digit_char r d a out h hex = rw (digit_value-digit_char d (omega arith), lt→ltb d r h)

module _ (b r : ℕ) (two : 2 ≤ b) (le : b ≤ r) (hex : r ≤ 16) where
  scan-digits_loop :
      (fuel n : ℕ) (out : Text)
      → n < fuel
      → scan r (digits_loop fuel b n out) 0 ≡ scan r out (reread fuel b r n)
  unfolding digits_loop
  scan-digits_loop zero n out h = absurd (omega arith)
  scan-digits_loop (suc fuel) n out h =
      let small : n % b < b = mod-lt n (omega arith) in
      let first = λ (a : ℕ). scan-digit_char r (n % b) a out (omega arith) hex in
      elim (Bool-cases (nat_beq (n / b) 0)) [
        | inl last ↦ rw (last, first 0) (ap (scan r out) (omega arith))
        | inr more ↦
            let falls = div-lt n b two (ground arith) in
            rw (more, scan-digits_loop fuel (n / b) (digit_char (n % b) ∷ out) (omega arith))
              (first (reread fuel b r (n / b)))
      ]

-- In the same base the number itself is read.
reread_self : (fuel b n : ℕ) → 2 ≤ b → n < fuel → reread fuel b b n ≡ n
reread_self zero b n two h = absurd (omega arith)
reread_self (suc fuel) b n two h = elim (Bool-cases (nat_beq (n / b) 0)) [
  | inl last ↦ rw last (grind (arith, div-add-mod n b))
  | inr more ↦
      let falls = div-lt n b two (ground arith) in
      rw (more, reread_self fuel b (n / b) two (omega arith)) (grind (arith, div-add-mod n b))
]

-- Decimal digits read as hexadecimal: the value is the same for one digit, and larger for more.
reread_hex-ge : (fuel n : ℕ) → n < fuel → n ≤ reread fuel 10 16 n
reread_hex-ge zero n h = absurd (omega arith)
reread_hex-ge (suc fuel) n h = ground (arith, reread_hex-ge fuel (n / 10))

pub reread_hex_lem :
    (fuel n : ℕ) → n < fuel → ((reread fuel 10 16 n ≡ n) ↔ (n < 10)) × (n ≤ reread fuel 10 16 n)
reread_hex_lem zero n h = absurd (omega arith)
reread_hex_lem (suc fuel) n h =
    let rest = reread_hex-ge fuel (n / 10) in ((λ e. ground arith, λ l. ground arith), ground arith)

digits_loop-IsPrinted :
    (fuel b n : ℕ) (out : Text) → All IsPrinted out → All IsPrinted (digits_loop fuel b n out)
unfolding digits_loop
digits_loop-IsPrinted zero b n out h = h
digits_loop-IsPrinted (suc fuel) b n out h =
    let next =
      digits_loop-IsPrinted fuel b (n / b) (digit_char (n % b) ∷ out)
        (digit_char-IsPrinted (n % b), h) in
    elim (Bool-cases (nat_beq (n / b) 0)) [
      | inl last ↦ rw last (digit_char-IsPrinted (n % b), h)
      | inr more ↦ rw more next
    ]

pub text_of-IsPrinted : (b n : ℕ) → All IsPrinted (text_of b n)
unfolding text_of
text_of-IsPrinted b n = digits_loop-IsPrinted (n + 1) b n [] tt

-- What is printed has a first digit.
digits_loop-ne-nil : (fuel b n c : ℕ) (out : Text) → digits_loop fuel b n (c ∷ out) ≢ []
unfolding digits_loop
digits_loop-ne-nil zero b n c out = λ e. cc
digits_loop-ne-nil (suc fuel) b n c out = elim (Bool-cases (nat_beq (n / b) 0)) [
  | inl last ↦ rw last (λ e. cc)
  | inr more ↦ rw more (digits_loop-ne-nil fuel b (n / b) (digit_char (n % b)) (c ∷ out))
]

text_of-ne-nil : (b n : ℕ) → text_of b n ≢ []
unfolding text_of digits_loop
text_of-ne-nil b n = rw add-one (elim (Bool-cases (nat_beq (n / b) 0)) [
  | inl last ↦ rw last (λ e. cc)
  | inr more ↦ rw more (digits_loop-ne-nil n b (n / b) (digit_char (n % b)) [])
])

set_string-printed :
    (r : ℕ) (s : Text) (n : ℕ)
    → s ≢ []
    → All IsPrinted s
    → scan r s 0 ≡ some n
    → set_string r s ≡ some (pos n)
unfolding set_string scan_number
set_string-printed r [] n ne h e = absurd (ne refl)
set_string-printed r (c ∷ s) n ne h e = ground arith

-- A printed number read back by `SetString`, in a base that is no smaller.
pub set_string-text_of :
    (b r n : ℕ)
    → 2 ≤ b
    → b ≤ r
    → r ≤ 16
    → set_string r (text_of b n) ≡ some (pos (reread (n + 1) b r n))
unfolding text_of scan
set_string-text_of b r n two le hex =
    set_string-printed r (text_of b n) _ (text_of-ne-nil b n) (text_of-IsPrinted b n)
      (scan-digits_loop b r two le hex (n + 1) n [] (omega arith))

pub set_string-text_of_self : (b n : ℕ) → 2 ≤ b → b ≤ 16 → set_string b (text_of b n) ≡ some (pos n)
set_string-text_of_self b n two hex =
    rw (set_string-text_of b b n two (omega arith) hex, reread_self (n + 1) b n two (omega arith))
