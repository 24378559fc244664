-- ===== src/Rounds.antt =====
-- common/adkg_common.go and common/adkg_shared.go: the identifiers of a key generation and of its
-- rounds, as byte strings. Of Go's library: `strings.Split` and `Join`, `strconv.Itoa` and `Atoi`,
-- `big.Int.Text` and `SetString`.
pub mod Examples
pub mod Numerals
pub mod Parts
pub mod Ids
use adkg.Base.{
  ℕ, zero, suc, ◌+◌, ◌-◌, ◌*◌, ◌/◌, ◌%◌, ◌^◌, Bool, true, false, ◌&&◌, Option, none, some, List, [],
  ◌∷◌, ◌++◌, ltb, leb, nat_beq, if◌then◌else◌, ◌==◌, text_eq, codes, ℤ, pos, neg,
}

abbrev pub Text : Type 0
Text = List ℕ

abbrev pub delimiter3 : ℕ
delimiter3 = 0x1e

abbrev pub delimiter4 : ℕ
delimiter4 = 0x1f

abbrev pub delimiter5 : ℕ
delimiter5 = 0x1a

abbrev pub adkg_word : Text
adkg_word = codes "ADKG"

abbrev pub ed25519 : Text
ed25519 = codes "ed25519"

abbrev pub secp256k1 : Text
secp256k1 = codes "secp256k1"

infixl 5 ◌>>=◌
abbrev pub ◌>>=◌ {ℓ κ} : {A : Type ℓ} {B : Type κ} → Option A → (A → Option B) → Option B
none >>= f = none
some a >>= f = f a

-- `strings.Split` at a separator of one byte
add_to_first : ℕ → List Text → List Text
add_to_first c [] = (c ∷ []) ∷ []
add_to_first c (p ∷ ps) = (c ∷ p) ∷ ps

unfoldable pub split : ℕ → Text → List Text
unfolding add_to_first
split sep [] = [] ∷ []
split sep (c ∷ s) =
    let rest = split sep s in if nat_beq c sep then [] ∷ rest else add_to_first c rest

unfoldable pub join : ℕ → List Text → Text
join sep [] = []
join sep (p ∷ []) = p
join sep (p ∷ q ∷ ps) = p ++ sep ∷ join sep (q ∷ ps)

digit_char : ℕ → ℕ
digit_char d = if ltb d 10 then b'0' + d else b'a' + (d - 10)

-- The digits of `n` in the base, most significant first; `n + 1` rounds are enough.
digits_loop : ℕ → ℕ → ℕ → Text → Text
unfolding digit_char
digits_loop zero base n out = out
digits_loop (suc fuel) base n out =
    let next = digit_char (n % base) ∷ out in
    let more = digits_loop fuel base (n / base) next in if nat_beq (n / base) 0 then next else more

-- `big.Int.Text(base)` of a number that is not negative
unfoldable pub text_of : ℕ → ℕ → Text
unfolding digits_loop
text_of base n = digits_loop (n + 1) base n []

-- `strconv.Itoa`
unfoldable pub itoa : ℕ → Text
unfolding text_of
itoa n = text_of 10 n

digit_value : ℕ → ℕ
digit_value c =
    if leb b'0' c && leb c b'9'
    then c - b'0'
    else if leb b'a' c && leb c b'z'
    then c - b'a' + 10
    else if leb b'A' c && leb c b'Z'
    then c - b'A' + 10
    else 99

scan : ℕ → Text → ℕ → Option ℕ
unfolding digit_value
scan base [] acc = some acc
scan base (c ∷ s) acc =
    let more = scan base s (acc * base + digit_value c) in
    if ltb (digit_value c) base then more else none

-- At least one digit
scan_number : ℕ → Text → Option ℕ
unfolding scan
scan_number base [] = none
scan_number base (c ∷ s) = scan base (c ∷ s) 0

-- `big.Int.SetString(s, base)`: digits, behind a sign or none
unfoldable pub set_string : ℕ → Text → Option ℤ
unfolding scan_number
set_string base [] = none
set_string base (c ∷ s) =
    if nat_beq c b'+'
    then (do n ← scan_number base s; some (pos n))
    else if nat_beq c b'-'
    then (do n ← scan_number base s; some (neg n))
    else (do n ← scan_number base (c ∷ s); some (pos n))

-- The range of `int`
in_range : ℤ → Bool
in_range (ℤ.pos n) = ltb n (2 ^ 63)
in_range (ℤ.negsuc n) = ltb n (2 ^ 63)

-- `strconv.Atoi`: `none` is its error, for bad syntax and for a value out of range.
unfoldable pub atoi : Text → Option ℤ
unfolding set_string in_range
atoi s = do z ← set_string 10 s; if in_range z then some z else none

-- `NewADKGID`, for an index that is not negative
unfoldable pub new_adkg_id : ℕ → Text → Text
unfolding join text_of
new_adkg_id index curve =
    let base_str =
      if curve == ed25519 then join delimiter5 (adkg_word ∷ ed25519 ∷ []) else adkg_word in
    join delimiter3 (base_str ∷ text_of 16 index ∷ [])

-- `GenerateADKGID`
unfoldable pub generate_adkg_id : ℕ → Text
unfolding join text_of
generate_adkg_id index = join delimiter3 (adkg_word ∷ text_of 16 index ∷ [])

curve_of_parts : List Text → Option Text
curve_of_parts (_ ∷ []) = some secp256k1
curve_of_parts (_ ∷ name ∷ []) = if name == ed25519 then some ed25519 else none
curve_of_parts _ = none

curve_of_id : List Text → Option Text
unfolding curve_of_parts split
curve_of_id (s ∷ _ ∷ []) = curve_of_parts (split delimiter5 s)
curve_of_id _ = none

-- `(*ADKGID).GetCurve`
unfoldable pub get_curve : Text → Option Text
unfolding curve_of_id split
get_curve id = curve_of_id (split delimiter3 id)

index_of_id : List Text → Option ℤ
unfolding set_string
index_of_id (_ ∷ s ∷ []) = set_string 16 s
index_of_id _ = none

-- `(*ADKGID).GetIndex`
unfoldable pub get_index : Text → Option ℤ
unfolding index_of_id split
get_index id = index_of_id (split delimiter3 id)

pub record RoundDetails : Type 0 where
  pub adkg_id : Text
  pub dealer : ℤ
  pub kind : Text

-- `(*RoundDetails).ID` for a dealer that is not negative, and so `CreateRound`
unfoldable pub create_round : Text → ℕ → Text → Text
unfolding join itoa
create_round id dealer kind = join delimiter4 (id ∷ kind ∷ itoa dealer ∷ [])

details_of_parts : List Text → Option RoundDetails
unfolding atoi
details_of_parts (id ∷ kind ∷ s ∷ []) = do
  index ← atoi s
  some (record { adkg_id = id; dealer = index; kind = kind })
details_of_parts _ = none

-- `(*RoundDetails).FromID`
unfoldable pub from_id : Text → Option RoundDetails
unfolding details_of_parts split
from_id r = details_of_parts (split delimiter4 r)

-- `ADKGIDFromRoundID`
unfoldable pub adkg_id_from_round_id : Text → Option Text
unfolding from_id
adkg_id_from_round_id r = do d ← from_id r; some d.adkg_id

leader_of_parts : List Text → Option ℤ
unfolding set_string
leader_of_parts (_ ∷ _ ∷ s ∷ []) = set_string 16 s
leader_of_parts _ = none

-- `(*RoundID).Leader`
unfoldable pub leader : Text → Option ℤ
unfolding leader_of_parts split
leader r = leader_of_parts (split delimiter4 r)
