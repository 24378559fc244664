-- ===== src/Rounds/Ids.antt =====
-- What the identifiers give back: the round trips of rounds and key generations, and the leader.
use adkg.Base.{
  List, sym, ap, ◌∙◌, ℕ, ◌+◌, ◌^◌, ◌≤◌, ◌<◌, ◌≡◌, ◌↔◌, some, [], ◌∷◌, ◌++◌, arith, ◌==◌, text_eq,
  if◌then◌else◌, lt→ltb, pos, Bool-cases, inl, inr,
}
use adkg.Rounds.{
  Text, delimiter3, delimiter4, delimiter5, adkg_word, ed25519, secp256k1, split, text_of, atoi,
  new_adkg_id, get_curve, get_index, curve_of_id, index_of_id, create_round, from_id,
  details_of_parts, leader, leader_of_parts, adkg_id_from_round_id,
}
use adkg.Rounds.Numerals.{
  reread, reread_hex_lem, text_of-IsPrinted, set_string-text_of, set_string-text_of_self,
}
use adkg.Rounds.Parts.{Lacks, split-append, split-Lacks, printed-Lacks, Lacks-join}

atoi-text_of : (n : ℕ) → n < 2 ^ 63 → atoi (text_of 10 n) ≡ some (pos n)
unfolding atoi
atoi-text_of n h =
    rw (set_string-text_of_self 10 n (omega arith) (omega arith), lt→ltb n (2 ^ 63) h)

abbrev first_part : List Text → Text
first_part [] = []
first_part (s ∷ _) = s

module _ (id kind : Text) (dealer : ℕ) (plain_id : Lacks delimiter4 id)
    (plain_kind : Lacks delimiter4 kind) where
  split-create_round :
      split delimiter4 (create_round id dealer kind) ≡ id ∷ kind ∷ text_of 10 dealer ∷ []
  unfolding create_round
  split-create_round = rw (
    split-append delimiter4 id (kind ++ delimiter4 ∷ text_of 10 dealer) plain_id,
    split-append delimiter4 kind (text_of 10 dealer) plain_kind,
    split-Lacks delimiter4 (text_of 10 dealer)
        (printed-Lacks delimiter4 _ (omega arith) (text_of-IsPrinted 10 dealer)),
  )

  -- A round identifier gives back what it was made of, when neither the key generation's identifier
  -- nor the kind holds the delimiter and the dealer is an `int`.
  pub from_id-create_round :
      dealer < 2 ^ 63
      → from_id (create_round id dealer kind)
        ≡ some (record { adkg_id = id; dealer = pos dealer; kind = kind })
  unfolding from_id
  from_id-create_round h = rw (split-create_round, details_of_parts, atoi-text_of dealer h)

  -- The key generation's identifier is found again in each of its rounds, when neither it nor the
  -- kind holds the delimiter and the dealer is an `int`.
  pub adkg_id_from_round_id-create_round :
      dealer < 2 ^ 63 → adkg_id_from_round_id (create_round id dealer kind) ≡ some id
  unfolding adkg_id_from_round_id
  adkg_id_from_round_id-create_round h = rw (from_id-create_round h)

  -- `Leader` reads the dealer that `CreateRound` wrote in decimal as a hexadecimal number: it gives
  -- back a number that is the dealer exactly when the dealer is below 10, and never a smaller one. The
  -- identifier and the kind are without the delimiter.
  pub leader-create_round :
      (m : ℕ) × (leader (create_round id dealer kind) ≡ some (pos m))
      × ((m ≡ dealer) ↔ (dealer < 10))
      × (dealer ≤ m)
  unfolding leader
  leader-create_round =
      let read = set_string-text_of 10 16 dealer (omega arith) (omega arith) (omega arith) in
      let value = reread_hex_lem (dealer + 1) dealer (omega arith) in
      (
        reread (dealer + 1) 10 16 dealer,
        rw (split-create_round, leader_of_parts, read),
        value.0,
        value.1,
      )

-- Rounds of two key generations have different identifiers.
pub create_round-injective :
    (id other kind sort : Text) (dealer leading : ℕ)
    → Lacks delimiter4 id
    → Lacks delimiter4 other
    → Lacks delimiter4 kind
    → Lacks delimiter4 sort
    → create_round id dealer kind ≡ create_round other leading sort
    → id ≡ other
create_round-injective id other kind sort dealer leading pi po pk ps e =
    let parts =
      sym (split-create_round id kind dealer pi pk)
      ∙ ap (split delimiter4) e
      ∙ split-create_round other sort leading po ps in
    ap first_part parts

-- The part of a key generation's identifier in front of the index
abbrev base_of : Text → Text
base_of curve = if curve == ed25519 then adkg_word ++ delimiter5 ∷ ed25519 else adkg_word

new_adkg_id-eq :
    (index : ℕ) (curve : Text)
    → new_adkg_id index curve ≡ base_of curve ++ delimiter3 ∷ text_of 16 index
unfolding new_adkg_id
new_adkg_id-eq index curve = elim (Bool-cases (curve == ed25519)) [ inl e ↦ rw e | inr e ↦ rw e ]

base_of-Lacks : (curve : Text) → Lacks delimiter3 (base_of curve) × Lacks delimiter4 (base_of curve)
base_of-Lacks curve = elim (Bool-cases (curve == ed25519)) [
  | inl e ↦ rw e (omega arith)
  | inr e ↦ rw e (omega arith)
]

index-Lacks : (sep index : ℕ) → sep < b'0' → Lacks sep (text_of 16 index)
index-Lacks sep index h = printed-Lacks sep _ h (text_of-IsPrinted 16 index)

split-new_adkg_id :
    (index : ℕ) (curve : Text)
    → split delimiter3 (new_adkg_id index curve) ≡ base_of curve ∷ text_of 16 index ∷ []
split-new_adkg_id index curve = rw (
  new_adkg_id-eq index curve,
  split-append delimiter3 (base_of curve) (text_of 16 index) (base_of-Lacks curve).0,
  split-Lacks delimiter3 (text_of 16 index) (index-Lacks delimiter3 index (omega arith)),
)

-- `NewADKGID` writes an identifier from which `GetIndex` and `GetCurve` read back the index and the
-- curve; a name other than ed25519 reads back as secp256k1.
pub new_adkg_id_parts :
    (index : ℕ) (curve : Text)
    → (get_index (new_adkg_id index curve) ≡ some (pos index))
      × (get_curve (new_adkg_id index curve)
          ≡ some (if curve == ed25519 then ed25519 else secp256k1))
unfolding get_index get_curve
new_adkg_id_parts index curve = (
  rw (split-new_adkg_id index curve, index_of_id)
      (set_string-text_of_self 16 index (omega arith) (omega arith)),
  rw (split-new_adkg_id index curve, curve_of_id)
      (elim (Bool-cases (curve == ed25519)) [ inl e ↦ rw e | inr e ↦ rw e ]),
)

new_adkg_id-Lacks : (index : ℕ) (curve : Text) → Lacks delimiter4 (new_adkg_id index curve)
new_adkg_id-Lacks index curve = rw (new_adkg_id-eq index curve) (
    Lacks-join delimiter4 delimiter3 (base_of curve) (text_of 16 index) (λ e. omega arith)
      (base_of-Lacks curve).1 (index-Lacks delimiter4 index (omega arith)))

-- Of a round of a key generation that `NewADKGID` named, `FromID` finds the key generation, the kind
-- and the dealer, for a kind that does not hold the delimiter.
pub from_id-new_adkg_id :
    (index : ℕ) (curve kind : Text) (dealer : ℕ)
    → Lacks delimiter4 kind
    → dealer < 2 ^ 63
    → from_id (create_round (new_adkg_id index curve) dealer kind)
      ≡ some (record { adkg_id = new_adkg_id index curve; dealer = pos dealer; kind = kind })
from_id-new_adkg_id index curve kind dealer plain h =
    from_id-create_round (new_adkg_id index curve) kind dealer (new_adkg_id-Lacks index curve) plain
      h
