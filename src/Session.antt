-- ===== src/Session.antt =====
-- common/adkg_common.go: `ADKGSession`, what a node keeps of one key generation: the keysets, the
-- decisions and the progress flags. The shares, commitments and public keys beside them are in
-- KeyDerivation/Keys.
-- A map's key is an `int`, and so is each keyset, as the 64 bits of one.
use adkg.Base.{ℕ, ℤ, Bool, true, false, List, [], ◌∷◌, Map, int_beq, if◌then◌else◌}

pub record Session : Type 0 where
  pub keysets : Map ℤ ℕ
  pub proposals : Map ℤ ℕ
  pub own_keyset : ℕ
  pub decisions : Map ℤ ℕ
  pub aba_complete : Bool
  pub aba_started : List ℤ
  pub key_derivation_started : Bool

-- `DefaultADKGSession`
abbrev pub default_adkg_session : Session
default_adkg_session = record {
  keysets = [];
  proposals = [];
  own_keyset = 0;
  decisions = [];
  aba_complete = false;
  aba_started = [];
  key_derivation_started = false;
}

-- `Contains`, for a list of `int`
abbrev pub contains_int : List ℤ → ℤ → Bool
contains_int [] e = false
contains_int (a ∷ s) e = let rest = contains_int s e in if int_beq a e then true else rest
