-- ===== src/Runtime/Sample.antt =====
-- A runtime to try handlers with: the hash functions are the identity, and the erasure code puts the
-- whole block into each share.
use adkg.Base.{Option, none, some, List, [], ◌∷◌}
use adkg.Messages.{Text, Share}
use adkg.Runtime.{Runtime}

abbrev pub block_of : List Share → Option Text
block_of [] = none
block_of (s ∷ _) = some s.payload

abbrev pub copying : Runtime
copying = record {
  n = 4;
  k = 2;
  f = 1;
  self = 1;
  nodes = 1 ∷ 2 ∷ 3 ∷ 4 ∷ [];
  keccak256 = λ t. t;
  sha256 = λ t. t;
  encode = λ k n t. some (
      record { number = 0; payload = t }
      ∷ record { number = 1; payload = t }
      ∷ record { number = 2; payload = t }
      ∷ record { number = 3; payload = t }
      ∷ []);
  decode = λ k n s. (s, block_of s);
  walk = λ m. m;
}
