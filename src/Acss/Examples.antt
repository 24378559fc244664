-- ===== src/Acss/Examples.antt =====
-- A message of one byte, through the padding and a code that copies.
use adkg.Base.{◌≡◌, refl, sym, ap, Option, none, some, List, [], ◌∷◌, arith}
use adkg.Messages.{Text, Share}
use adkg.Runtime.Sample.{copying, block_of}
use adkg.Rbc.{SharingStore, default_keygen, decode_ready}
use adkg.Acss.{encode}
use adkg.Acss.Transfer.{decode_ready-encode}

abbrev shares : List Share
shares =
    record { number = 0; payload = 9 ∷ 1 ∷ [] }
    ∷ record { number = 1; payload = 9 ∷ 1 ∷ [] }
    ∷ record { number = 2; payload = 9 ∷ 1 ∷ [] }
    ∷ record { number = 3; payload = 9 ∷ 1 ∷ [] }
    ∷ []

abbrev store : SharingStore
store = record (default_keygen []) { ready_store = shares }

encoded : encode copying (9 ∷ []) ≡ some shares
unfolding encode adkg.Pkcs7.pkcs7_pad
encoded = refl

abbrev block_in : Option (List Share) → Option Text
block_in none = none
block_in (some s) = block_of s

decode_ready-encode_example : (decode_ready copying store).1 ≡ some (9 ∷ [])
decode_ready-encode_example =
    decode_ready-encode copying (9 ∷ []) shares store (λ e. cc) refl (omega arith)
      (λ block e. sym (ap block_in e)) encoded
