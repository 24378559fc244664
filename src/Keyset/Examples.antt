-- ===== src/Keyset/Examples.antt =====
-- A session in which the sharings of the dealers 1 and 2 have ended.
use adkg.Base.{ℕ, ◌≡◌, ◌↔◌, refl, true, false, some, List, [], ◌∷◌, ◌++◌, arith, pos, int_eq}
use adkg.Base.Maps.{lookup, insert}
use adkg.Messages.{Effect, receive, send}
use adkg.Runtime.Sample.{copying}
use adkg.Bitset.{has_bit, int_to_byte_value, byte_to_int_value, predicate}
use adkg.Session.{Session, default_adkg_session}
use adkg.Aba.{new_init_message}
use adkg.Keyset.{on_propose, on_output, on_keyset_verified, send_shares, new_echo_message}
use adkg.Keyset.Proposals.{IsSupported, on_propose-IsSupported, on_output_votes}

abbrev session : Session
session = record default_adkg_session { own_keyset = 6 }

session-IsSupported : IsSupported session
unfolding lookup
session-IsSupported = record { bound = omega arith; subset = λ d a e. cc }

abbrev proposed : Session
proposed = record session { keysets = (pos 2, 4) ∷ [] }

-- What goes to the node of the share with the number
abbrev share_sent : (node number : ℕ) → Effect
share_sent node number = send node (
    new_echo_message []
      (record { number = number; payload = 0 ∷ 0 ∷ 0 ∷ 0 ∷ 0 ∷ 0 ∷ 0 ∷ 4 ∷ 2 ∷ 2 ∷ [] })
      (int_to_byte_value 4) [])

abbrev shares_sent : List Effect
shares_sent = share_sent 1 0 ∷ share_sent 2 1 ∷ share_sent 3 2 ∷ share_sent 4 3 ∷ []

proposal_test :
    on_propose copying 2 [] [] (int_to_byte_value 4) session ≡ some (proposed, shares_sent)
unfolding on_propose on_keyset_verified send_shares predicate byte_to_int_value int_to_byte_value
    insert adkg.Acss.encode adkg.Pkcs7.pkcs7_pad
proposal_test = refl

on_propose-IsSupported_example : IsSupported proposed
on_propose-IsSupported_example =
    on_propose-IsSupported copying 2 [] [] (int_to_byte_value 4) session proposed shares_sent
      session-IsSupported proposal_test

on_output_votes_example :
    (v : ℕ) × (on_output (pos 2) [] [] (int_to_byte_value 4) session
      ≡ some (
        record session { aba_started = [] ++ pos 2 ∷ [] },
        receive (new_init_message [] v 0 []) ∷ [],
      ))
    × ((v ≡ 1)
        ↔ (((p : ℕ) → has_bit 4 p ≡ true → has_bit 6 p ≡ true) × (session.aba_complete ≡ false)))
on_output_votes_example = on_output_votes (pos 2) [] [] 4 session (omega arith) refl
