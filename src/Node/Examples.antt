-- ===== src/Node/Examples.antt =====
-- The end of one of two key generations.
use adkg.Base.{Map, ◌⊎◌, ◌-◌}
use adkg.Node.Tracker.{cutoff_period, is_older, remove_expired, expired_removed}
use adkg.Node.Removal.{AreGone}
use adkg.Base.{◌↔◌, Option, none, some, codes}
use adkg.Node.Dispatch.{Kind, message_type, processed, process_message, processed_by_own}
use adkg.Base.{ℕ, ◌≡◌, ◌≢◌, refl, [], ◌∷◌, arith, codes, some, text_eq, true, false}
use adkg.Base.Maps.{lookup}
use adkg.Messages.{Text}
use adkg.Rounds.{create_round}
use adkg.Runtime.Sample.{copying}
use adkg.Session.{default_adkg_session}
use adkg.Rbc.{default_keygen}
use adkg.Node.{NodeState, acss_kind, keyset_kind, cleanup}
use adkg.Node.Cleanup.{IsClosed, IsSilentBroadcast, IsSilentAgreement, cleanup_silences}
use adkg.Node.Frame.{cleanup_frame}

abbrev first_id : Text
first_id = codes "a"

abbrev second_id : Text
second_id = codes "b"

abbrev state : NodeState ℕ
state = record {
  keygen_store = (codes "x", some (default_keygen (codes "x"))) ∷ [];
  session_store = (second_id, some default_adkg_session) ∷ [];
  aba_store = [];
}

cleanup_silences_example :
    let t = cleanup (1 ∷ 2 ∷ []) first_id state in
    IsClosed t.session_store first_id
    × IsSilentBroadcast copying t.keygen_store
        (create_round first_id 2 acss_kind)
        (create_round first_id 2 keyset_kind)
    × IsSilentAgreement copying t.aba_store (create_round first_id 2 keyset_kind)
cleanup_silences_example = cleanup_silences copying (1 ∷ 2 ∷ []) first_id 2 state refl

ids_differ : first_id ≢ second_id
ids_differ e = let h : false ≡ true = (text_eq.beq_iff first_id second_id).1 e in cc

cleanup_frame_example :
    let t = cleanup (1 ∷ 2 ∷ []) first_id state in
    let q = create_round second_id 2 acss_kind in
    (lookup q t.keygen_store ≡ lookup q state.keygen_store)
    × (lookup q t.aba_store ≡ lookup q state.aba_store)
    × (lookup second_id t.session_store ≡ lookup second_id state.session_store)
cleanup_frame_example =
    cleanup_frame first_id second_id acss_kind 2 ids_differ (omega arith) (omega arith)
      (omega arith) (1 ∷ 2 ∷ []) state

-- A reader of bodies that wants at least one byte
abbrev first_byte : Kind → Text → Option ℕ
first_byte kind [] = none
first_byte kind (b ∷ t) = some b

processed_by_own_example :
    (process_message first_byte (codes "aba_coin") (7 ∷ []) ≡ processed Kind.aba_coin 7) ↔ (
      (codes "aba_coin" ≡ message_type Kind.aba_coin)
      × (first_byte Kind.aba_coin (7 ∷ []) ≡ some 7))
processed_by_own_example = processed_by_own first_byte (codes "aba_coin") (7 ∷ []) Kind.aba_coin 7

-- The second key generation was started at 1000, the first at 600, and now it is 1200.
abbrev tracked : Map Text ℕ
tracked = (first_id, 600) ∷ (second_id, 1000) ∷ []

expired_removed_example :
    let r = remove_expired (1 ∷ 2 ∷ []) 1200 tracked state in
    ((is_older (1200 - cutoff_period) tracked first_id ≡ true)
      × (lookup first_id r.0 ≡ none)
      × (lookup first_id r.1.session_store ≡ none)
      × AreGone first_id 2 r.1)
    ⊎ ((is_older (1200 - cutoff_period) tracked first_id ≡ false)
        × (lookup first_id r.0 ≡ lookup first_id tracked)
        × (lookup first_id r.1.session_store ≡ lookup first_id state.session_store))
expired_removed_example = expired_removed (1 ∷ 2 ∷ []) 1200 tracked state first_id 2 refl
