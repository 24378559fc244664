-- ===== src/Rbc/Delivery.antt =====
-- The ready message that completes a round.
use native.Mathlib.Numerals.{add-one}
use adkg.Base.{
  ℕ, suc, ◌+◌, ◌*◌, ◌≤◌, ◌≡◌, refl, true, false, some, [], ◌∷◌, ◌++◌, arith, leb, length, text_eq,
  length-append, ◌∙◌,
}
use adkg.Messages.{Text, Share, Message, receive}
use adkg.Runtime.{Runtime}
use adkg.Rbc.{
  SharingStore, received, amplify, record_ready, decode_ready, output_loop, on_ready, is_ended,
  set_ended,
}

amplify_kept :
    (rt : Runtime) (mk : Share → Text → Message) (s : SharingStore)
    → ((decode_ready rt (amplify rt mk s).0).1 ≡ (decode_ready rt s).1)
      × ((amplify rt mk s).0.state.phase ≡ s.state.phase)
      × ((amplify rt mk s).0.ready_store ≡ s.ready_store)
unfolding amplify decode_ready
amplify_kept rt mk s = ground arith

output_loop_first :
    (rt : Runtime) (mk : Text → Message) (hash m : Text) (rounds : ℕ) (s : SharingStore)
    → 2 * rt.f + 1 ≤ length s.ready_store
    → (decode_ready rt s).1 ≡ some m
    → rt.sha256 m ≡ hash
    → output_loop rt mk hash (suc rounds) 0 s
      ≡ (set_ended (decode_ready rt s).0, receive (mk m) ∷ [])
unfolding output_loop
output_loop_first rt mk hash m rounds s enough decoded named =
    let size : leb (2 * rt.f + 1 + 0) (length s.ready_store) ≡ true = ground arith in
    rw (size, decoded, (text_eq.beq_iff (rt.sha256 m) hash).1 named)

pub on_ready_delivers :
    (rt : Runtime) (new_ready : Share → Text → Message) (new_output : Text → Message) (sender : ℕ)
    (share : Share) (hash m : Text) (s : SharingStore)
    → received s.state.received_ready sender ≡ false
    → is_ended s.state.phase ≡ false
    → 2 * rt.f ≤ length s.ready_store
    → (decode_ready rt (record_ready sender share s)).1 ≡ some m
    → rt.sha256 m ≡ hash
    → let r = on_ready rt new_ready new_output sender share hash s in
      (is_ended r.0.state.phase ≡ true)
      × (r.1
          ≡ (amplify rt new_ready (record_ready sender share s)).1 ++ receive (new_output m) ∷ [])
unfolding on_ready set_ended record_ready is_ended
on_ready_delivers rt new_ready new_output sender share hash m s new running enough decoded named =
    let s0 = record_ready sender share s in
    let s1 = (amplify rt new_ready s0).0 in
    let k = amplify_kept rt new_ready s0 in
    let size = length-append s.ready_store (share ∷ []) in
    let loop =
      output_loop_first rt new_output hash m rt.f s1 (rw k.2 (omega arith)) (k.0 ∙ decoded) named in
    rw (new, k.1, running, add-one rt.f, loop) (refl, refl)
