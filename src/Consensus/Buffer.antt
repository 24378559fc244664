-- ===== src/Consensus/Buffer.antt =====
-- Which key generations the end of a block starts.
use adkg.Base.{
  ℕ, zero, suc, ◌+◌, ◌-◌, ◌/◌, ◌<◌, ◌≡◌, refl, ap, ◌&&◌, ◌∙◌, none, some, List, [], ◌∷◌, ltb,
  length, get_elem?, All, append-nil, if◌then◌else◌, Bool-cases, inl, inr, arith,
}
use adkg.Rounds.{Text, secp256k1, ed25519, create_round, generate_adkg_id, new_adkg_id}
use adkg.Consensus.{Counters, Abci}
use adkg.Consensus.Blocks.{
  ShareRequest, start_keygens, fill_buffer, end_block, max_key_init, min_of, acss_word,
}

zero_after : (i : ℕ) → i + 0 ≡ i
zero_after i = omega arith

nil_of_length {ℓ} : {A : Type ℓ} (l : List A) → length l ≡ 0 → l ≡ []
nil_of_length [] h = refl
nil_of_length (x ∷ l) h = absurd (omega arith)

module _ (name : ℕ → Text) (curve : Text) (self : ℕ) where
  -- The request for an index
  abbrev pub request : ℕ → ShareRequest
  request i = record { round = create_round (name i) self acss_word; curve = curve }

  start_keygens-elem :
      (left i t : ℕ)
      → get_elem? (start_keygens name curve self left i) t
        ≡ (if ltb t left then some (request (i + t)) else none)
  unfolding start_keygens
  start_keygens-elem zero i t = ground arith
  start_keygens-elem (suc left) i zero = ground (arith, ap request (zero_after i))
  start_keygens-elem (suc left) i (suc t) =
      let e : i + 1 + t ≡ i + suc t = omega arith in
      ground (arith, start_keygens-elem left (i + 1) t, ap request e)

  -- The requests of a block for a curve are those for the indices from the last created one on, in order,
  -- below both the limit of the block and the buffer behind the last assigned key.
  pub get_elem?-fill_buffer :
      (limit buffer : ℕ) (c : Counters) (t : ℕ)
      → get_elem? (fill_buffer name curve self limit buffer c) t ≡ (
          if ltb t limit && ltb (c.last_created_index + t) (c.last_unassigned_index + buffer)
          then some (request (c.last_created_index + t))
          else none)
  unfolding fill_buffer
  get_elem?-fill_buffer limit buffer c t =
      let n = min_of (c.last_created_index + limit) (c.last_unassigned_index + buffer) in
      ground (arith, start_keygens-elem (n - c.last_created_index) c.last_created_index t)

  start_keygens-curve :
      (left i : ℕ) → All (λ r. r.curve ≡ curve) (start_keygens name curve self left i)
  unfolding start_keygens
  start_keygens-curve zero i = tt
  start_keygens-curve (suc left) i = (refl, start_keygens-curve left (i + 1))

  length-start_keygens : (left i : ℕ) → length (start_keygens name curve self left i) ≡ left
  unfolding start_keygens
  length-start_keygens zero i = refl
  length-start_keygens (suc left) i = ap suc (length-start_keygens left (i + 1))

  fill_buffer-curve :
      (limit buffer : ℕ) (c : Counters)
      → All (λ r. r.curve ≡ curve) (fill_buffer name curve self limit buffer c)
  unfolding fill_buffer
  fill_buffer-curve limit buffer c =
      let n = min_of (c.last_created_index + limit) (c.last_unassigned_index + buffer) in
      elim (Bool-cases (ltb c.last_created_index (c.last_unassigned_index + buffer))) [
        | inl room ↦ rw room (start_keygens-curve (n - c.last_created_index) c.last_created_index)
        | inr full ↦ rw full tt
      ]

  length-fill_buffer :
      (limit buffer : ℕ) (c : Counters)
      → length (fill_buffer name curve self limit buffer c)
        ≡ min_of (c.last_created_index + limit) (c.last_unassigned_index + buffer)
          - c.last_created_index
  unfolding fill_buffer
  length-fill_buffer limit buffer c =
      let n = min_of (c.last_created_index + limit) (c.last_unassigned_index + buffer) in
      ground (arith, length-start_keygens (n - c.last_created_index) c.last_created_index)

  fill_buffer_none : (buffer : ℕ) (c : Counters) → fill_buffer name curve self 0 buffer c ≡ []
  fill_buffer_none buffer c = nil_of_length _ (length-fill_buffer 0 buffer c ∙ ground arith)

-- With a key buffer above 500 and below 5000 a block starts no key generation for ed25519, whatever the
-- counters are; for secp256k1 it starts as many as the limit of buffer / 500 and the buffer allow.
pub ed25519_starved :
    (buffer self : ℕ) (a : Abci)
    → 500 < buffer
    → buffer < 5000
    → let c = a.state.secp_state in
      All (λ r. r.curve ≡ secp256k1) (end_block buffer self a)
      × (length (end_block buffer self a)
          ≡ min_of (c.last_created_index + buffer / 500) (c.last_unassigned_index + buffer)
            - c.last_created_index)
unfolding end_block
ed25519_starved buffer self a lo hi =
    let c = a.state.secp_state in
    let limit : max_key_init buffer ≡ buffer / 500 = ground arith in
    let no_limit : buffer / 500 / 10 ≡ 0 = omega arith in
    rw
      (
        limit,
        no_limit,
        fill_buffer_none (λ j. new_adkg_id j ed25519) ed25519 self (buffer / 10)
            a.state.c25519_state,
        append-nil,
      )
      (
        fill_buffer-curve generate_adkg_id secp256k1 self (buffer / 500) buffer c,
        length-fill_buffer generate_adkg_id secp256k1 self (buffer / 500) buffer c,
      )
