-- ===== src/Node/Tracker.antt =====
-- keygen/keygen_tracker.go: when key generations were started, and the removal of those that are older
-- than the cutoff period. Times are seconds since 1970.
use adkg.Base.{
  ℕ, ◌-◌, ◌≡◌, refl, sym, ◌∙◌, ◌⊎◌, Bool, true, false, ◌&&◌, ◌||◌, none, some, List, [], ◌∷◌, Map,
  ltb, contains, text_eq, ◌==◌, if◌then◌else◌, Bool-cases, inl, inr, arith,
}
use mathlib.Core.Path.{subst}
use adkg.Base.Maps
use adkg.Base.Maps.{lookup, lookup-delete}
use adkg.Messages.{Text}
use adkg.Stores.{StoreMap}
use adkg.Stores
use adkg.Node.{NodeState, remove_rounds, remove}
use adkg.Node.Removal.{AreGone, stay_gone, all_gone, remove-AreGone}

abbrev pub cutoff_period : ℕ
cutoff_period = 300

-- `Add`, at the time `now`
unfoldable pub add : (id : Text) → (now : ℕ) → Map Text ℕ → Map Text ℕ
add id now keygens = Maps.insert id now keygens

-- `Has`
unfoldable pub has : (id : Text) → Map Text ℕ → Bool
has id keygens = elim (lookup id keygens) [ none ↦ false | some created_at ↦ true ]

-- Whether an entry of the key generation is too old
abbrev pub is_older : (cutoff_time : ℕ) → Map Text ℕ → Text → Bool
is_older cutoff_time [] q = false
is_older cutoff_time ((id, created_at) ∷ left) q =
    (ltb created_at cutoff_time && (id == q)) || is_older cutoff_time left q

module _ {Point : Type 0} (nodes : List ℕ) (cutoff_time : ℕ) where
  -- The `Range` of `removeExpiredKeygen`, over the entries that are left
  unfoldable pub remove_older :
      (left : Map Text ℕ) → Map Text ℕ → NodeState Point → Map Text ℕ × NodeState Point
  remove_older [] keygens s = (keygens, s)
  remove_older ((id, created_at) ∷ left) keygens s =
      let expired = remove_older left (Maps.delete id keygens) (remove nodes id s) in
      let kept = remove_older left keygens s in if ltb created_at cutoff_time then expired else kept

  remove_rounds-session :
      (l : List ℕ) (id : Text) (s : NodeState Point)
      → (remove_rounds l id s).session_store ≡ s.session_store
  unfolding remove_rounds
  remove_rounds-session [] id s = refl
  remove_rounds-session (node ∷ l) id s = remove_rounds-session l id _

  remove-session :
      (id q : Text) (s : NodeState Point)
      → lookup q (remove nodes id s).session_store
        ≡ (if id == q then none else lookup q s.session_store)
  unfolding remove adkg.Stores.delete
  remove-session id q s =
      lookup-delete id q (remove_rounds nodes id s).session_store
      ∙ rw (remove_rounds-session nodes id s) refl

  remove_older-lookup :
      (left keygens : Map Text ℕ) (s : NodeState Point) (q : Text)
      → let r = remove_older left keygens s in
        (lookup q r.0 ≡ (if is_older cutoff_time left q then none else lookup q keygens))
        × (lookup q r.1.session_store
            ≡ (if is_older cutoff_time left q then none else lookup q s.session_store))
  unfolding remove_older
  remove_older-lookup [] keygens s q = (refl, refl)
  remove_older-lookup ((id, created_at) ∷ left) keygens s q =
      elim (Bool-cases (ltb created_at cutoff_time)) [
        | inr young ↦ rw young (remove_older-lookup left keygens s q)
        | inl old ↦
            let (k, t) = remove_older-lookup left (Maps.delete id keygens) (remove nodes id s) q in
            let e = lookup-delete id q keygens in
            let f = remove-session id q s in (ground (arith, old, k, e), ground (arith, old, t, f))
      ]

-- `removeExpiredKeygen`, at the time `now`
unfoldable pub remove_expired :
    {Point : Type 0}
    → (nodes : List ℕ) → (now : ℕ) → Map Text ℕ
    → NodeState Point
    → Map Text ℕ × NodeState Point
unfolding remove_older
remove_expired nodes now keygens s = remove_older nodes (now - cutoff_period) keygens keygens s

module _ {Point : Type 0} where
  remove_older-stay_gone :
      (nodes : List ℕ) (cutoff_time : ℕ) (left keygens : Map Text ℕ) (id : Text) (node : ℕ)
      (s : NodeState Point)
      → AreGone id node s
      → AreGone id node (remove_older nodes cutoff_time left keygens s).1
  unfolding remove_older
  remove_older-stay_gone nodes cutoff_time [] keygens id node s g = g
  remove_older-stay_gone nodes cutoff_time ((jd, created_at) ∷ left) keygens id node s g =
      elim (Bool-cases (ltb created_at cutoff_time)) [
        | inr young ↦ rw young (remove_older-stay_gone nodes cutoff_time left keygens id node s g)
        | inl old ↦ rw old (
            remove_older-stay_gone nodes cutoff_time left (Maps.delete jd keygens) id node
              (remove nodes jd s)
              (remove-AreGone nodes id jd node s (stay_gone nodes id jd node s g)))
      ]

  remove_older-AreGone :
      (nodes : List ℕ) (cutoff_time : ℕ) (left keygens : Map Text ℕ) (id : Text) (node : ℕ)
      (s : NodeState Point)
      → contains nodes node ≡ true
      → is_older cutoff_time left id ≡ true
      → AreGone id node (remove_older nodes cutoff_time left keygens s).1
  unfolding remove_older
  remove_older-AreGone nodes cutoff_time [] keygens id node s h old = absurd (ground arith)
  remove_older-AreGone nodes cutoff_time ((jd, created_at) ∷ left) keygens id node s h old =
      elim (Bool-cases (ltb created_at cutoff_time)) [
        | inr young ↦
            rw young
              (remove_older-AreGone nodes cutoff_time left keygens id node s h (ground arith))
        | inl expired ↦ elim (Bool-cases (jd == id)) [
          | inl same ↦
              let e : jd ≡ id = (text_eq.beq_iff jd id).0 same in
              let gone : AreGone id node (remove nodes jd s) =
                subst (λ j. AreGone id node (remove nodes j s)) (sym e)
                  (remove-AreGone nodes id id node s (all_gone nodes id node s h)) in
              rw expired (
                remove_older-stay_gone nodes cutoff_time left (Maps.delete jd keygens) id node
                  (remove nodes jd s) gone)
          | inr other ↦ rw expired (
              remove_older-AreGone nodes cutoff_time left (Maps.delete jd keygens) id node
                (remove nodes jd s) h (ground arith))
        ]
      ]

-- When the tracker removes what has expired, whatever the state is: either a key generation has an entry
-- older than the cutoff period, and is in the tracker no more, nor is its session or a round of a node of
-- the list in the state; or it has none, and its entry and its session stay what they are.
pub expired_removed :
    {Point : Type 0} (nodes : List ℕ) (now : ℕ) (keygens : Map Text ℕ) (s : NodeState Point)
    (id : Text) (node : ℕ)
    → contains nodes node ≡ true
    → let r = remove_expired nodes now keygens s in
      ((is_older (now - cutoff_period) keygens id ≡ true)
        × (lookup id r.0 ≡ none)
        × (lookup id r.1.session_store ≡ none)
        × AreGone id node r.1)
      ⊎ ((is_older (now - cutoff_period) keygens id ≡ false)
          × (lookup id r.0 ≡ lookup id keygens)
          × (lookup id r.1.session_store ≡ lookup id s.session_store))
unfolding remove_expired
expired_removed nodes now keygens s id node h =
    let cutoff_time = now - cutoff_period in
    let (k, t) = remove_older-lookup nodes cutoff_time keygens keygens s id in
    elim (Bool-cases (is_older cutoff_time keygens id)) [
      | inl old ↦ inl (
        old,
        ground (arith, k, old),
        ground (arith, t, old),
        remove_older-AreGone nodes cutoff_time keygens keygens id node s h old,
      )
      | inr young ↦ inr (young, ground (arith, k, young), ground (arith, t, young))
    ]
