-- ===== src/Consensus/Search.antt =====
-- The search for the first generated key behind the last assigned one.
use adkg.Base.{
  ℕ, zero, suc, ◌+◌, ◌≤◌, ◌<◌, ◌≡◌, ◌≢◌, sym, Bool, true, false, Option, some, text_eq, Bool-cases,
  inl, inr, arith,
}
use native.Mathlib.Decide.{dec_lt}
use adkg.Rounds.{Text, new_adkg_id}
use adkg.Consensus.{State, AssignmentTx, point_of}
use adkg.Consensus.Keyspace.{get_verifier_key, prefix_key_mapping}
use adkg.Consensus.Assignment.{has_zero, search_key}

pub record Found (s : State) (curve : Text) (i left j : ℕ) (id : Text) : Type 0 where
  pub from_start : i ≤ j
  pub within : j < i + left
  pub named : id ≡ new_adkg_id j curve
  pub generated : has_zero (point_of s id) ≡ false
  pub first : (m : ℕ) → i ≤ m → m < j → has_zero (point_of s (new_adkg_id m curve)) ≡ true

pub search_key_lem :
    (left i j : ℕ) (s : State) (curve id : Text)
    → search_key left i s curve ≡ some (id, j)
    → Found s curve i left j id
unfolding search_key
search_key_lem zero i j s curve id h = cc
search_key_lem (suc left) i j s curve id h =
    elim (Bool-cases (has_zero (point_of s (new_adkg_id i curve)))) [
      | inl skipped ↦
          let f = search_key_lem left (i + 1) j s curve id (rw skipped at h) in
          record {
            from_start = omega arith;
            within = omega arith;
            named = f.named;
            generated = f.generated;
            first = λ m p q. elim (dec_lt i m) [
              | yes later ↦ f.first m (omega arith) q
              | no now ↦ let e : m ≡ i = omega arith in rw e skipped
            ];
          }
      | inr there ↦
          let e : ◌≡◌ {A = Option (Text × ℕ)} (some (new_adkg_id i curve, i)) (some (id, j)) =
            rw there at h in
          let same : i ≡ j = cc in
          let name : new_adkg_id i curve ≡ id = cc in
          record {
            from_start = omega arith;
            within = omega arith;
            named = rw (← same) (sym name);
            generated = rw (← name) there;
            first = λ m p q. absurd (omega arith);
          }
    ]

pub mapping-ne-verifier :
    (key curve : Text) (tx : AssignmentTx) (b : Bool)
    → prefix_key_mapping key curve ≢ get_verifier_key tx b
unfolding prefix_key_mapping get_verifier_key
mapping-ne-verifier key curve tx true e = ground arith
mapping-ne-verifier key curve tx false e = ground arith
