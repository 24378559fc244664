-- ===== src/Consensus/Listing.antt =====
-- The list of a user's keys.
use adkg.Base.{
  ℕ, ◌+◌, ◌≤◌, ◌<◌, ◌≡◌, refl, ◌∙◌, Bool, false, Option, none, some, List, [], ◌∷◌, ◌++◌, text_eq,
  leb, nat_beq, if◌then◌else◌, Option-cases, Bool-cases, inl, inr, arith,
}
use adkg.Rounds.{Text}
use adkg.Consensus.{Abci, AssignmentTx, Db, Services, Verdict}
use adkg.Consensus.Keyspace.{
  get_verifier_key, query_indexes, retrieve_verifier_to_key_index, get_entry,
}
use adkg.Consensus.Assignment.{on_assignment, get_key_assignment, sort, sort_insert, counters_of}
use adkg.Consensus.Assigned.{on_assignment_takes}

abbrev pub count : ℕ → List ℕ → ℕ
count a [] = 0
count a (b ∷ l) = if nat_beq a b then count a l + 1 else count a l

-- No entry is below `low`, and none is below one before it.
abbrev pub SortedFrom : ℕ → List ℕ → Type 0
SortedFrom low [] = Unit {0}
SortedFrom low (a ∷ l) = (low ≤ a) × SortedFrom a l

SortedFrom-sort_insert :
    (low i : ℕ) (l : List ℕ) → low ≤ i → SortedFrom low l → SortedFrom low (sort_insert i l)
unfolding sort_insert
SortedFrom-sort_insert low i [] h s = (h, tt)
SortedFrom-sort_insert low i (j ∷ l) h s = elim (Bool-cases (leb i j)) [
  | inl le ↦ rw le (h, (ground arith, s.1))
  | inr gt ↦ rw gt (s.0, SortedFrom-sort_insert j i l (ground arith) s.1)
]

SortedFrom-sort : (l : List ℕ) → SortedFrom 0 (sort l)
unfolding sort
SortedFrom-sort [] = tt
SortedFrom-sort (i ∷ l) = SortedFrom-sort_insert 0 i (sort l) (omega arith) (SortedFrom-sort l)

count-sort_insert : (a i : ℕ) (l : List ℕ) → count a (sort_insert i l) ≡ count a (i ∷ l)
unfolding sort_insert
count-sort_insert a i [] = refl
count-sort_insert a i (j ∷ l) = ground (arith, count-sort_insert a i l)

count-sort : (a : ℕ) (l : List ℕ) → count a (sort l) ≡ count a l
unfolding sort
count-sort a [] = refl
count-sort a (i ∷ l) = ground (arith, count-sort_insert a i (sort l), count-sort a l)

count-snoc : (a i : ℕ) (l : List ℕ) → count a (l ++ i ∷ []) ≡ count a (i ∷ l)
count-snoc a i [] = refl
count-snoc a i (j ∷ l) = ground (arith, count-snoc a i l)

abbrev pub list_or_empty : Option (List ℕ) → List ℕ
list_or_empty none = []
list_or_empty (some l) = l

query_indexes_lem :
    (sv : Services) (tx : AssignmentTx) (db : Db) (p : Bool)
    → sv.partition_for_app tx.app_id ≡ some p
    → query_indexes sv tx db ≡ retrieve_verifier_to_key_index sv (get_verifier_key tx p) db
unfolding query_indexes
query_indexes_lem sv tx db p e = ground arith

get_key_assignment_lem :
    (sv : Services) (i : ℕ) (tx : AssignmentTx) (db : Db) (p : Bool)
    → sv.partition_for_app tx.app_id ≡ some p
    → (l : List ℕ) × (get_key_assignment sv i tx db ≡ sort l)
      × ((j : ℕ) → count j l ≡ count j (i ∷ list_or_empty (query_indexes sv tx db)))
unfolding get_key_assignment
get_key_assignment_lem sv i tx db p e =
    let q = query_indexes_lem sv tx db p e in
    elim (Option-cases (retrieve_verifier_to_key_index sv (get_verifier_key tx p) db)) [
      | inl r ↦ (i ∷ [], ground arith, λ j. rw (q, r) refl)
      | inr (l, r) ↦ (l ++ i ∷ [], ground arith, λ j. rw (q, r) (count-snoc j i l))
    ]

-- After an accepted assignment, of an index that was created and not assigned, a query for the same user
-- finds a sorted list of the keys, which holds what the query found before and that index once more.
pub assigned_is_listed :
    (sv : Services) (tx : AssignmentTx) (a b : Abci)
    → on_assignment sv tx a ≡ (b, Verdict.tagged)
    → ((key : Text) → sv.read_fails key ≡ false)
    → (i : ℕ) × ((counters_of a.state tx.curve).last_unassigned_index ≤ i)
      × (i < (counters_of a.state tx.curve).last_created_index)
      × (l : List ℕ) × (query_indexes sv tx b.db ≡ some l)
      × SortedFrom 0 l
      × ((j : ℕ) → count j l ≡ count j (i ∷ list_or_empty (query_indexes sv tx a.db)))
unfolding retrieve_verifier_to_key_index get_entry
assigned_is_listed sv tx a b h reads =
    let (i, t) = on_assignment_takes sv tx a b h in
    let (p, e) = t.partition in
    let (l, made, counted) = get_key_assignment_lem sv i tx a.db p e in
    let found = t.listed p e in
    let key = get_verifier_key tx p in
    (
      i,
      t.unassigned,
      t.created,
      sort l,
      query_indexes_lem sv tx b.db p e ∙ ground (arith, reads key),
      SortedFrom-sort l,
      λ j. count-sort j l ∙ counted j,
    )
