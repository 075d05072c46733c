-- ===== src/Persistence/States.antt =====
-- What the states of runs are that `read_pipeline_run_audit_states` of
-- vaaet-persistence/src/vaaet_persistence/receipts.py returns.
use vaaet.Prelude.{
  Bool-cases, length, drop, any, length-drop, Result, ok, ◌>>◌, raise_if, ◌==◌, nat_key, contains,
  ℕ, zero, suc, ◌≤◌, ◌≡◌, refl, sym, subst, ◌⊎◌, inl, inr, true, false, not, ◌||◌, Option, List, [],
  ◌∷◌, arith, bind-eq-ok, take, raise_if-ok, string_key,
}
use vaaet.Persistence.Receipts.{ReceiptError, conflict}
use vaaet.Persistence.Batches.{
  PipelineRunAuditState, Row, States, parse_ids, read_batch, read_from,
  read_pipeline_run_audit_states, read_row, read_rows, runs_of, unique_from,
}

-- Each state is filed under its own run, which was asked for, and no run has two.
pub data IsRead (asked : List ℕ) : States → Type 0 where
  nothing : IsRead asked []
  another :
      (i : ℕ) (state : PipelineRunAuditState) (states : States)
      → contains i asked ≡ true
      → contains i (runs_of states) ≡ false
      → state.pipeline_run_id ≡ i
      → IsRead asked states
      → IsRead asked ((i, state) ∷ states)

abbrev pub Sub : List ℕ → List ℕ → Type 0
Sub xs ys = (i : ℕ) → contains i xs ≡ true → contains i ys ≡ true

found : (xs ys : List ℕ) → any (λ i. not (contains i ys)) xs ≡ false → Sub xs ys
found [] ys h i known = absurd (cc)
found (x ∷ xs) ys h i known = elim (Bool-cases (i == x)) [
  | inl same ↦
      let here : contains x ys ≡ true = ground arith in
      subst (λ j. contains j ys ≡ true) (sym ((nat_key.test_iff i x).0 same)) here
  | inr other ↦
      let rest : any (λ i. not (contains i ys)) xs ≡ false = ground arith in
      let later : contains i xs ≡ true = ground arith in found xs ys rest i later
]

module _ (asked batch : List ℕ) (within : Sub batch asked) where
  read_row-IsRead :
      (row : Row) (states after : States)
      → read_row batch row states ≡ ok after
      → IsRead asked states
      → IsRead asked after × Sub (runs_of states) (runs_of after)
  unfolding read_row
  read_row-IsRead (i, state_or_error) states after h good =
      let guard : Result ReceiptError (Unit {0}) =
        raise_if (not (contains i batch) || contains i (runs_of states)) conflict in
      let (state, read, h2) = bind-eq-ok (guard >> state_or_error) _ h in
      let (_, first, is_state) = bind-eq-ok guard (λ _. state_or_error) read in
      let (_, second, h3) =
        bind-eq-ok (raise_if (not (state.pipeline_run_id == i)) conflict) _ h2 in
      let asked_for : contains i batch ≡ true = ground arith in
      let new : contains i (runs_of states) ≡ false = ground arith in
      let same : (state.pipeline_run_id == i) ≡ true = ground arith in
      let whole : (i, state) ∷ states ≡ after = cc in
      let own : state.pipeline_run_id ≡ i = (nat_key.test_iff state.pipeline_run_id i).0 same in
      subst (λ s. IsRead asked s × Sub (runs_of states) (runs_of s)) whole
        (another i state states (within i asked_for) new own good, (λ j known. ground arith))

  read_rows-IsRead :
      (rows : List Row) (states after : States)
      → read_rows batch rows states ≡ ok after
      → IsRead asked states
      → IsRead asked after × Sub (runs_of states) (runs_of after)
  unfolding read_rows
  read_rows-IsRead [] states after h good =
      let same : states ≡ after = cc in
      subst (λ s. IsRead asked s × Sub (runs_of states) (runs_of s)) same (good, (λ j known. known))
  read_rows-IsRead (row ∷ rows) states after h good =
      let (between, is_between, rest) = bind-eq-ok (read_row batch row states) _ h in
      let (good1, grows1) = read_row-IsRead row states between is_between good in
      let (good2, grows2) = read_rows-IsRead rows between after rest good1 in
      (good2, (λ j known. grows2 j (grows1 j known)))

  read_batch-IsRead :
      (query : List ℕ → List Row) (states after : States)
      → read_batch query batch states ≡ ok after
      → IsRead asked states
      → IsRead asked after × Sub (runs_of states) (runs_of after) × Sub batch (runs_of after)
  unfolding read_batch
  read_batch-IsRead query states after h good =
      let (between, is_between, rest) = bind-eq-ok (read_rows batch (query batch) states) _ h in
      let (good1, grows) = read_rows-IsRead (query batch) states between is_between good in
      let (_, none_missing, last) =
        bind-eq-ok (raise_if (any (λ i. not (contains i (runs_of between))) batch) conflict) _
          rest in
      let full : any (λ i. not (contains i (runs_of between))) batch ≡ false =
        (raise_if-ok _ conflict).0 none_missing in
      let same : between ≡ after = cc in
      subst (λ s. IsRead asked s × Sub (runs_of states) (runs_of s) × Sub batch (runs_of s)) same
        (good1, grows, found batch (runs_of between) full)

drop-Sub : (n : ℕ) (xs : List ℕ) → Sub (drop n xs) xs
drop-Sub zero xs i known = known
drop-Sub (suc n) [] i known = known
drop-Sub (suc n) (x ∷ xs) i known = let later = drop-Sub n xs i known in ground arith

take-Sub : (n : ℕ) (xs : List ℕ) → Sub (take n xs) xs
take-Sub zero xs i known = absurd (cc)
take-Sub (suc n) [] i known = known
take-Sub (suc n) (x ∷ xs) i known = elim (Bool-cases (i == x)) [
  | inl same ↦ ground arith
  | inr other ↦
      let inner : contains i (take n xs) ≡ true = ground arith in
      let later = take-Sub n xs i inner in ground arith
]

take-or-drop :
    (n : ℕ) (xs : List ℕ) (i : ℕ)
    → contains i xs ≡ true
    → (contains i (take n xs) ≡ true) ⊎ (contains i (drop n xs) ≡ true)
take-or-drop zero xs i known = inr known
take-or-drop (suc n) [] i known = inr known
take-or-drop (suc n) (x ∷ xs) i known = elim (Bool-cases (i == x)) [
  | inl same ↦ inl (ground arith)
  | inr other ↦
      let later : contains i xs ≡ true = ground arith in
      elim (take-or-drop n xs i later) [ inl front ↦ inl (ground arith) | inr back ↦ inr back ]
]

read_from-IsRead :
    (asked : List ℕ) (query : List ℕ → List Row) (size fuel : ℕ) (ids : List ℕ)
    (states after : States)
    → length ids ≤ fuel
    → Sub ids asked
    → read_from query (suc size) fuel ids states ≡ ok after
    → IsRead asked states
    → IsRead asked after × Sub (runs_of states) (runs_of after) × Sub ids (runs_of after)
unfolding read_from
read_from-IsRead asked query size zero [] states after enough within h good =
    let same : states ≡ after = cc in
    subst (λ s. IsRead asked s × Sub (runs_of states) (runs_of s) × Sub [] (runs_of s)) same
      (good, (λ i known. known), (λ i known. absurd (cc)))
read_from-IsRead asked query size zero (x ∷ ids) states after enough within h good =
    absurd (omega (arith, enough))
read_from-IsRead asked query size (suc fuel) [] states after enough within h good =
    let same : states ≡ after = cc in
    subst (λ s. IsRead asked s × Sub (runs_of states) (runs_of s) × Sub [] (runs_of s)) same
      (good, (λ i known. known), (λ i known. absurd (cc)))
read_from-IsRead asked query size (suc fuel) (x ∷ ids) states after enough within h good =
    let batch : List ℕ = take (suc size) (x ∷ ids) in
    let rest : List ℕ = drop (suc size) (x ∷ ids) in
    let (between, is_between, h1) = bind-eq-ok (read_batch query batch states) _ h in
    let (good1, grows1, front) =
      read_batch-IsRead asked batch (λ i known. within i (take-Sub (suc size) (x ∷ ids) i known))
        query states between is_between good in
    let shorter = length-drop size ids in
    let (good2, grows2, back) =
      read_from-IsRead asked query size fuel rest between after (omega (arith, shorter, enough))
        (λ i known. within i (drop-Sub (suc size) (x ∷ ids) i known)) h1 good1 in
    (
      good2,
      (λ i known. grows2 i (grows1 i known)),
      (λ i known. elim (take-or-drop (suc size) (x ∷ ids) i known) [
        | inl in_front ↦ grows2 i (front i in_front)
        | inr in_back ↦ back i in_back
      ]),
    )

unique_from-Sub : (seen ids : List ℕ) → Sub (unique_from seen ids) ids
unfolding unique_from
unique_from-Sub seen [] i known = known
unique_from-Sub seen (x ∷ ids) i known = elim (Bool-cases (contains x seen)) [
  | inl old ↦
      let kept : contains i (unique_from seen ids) ≡ true = ground arith in
      let later = unique_from-Sub seen ids i kept in ground arith
  | inr new ↦ elim (Bool-cases (i == x)) [
    | inl same ↦ ground arith
    | inr other ↦
        let kept : contains i (unique_from (x ∷ seen) ids) ≡ true = ground arith in
        let later = unique_from-Sub (x ∷ seen) ids i kept in ground arith
  ]
]

unique_from-keeps :
    (seen ids : List ℕ) (i : ℕ)
    → contains i ids ≡ true
    → contains i seen ≡ false
    → contains i (unique_from seen ids) ≡ true
unfolding unique_from
unique_from-keeps seen [] i known new = known
unique_from-keeps seen (x ∷ ids) i known new = elim (Bool-cases (i == x)) [
  | inl same ↦
      let e : i ≡ x = (nat_key.test_iff i x).0 same in
      let fresh : contains x seen ≡ false = subst (λ j. contains j seen ≡ false) e new in
      ground arith
  | inr other ↦
      let later : contains i ids ≡ true = ground arith in
      elim (Bool-cases (contains x seen)) [
        | inl old ↦ let kept = unique_from-keeps seen ids i later new in ground arith
        | inr fresh ↦
            let still_new : contains i (x ∷ seen) ≡ false = ground arith in
            let kept = unique_from-keeps (x ∷ seen) ids i later still_new in ground arith
      ]
]

-- Whatever rows the database answers: when the states of runs are read without an error, every run
-- that was asked for has a state, no other run has one, none has two, and each state is its run's.
pub read_pipeline_run_audit_states-IsRead :
    (query : List ℕ → List Row) (ids : List ℕ) (run_ids : List (Option ℕ)) (states : States)
    → parse_ids run_ids ≡ ok ids
    → read_pipeline_run_audit_states query run_ids ≡ ok states
    → IsRead ids states × Sub ids (runs_of states)
unfolding read_pipeline_run_audit_states
read_pipeline_run_audit_states-IsRead query ids run_ids states parsed h =
    let (other, is_other, run) = bind-eq-ok (parse_ids run_ids) _ h in
    let same : other ≡ ids = cc in
    let run_ids_of : read_from query 500 (length (unique_from [] ids)) (unique_from [] ids) []
        ≡ ok states =
      subst
        (λ xs. read_from query 500 (length (unique_from [] xs)) (unique_from [] xs) [] ≡ ok states)
        same run in
    let (good, _, all_found) =
      read_from-IsRead ids query 499 (length (unique_from [] ids)) (unique_from [] ids) [] states
        (omega arith) (unique_from-Sub [] ids) run_ids_of nothing in
    (good, (λ i known. all_found i (unique_from-keeps [] ids i known refl)))
