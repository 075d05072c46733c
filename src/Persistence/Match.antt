-- ===== src/Persistence/Match.antt =====
-- What a receipt that was accepted proves of its counts.
use vaaet.Prelude.{
  ltb, if◌then◌else◌, Bool-cases, Option-cases, is_empty, any, all, All, ok, ◌==◌, contains, ℕ, ◌≤◌,
  String, ◌≡◌, sym, ap, ◌∙◌, inl, inr, Bool, true, false, Option, none, some, List, [], ◌∷◌, arith,
  in_order-ok, raise_if-ok, ℤ, pos, ltℤ, not-negative, nat_key, string_key,
}
use vaaet.Prelude.Text.{codes}
use vaaet.Persistence.Metadata.{is_sha256}
use vaaet.Persistence.Receipts.{
  Counts, keys, lookup, same_members, operation_entities, PersistenceReceipt, is_bad_count,
  validate_counts, exceeds, validate_entities, receipt_checks, persistence_receipt,
}

-- An entry of the processed counts: a natural number that bounds the inserted one.
abbrev pub IsBounded : Counts → String × ℤ → Type 0
IsBounded inserted (key, value) =
    (p i : ℕ) × (value ≡ pos p) × (lookup key inserted ≡ some (pos i)) × (i ≤ p)

pub record IsReceipt (r : PersistenceReceipt) : Type 0 where
  pub entities :
      (names : List String) × (operation_entities r.operation ≡ some names)
      × (same_members (keys r.processed_counts) names ≡ true)
  pub filled : is_empty r.processed_counts ≡ false
  pub fingerprint : is_sha256 (codes r.content_fingerprint) ≡ true
  pub bounded : All (IsBounded r.inserted_counts) r.processed_counts

lookup-natural :
    (key : String) (inserted : Counts)
    → any is_bad_count inserted ≡ false
    → contains key (keys inserted) ≡ true
    → (i : ℕ) × (lookup key inserted ≡ some (pos i))
unfolding keys lookup
lookup-natural key [] good known = cc
lookup-natural key ((j, n) ∷ inserted) good known = elim (Bool-cases (key == j)) [
  | inl same ↦
      let small : ltℤ n (pos 0) ≡ false = ground arith in
      let (i, is_i) = (not-negative n).0 small in
      (i, ap (λ b. if b then some n else lookup key inserted) same ∙ ap some is_i)
  | inr other ↦
      let rest : any is_bad_count inserted ≡ false = ground arith in
      let later : contains key (keys inserted) ≡ true = ground arith in
      let (i, is_i) = lookup-natural key inserted rest later in
      (i, ap (λ b. if b then some n else lookup key inserted) other ∙ is_i)
]

abbrev exceeds_by : ℤ → Option ℤ → Bool
exceeds_by value none = false
exceeds_by value (some n) = ltℤ value n

entries-IsBounded :
    (processed inserted : Counts)
    → any is_bad_count processed ≡ false
    → any is_bad_count inserted ≡ false
    → all (λ x. contains x (keys inserted)) (keys processed) ≡ true
    → any (exceeds inserted) processed ≡ false
    → All (IsBounded inserted) processed
unfolding keys exceeds
entries-IsBounded [] inserted good good_inserted known within = tt
entries-IsBounded ((key, value) ∷ processed) inserted good good_inserted known within =
    let small : ltℤ value (pos 0) ≡ false = ground arith in
    let rest : any is_bad_count processed ≡ false = ground arith in
    let here : contains key (keys inserted) ≡ true = ground arith in
    let later : all (λ x. contains x (keys inserted)) (keys processed) ≡ true = ground arith in
    let (p, is_p) = (not-negative value).0 small in
    let (i, is_i) = lookup-natural key inserted good_inserted here in
    let head : exceeds inserted (key, value) ≡ false = ground arith in
    let tail : any (exceeds inserted) processed ≡ false = ground arith in
    let computed : exceeds inserted (key, value) ≡ ltb p i =
      ap (exceeds_by value) is_i ∙ ap (λ v. ltℤ v (pos i)) is_p in
    let small_enough : ltb p i ≡ false = sym computed ∙ head in
    let ordered : i ≤ p = ground arith in
    (
      (p, i, is_p, is_i, ordered),
      entries-IsBounded processed inserted rest good_inserted later tail,
    )

-- A receipt that is accepted names a known operation and counts exactly its entities, of which there
-- is one at least; its fingerprint is a SHA-256 in lower case; and for each entity the processed
-- count is a natural number that bounds the inserted one.
pub persistence_receipt-IsReceipt :
    (r : PersistenceReceipt) → persistence_receipt r ≡ ok tt → IsReceipt r
unfolding persistence_receipt receipt_checks validate_counts validate_entities same_members
persistence_receipt-IsReceipt r h =
    let (c1, (c2, (c3, (c4, (c5, (c6, (c7, (c8, _)))))))) = (in_order-ok (receipt_checks r)).0 h in
    let processed = (raise_if-ok _ _).0 c4 in
    let inserted = (raise_if-ok _ _).0 c5 in
    let over = (raise_if-ok _ _).0 c8 in
    let good : any is_bad_count r.processed_counts ≡ false = ground arith in
    let good_inserted : any is_bad_count r.inserted_counts ≡ false = ground arith in
    let known : all (λ x. contains x (keys r.inserted_counts)) (keys r.processed_counts) ≡ true =
      ground arith in
    record {
      entities = elim (Option-cases (operation_entities r.operation)) [
        | inl unknown ↦ absurd (ground arith)
        | inr (names, is_names) ↦ (names, is_names, ground arith)
      ];
      filled = ground arith;
      fingerprint = ground arith;
      bounded =
          entries-IsBounded r.processed_counts r.inserted_counts good good_inserted known over;
    }
