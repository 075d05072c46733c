-- ===== src/Continuity/Blocks.antt =====
-- When `_assign_continuity` of vaaet-core/src/vaaet/continuity.py refuses an identifier.
use vaaet.Prelude.{
  if◌then◌else◌, Bool-cases, is_some, ok, err, succeeds, ◌==◌, string_key, contains, option_eq, ℕ,
  String, ◌≡◌, refl, sym, ap, ◌∙◌, subst, ◌⊎◌, inl, inr, Bool, true, false, not, ◌||◌, Option, none,
  some, List, [], ◌∷◌, arith, option_eq_iff, beq_refl, Result-cases, nat_key,
}
use vaaet.Continuity.Segments.{opened_at}
use vaaet.Continuity.{
  Record, Progress, start, is_gap, is_explicit_change, remember, is_seen, visit, assign_from,
  ContinuityError,
}

-- The identifiers that differ from the one before them, in order: one for each block.
unfoldable pub blocks : Option String → List (Option String) → List (Option String)
blocks before [] = []
blocks before (x ∷ xs) = let rest = blocks x xs in if option_eq x before then rest else x ∷ rest

-- An identifier heads a block although it is among those seen or heads an earlier block.
unfoldable pub has_repeat : List String → List (Option String) → Bool
has_repeat seen [] = false
has_repeat seen (x ∷ xs) = is_seen x seen || has_repeat (remember x seen) xs

unfoldable pub explicits : List Record → List (Option String)
explicits [] = []
explicits (r ∷ rs) = r.explicit ∷ explicits rs

-- The last identifier has been seen.
record IsTracked (p : Progress) : Type 0 where
  running : is_some p.prior_time ≡ true
  tracked : is_some p.prior_explicit ≡ true → is_seen p.prior_explicit p.seen_explicit ≡ true

module _ (instant : ℕ → String) where
  visit_fails_iff :
      (p : Progress) (r : Record)
      → IsTracked p
      → succeeds (visit instant p r)
        ≡ (option_eq r.explicit p.prior_explicit || not (is_seen r.explicit p.seen_explicit))
  unfolding visit is_gap is_explicit_change
  visit_fails_iff p r t = let running = t.running in ground arith

is_seen-remember :
    (x y : Option String) (seen : List String)
    → (is_some y ≡ true → is_seen y seen ≡ true)
    → is_seen x (remember y seen) ≡ is_seen x seen
is_seen-remember none none seen h = refl
is_seen-remember none (some e) seen h = refl
is_seen-remember (some d) none seen h = refl
is_seen-remember (some d) (some e) seen h = elim (Bool-cases (d == e)) [
  | inl same ↦
      let equal = (string_key.test_iff d e).0 same in
      rw same (sym (subst (λ c. contains c seen ≡ true) (sym equal) (h refl)))
  | inr other ↦ rw other
]

has_repeat-same :
    (xs : List (Option String)) (s s' : List String)
    → ((x : Option String) → is_seen x s ≡ is_seen x s')
    → has_repeat s xs ≡ has_repeat s' xs
unfolding has_repeat
has_repeat-same [] s s' h = refl
has_repeat-same (x ∷ xs) s s' h =
    let rest = has_repeat-same xs (remember x s) (remember x s') (λ y. remember_same x y s s' h) in
    cc (h x)
  where
    remember_same :
        (x y : Option String) (s s' : List String)
        → ((x : Option String) → is_seen x s ≡ is_seen x s')
        → is_seen y (remember x s) ≡ is_seen y (remember x s')
    remember_same none y s s' h = h y
    remember_same (some e) none s s' h = refl
    remember_same (some e) (some d) s s' h = ap (λ b. d == e || b) (h (some d))

-- What a successful round leaves: the same identifier or a new one, now remembered.
record IsVisited (p q : Progress) (r : Record) : Type 0 where
  tracked : IsTracked q
  moved : q.prior_explicit ≡ r.explicit
  same :
      option_eq r.explicit p.prior_explicit ≡ true
      → (x : Option String) → is_seen x q.seen_explicit ≡ is_seen x p.seen_explicit
  other :
      option_eq r.explicit p.prior_explicit ≡ false
      → q.seen_explicit ≡ remember r.explicit p.seen_explicit

is_seen_self :
    (x : Option String) (seen : List String) → is_some x ≡ true → is_seen x (remember x seen) ≡ true
is_seen_self none seen h = cc
is_seen_self (some e) seen h = rw (beq_refl e)

module _ (instant : ℕ → String) (p q : Progress) (r : Record) (t : IsTracked p)
    (visited : visit instant p r ≡ ok q) where
  visit_moves : (q.prior_explicit ≡ r.explicit) × (is_some q.prior_time ≡ true)
  unfolding visit is_gap is_explicit_change
  visit_moves = let running = t.running in ground arith

  visit_remembers :
      option_eq r.explicit p.prior_explicit ≡ false
      → q.seen_explicit ≡ remember r.explicit p.seen_explicit
  unfolding visit is_gap is_explicit_change
  visit_remembers other = let running = t.running in ground arith

  visit_keeps :
      option_eq r.explicit p.prior_explicit ≡ true
      → (q.seen_explicit ≡ remember r.explicit p.seen_explicit)
        ⊎ (q.seen_explicit ≡ p.seen_explicit)
  unfolding visit is_gap is_explicit_change
  visit_keeps same = let running = t.running in ground arith

  visit_sees :
      option_eq r.explicit p.prior_explicit ≡ true
      → (x : Option String) → is_seen x q.seen_explicit ≡ is_seen x p.seen_explicit
  visit_sees same x = elim (visit_keeps same) [
    | inl again ↦ rw again (
        is_seen-remember x r.explicit p.seen_explicit
          (rw ((option_eq_iff r.explicit p.prior_explicit).0 same) t.tracked))
    | inr kept ↦ rw kept
  ]

  visit-IsVisited : IsVisited p q r
  visit-IsVisited = record {
    tracked = record { running = visit_moves.1; tracked = rw visit_moves.0 tracked };
    moved = visit_moves.0;
    same = visit_sees;
    other = visit_remembers;
  }
    where
      tracked : is_some r.explicit ≡ true → is_seen r.explicit q.seen_explicit ≡ true
      tracked present = elim (Bool-cases (option_eq r.explicit p.prior_explicit)) [
        | inl equal ↦
            let e = (option_eq_iff r.explicit p.prior_explicit).0 equal in
            visit_sees equal r.explicit ∙ rw e (t.tracked (rw e at present))
        | inr different ↦
            rw (visit_remembers different) (is_seen_self r.explicit p.seen_explicit present)
      ]

is_seen-nil : (x : Option String) → is_seen x [] ≡ false
is_seen-nil none = refl
is_seen-nil (some e) = refl

module _ (instant : ℕ → String) where
  assign_from-err :
      (p : Progress) (r : Record) (rs : List Record) (e : ContinuityError)
      → visit instant p r ≡ err e
      → assign_from instant p (r ∷ rs) ≡ err e
  unfolding assign_from
  assign_from-err p r rs e h = rw h

  assign_from-ok :
      (p q : Progress) (r : Record) (rs : List Record)
      → visit instant p r ≡ ok q
      → succeeds (assign_from instant p (r ∷ rs)) ≡ succeeds (assign_from instant q rs)
  unfolding assign_from
  assign_from-ok p q r rs h = rw h (elim (Result-cases (assign_from instant q rs)) [
    | inl (e, failed) ↦ rw failed
    | inr (ids, done) ↦ rw done
  ])

  assign_from-blocks :
      (rs : List Record) (p : Progress)
      → IsTracked p
      → succeeds (assign_from instant p rs)
        ≡ not (has_repeat p.seen_explicit (blocks p.prior_explicit (explicits rs)))
  unfolding blocks explicits has_repeat
  assign_from-blocks [] p t = unfold assign_from in refl
  assign_from-blocks (r ∷ rs) p t = elim (Result-cases (visit instant p r)) [
    | inl (e, failed) ↦
        let test = visit_fails_iff instant p r t in
        let raised = ap succeeds failed in rw (assign_from-err p r rs e failed) (ground arith)
    | inr (q, visited) ↦
        let test = visit_fails_iff instant p r t in
        let passed = ap succeeds visited in
        let v = visit-IsVisited instant p q r t visited in
        let later = assign_from-blocks rs q v.tracked in
        let xs = explicits rs in
        assign_from-ok p q r rs visited
        ∙ later
        ∙ rw v.moved (elim (Bool-cases (option_eq r.explicit p.prior_explicit)) [
          | inl same ↦ rw same (
              ap not (
                has_repeat-same (blocks r.explicit xs) q.seen_explicit p.seen_explicit
                  (v.same same)))
          | inr other ↦
              let unseen : is_seen r.explicit p.seen_explicit ≡ false = ground arith in
              rw (other, v.other other, has_repeat, unseen)
        ])
  ]

  first_visit :
      (r : Record)
      → (q : Progress) × (visit instant start r ≡ ok q)
        × (q.prior_explicit ≡ r.explicit)
        × (q.seen_explicit ≡ remember r.explicit [])
        × IsTracked q
  unfolding visit is_gap is_explicit_change
  first_visit r = (
    opened_at instant r,
    ground arith,
    refl,
    refl,
    record { running = refl; tracked = is_seen_self r.explicit [] },
  )

  -- The loop over a clip raises exactly when some identifier heads two blocks of records: it is
  -- refused when it comes back after another identifier, or after records without one.
  pub assign_from-succeeds :
      (r : Record) (rs : List Record)
      → succeeds (assign_from instant start (r ∷ rs))
        ≡ not (has_repeat [] (r.explicit ∷ blocks r.explicit (explicits rs)))
  unfolding has_repeat
  assign_from-succeeds r rs =
      let (q, visited, moved, seen, tracked) = first_visit r in
      assign_from-ok start q r rs visited
      ∙ assign_from-blocks rs q tracked
      ∙ rw (moved, seen, is_seen-nil r.explicit)
