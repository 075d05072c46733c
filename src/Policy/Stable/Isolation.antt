-- ===== src/Policy/Stable/Isolation.antt =====
-- Segments do not influence one another: proofs about `_stabilize_codes` of
-- vaaet-core/src/vaaet/inference/policy.py.
use mathlib.Core.Option
use vaaet.Prelude.{
  Option-cases, String, ◌≡◌, refl, sym, ap, ◌∙◌, ◌≢◌, inl, inr, Option, none, some, List, [], ◌∷◌,
  ◌++◌, option_eq-false, nat_key, string_key,
}
use vaaet.Float.{FloatOps}
use vaaet.Policy.Stable.{
  Machine, reset, Report, Reading, Settings, advance, entered, stabilize_from, stabilize_codes,
}

-- The key of the last row, or that of the row before them all.
abbrev pub last_key : {F : Type 0} → Option String → List (Reading F) → Option String
last_key prior [] = prior
last_key prior (r ∷ rs) = last_key (some r.key) rs

-- The reports of two runs, one behind the other.
abbrev pub both : Option (List Report) → Option (List Report) → Option (List Report)
both none later = none
both (some first) none = none
both (some first) (some later) = some (first ++ later)

module _ {F : Type 0} ⦃f : FloatOps F⦄ (s : Settings F) where
  stabilize_from-fresh :
      (prior : Option String) (m : Machine) (r : Reading F) (rs : List (Reading F))
      → prior ≢ some r.key
      → stabilize_from s prior m (r ∷ rs) ≡ stabilize_from s none reset (r ∷ rs)
  unfolding stabilize_from entered
  stabilize_from-fresh prior m r rs h =
      rw (option_eq-false (some r.key) prior (λ e. h (sym e)), stabilize_from)

  cons-both :
      (report : Report) (first later : Option (List Report))
      → Option.map (λ rest. report ∷ rest) (both first later)
        ≡ both (Option.map (λ rest. report ∷ rest) first) later
  cons-both report none later = refl
  cons-both report (some first) none = refl
  cons-both report (some first) (some later) = refl

  nil-both : (later : Option (List Report)) → both (some []) later ≡ later
  nil-both none = refl
  nil-both (some later) = refl

  module _ (prior : Option String) (m : Machine) (q : Reading F) where
    row_none :
        (rows : List (Reading F))
        → advance s q (entered prior q m) ≡ none
        → stabilize_from s prior m (q ∷ rows) ≡ none
    unfolding stabilize_from
    row_none rows e = rw (e, stabilize_from)

    row_some :
        (rows : List (Reading F)) (after : Machine) (report : Report)
        → advance s q (entered prior q m) ≡ some (after, report)
        → stabilize_from s prior m (q ∷ rows)
          ≡ Option.map (λ rest. report ∷ rest) (stabilize_from s (some q.key) after rows)
    unfolding stabilize_from
    row_some rows after report e = rw (e, stabilize_from)

  stabilize_from-append :
      (rows : List (Reading F)) (prior : Option String) (m : Machine) (r : Reading F)
      (rs : List (Reading F))
      → last_key prior rows ≢ some r.key
      → stabilize_from s prior m (rows ++ r ∷ rs)
        ≡ both (stabilize_from s prior m rows) (stabilize_from s none reset (r ∷ rs))
  stabilize_from-append [] prior m r rs h =
      stabilize_from-fresh prior m r rs h
      ∙ sym (unfold stabilize_from in nil-both (stabilize_from s none reset (r ∷ rs)))
  stabilize_from-append (q ∷ rows) prior m r rs h =
      elim (Option-cases (advance s q (entered prior q m))) [
        | inl e ↦ rw (row_none prior m q (rows ++ r ∷ rs) e, row_none prior m q rows e)
        | inr ((after, report), e) ↦
            row_some prior m q (rows ++ r ∷ rs) after report e
            ∙ ap (Option.map (λ rest. report ∷ rest))
                (stabilize_from-append rows (some q.key) after r rs h)
            ∙ cons-both report (stabilize_from s (some q.key) after rows)
                (stabilize_from s none reset (r ∷ rs))
            ∙ ap (λ first. both first (stabilize_from s none reset (r ∷ rs)))
                (sym (row_some prior m q rows after report e))
      ]

  -- No memory crosses a segment's border: where the key changes, the loop over both parts reports
  -- what the loop over the first and a loop started anew over the second report, one behind the
  -- other, and raises a KeyError if one of the two does.
  pub stabilize_codes-append :
      (rows : List (Reading F)) (next : Reading F) (rest : List (Reading F))
      → last_key none rows ≢ some next.key
      → stabilize_codes s (rows ++ next ∷ rest)
        ≡ both (stabilize_codes s rows) (stabilize_codes s (next ∷ rest))
  unfolding stabilize_codes
  stabilize_codes-append rows next rest h = stabilize_from-append rows none reset next rest h
