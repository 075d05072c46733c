-- ===== src/Continuity/Segments.antt =====
-- Where `_assign_continuity` of vaaet-core/src/vaaet/continuity.py opens a segment.

use vaaet.Prelude.{
  ltb, tests, Bool-cases, is_some, Result, ok, option_eq, ℕ, ◌+◌, ◌≤◌, ◌<◌, String, ◌≡◌, refl, sym,
  ap, ◌∙◌, subst, ◌≢◌, inl, inr, false, some, List, [], ◌∷◌, arith, option_eq_iff, bind-eq-ok,
  nat_key, string_key,
}
use vaaet.Continuity.{
  Record, Progress, start, gap_limit, is_gap, is_explicit_change, remember, base_id, new_id, visit,
  assign_from,
}
use vaaet.Continuity.Names.{Distinguishes, IsNamed, renamed}

-- The variables of the loop between two records of a clip.
record IsRunning (last : Record) (p : Progress) : Type 0 where
  timed : p.prior_time ≡ some last.time
  explicit : p.prior_explicit ≡ last.explicit

-- How a record's identifier follows the one before it.
pub record Follows (instant : ℕ → String) (last : Record) (before : String) (r : Record)
    (id : String) : Type 0 where
  pub continued : r.explicit ≡ last.explicit → r.time ≤ last.time + gap_limit → id ≡ before
  pub split :
      r.explicit ≡ last.explicit
      → last.time + gap_limit < r.time
      → (id ≢ before) × (id ≡ new_id instant (is_some r.explicit) r)
  pub changed : r.explicit ≢ last.explicit → id ≡ base_id instant r

module _ (instant : ℕ → String) (last r : Record) (p q : Progress) (run : IsRunning last p)
    (visited : visit instant p r ≡ ok q) where
  visit-IsRunning : IsRunning r q
  unfolding visit is_gap is_explicit_change
  visit-IsRunning = ground (arith, run.timed, run.explicit)

  visit_continues :
      r.explicit ≡ last.explicit → r.time ≤ last.time + gap_limit → q.active_id ≡ p.active_id
  unfolding visit is_gap is_explicit_change
  visit_continues same close =
      ground (arith, run.timed, run.explicit, option_eq_iff r.explicit p.prior_explicit)

  visit_splits :
      r.explicit ≡ last.explicit
      → last.time + gap_limit < r.time
      → q.active_id ≡ new_id instant (is_some r.explicit) r
  unfolding visit is_gap is_explicit_change
  visit_splits same late =
      ground (arith, run.timed, run.explicit, option_eq_iff r.explicit p.prior_explicit)

  visit_changes : r.explicit ≢ last.explicit → q.active_id ≡ base_id instant r
  unfolding visit is_gap is_explicit_change
  visit_changes other =
      ground (arith, run.timed, run.explicit, option_eq_iff r.explicit p.prior_explicit)

-- The records of one clip behind a record of it: in the order of their times, identifiers not blank.
abbrev pub IsGroup : Record → List Record → Type 0
IsGroup last [] = Unit
IsGroup last (r ∷ rs) =
    (r.clip ≡ last.clip) × (last.time ≤ r.time) × (r.explicit ≢ some "") × IsGroup r rs

abbrev pub IsSegmented : (ℕ → String) → Record → String → List Record → List String → Type 0
IsSegmented instant last before [] [] = Unit
IsSegmented instant last before (r ∷ rs) (id ∷ ids) =
    Follows instant last before r id × IsSegmented instant r id rs ids
IsSegmented instant last before _ _ = ⊥

-- The variables after the first record of a clip.
abbrev pub opened_at : (ℕ → String) → Record → Progress
opened_at instant r = record {
  prior_time = some r.time;
  prior_explicit = r.explicit;
  segment = 1;
  seen_explicit = remember r.explicit [];
  active_id = base_id instant r;
}

ok-injective : {E A : Type 0} {a b : A} → ◌≡◌ {A = Result E A} (ok a) (ok b) → a ≡ b
ok-injective h = cc

-- The loop on a non-empty list, taken apart.
assign_from-eq-ok :
    (instant : ℕ → String) (p : Progress) (r : Record) (rs : List Record) (ids : List String)
    → assign_from instant p (r ∷ rs) ≡ ok ids
    → (q : Progress) × (rest : List String) × (visit instant p r ≡ ok q)
      × (assign_from instant q rs ≡ ok rest)
      × (ids ≡ q.active_id ∷ rest)
unfolding assign_from
assign_from-eq-ok instant p r rs ids h =
    let (q, visited, tail) = bind-eq-ok (visit instant p r) _ h in
    let (rest, assigned, e) = bind-eq-ok (assign_from instant q rs) _ tail in
    (q, rest, visited, assigned, cc)

module _ (instant : ℕ → String) (apart : Distinguishes instant) where
  visit-IsNamed :
      (last r : Record) (p q : Progress)
      → IsRunning last p
      → visit instant p r ≡ ok q
      → IsNamed instant last p.active_id
      → r.clip ≡ last.clip
      → last.time ≤ r.time
      → IsNamed instant r q.active_id
  visit-IsNamed last r p q run visited named clip later =
      elim (Bool-cases (option_eq r.explicit last.explicit)) [
        | inl equal ↦
            let same = (option_eq_iff r.explicit last.explicit).0 equal in
            elim (Bool-cases (ltb (last.time + gap_limit) r.time)) [
              | inl gap ↦ record {
                opener = r;
                marked = is_some r.explicit;
                named = visit_splits instant last r p q run visited same (omega tests);
                mark_explicit = λ e. e;
                same_clip = refl;
                same_explicit = refl;
                earlier = omega arith;
              }
              | inr close ↦ record {
                opener = named.opener;
                marked = named.marked;
                named =
                    visit_continues instant last r p q run visited same (ground arith)
                    ∙ named.named;
                mark_explicit = named.mark_explicit;
                same_clip = named.same_clip ∙ sym clip;
                same_explicit = named.same_explicit ∙ sym same;
                earlier = omega (arith, named.earlier);
              }
            ]
        | inr different ↦ record {
          opener = r;
          marked = false;
          named =
              visit_changes instant last r p q run visited
                (λ e. cc ((option_eq_iff r.explicit last.explicit).1 e));
          mark_explicit = λ e. cc;
          same_clip = refl;
          same_explicit = refl;
          earlier = omega arith;
        }
      ]

  visit-Follows :
      (last r : Record) (p q : Progress)
      → IsRunning last p
      → visit instant p r ≡ ok q
      → IsNamed instant last p.active_id
      → r.clip ≡ last.clip
      → r.explicit ≢ some ""
      → Follows instant last p.active_id r q.active_id
  visit-Follows last r p q run visited named clip filled = record {
    continued = visit_continues instant last r p q run visited;
    split = λ same late.
        let name = visit_splits instant last r p q run visited same late in
        (
          (λ e.
              renamed instant apart last r p.active_id named clip same filled late (sym name ∙ e)),
          name,
        );
    changed = visit_changes instant last r p q run visited;
  }

  assign_from-IsSegmented :
      (rs : List Record) (last : Record) (p : Progress) (ids : List String)
      → IsRunning last p
      → IsNamed instant last p.active_id
      → IsGroup last rs
      → assign_from instant p rs ≡ ok ids
      → IsSegmented instant last p.active_id rs ids
  assign_from-IsSegmented [] last p [] run named group e = tt
  assign_from-IsSegmented [] last p (id ∷ ids) run named group e = unfold assign_from in cc
  assign_from-IsSegmented (r ∷ rs) last p ids run named group e =
      let (q, rest, visited, assigned, split) = assign_from-eq-ok instant p r rs ids e in
      rw split (
        visit-Follows last r p q run visited named group.0 group.2,
        assign_from-IsSegmented rs r q rest (visit-IsRunning instant last r p q run visited)
            (visit-IsNamed last r p q run visited named group.0 group.1) group.3 assigned,
      )

  start-visit : (r : Record) → visit instant start r ≡ ok (opened_at instant r)
  unfolding visit is_gap is_explicit_change
  start-visit r = ground arith

  -- The identifiers of one clip, whose records are in order and whose explicit values are not blank:
  -- the first is that of its record; a record within 90 seconds of the one before and of the same
  -- explicit value has its identifier; a record of the same explicit value after a longer gap has a
  -- new one, made from that value and its own instant; and a record with another explicit value has the identifier made from that value.
  pub assign_from-segments :
      (r : Record) (rs : List Record) (ids : List String)
      → r.explicit ≢ some ""
      → IsGroup r rs
      → assign_from instant start (r ∷ rs) ≡ ok ids
      → (rest : List String) × (ids ≡ base_id instant r ∷ rest)
        × IsSegmented instant r (base_id instant r) rs rest
  assign_from-segments r rs ids filled group e =
      let (q, rest, visited, assigned, split) = assign_from-eq-ok instant start r rs ids e in
      let first : q ≡ opened_at instant r = ok-injective (sym visited ∙ start-visit r) in
      let assigned' = subst (λ p. assign_from instant p rs ≡ ok rest) first assigned in
      (
        rest,
        split ∙ ap (λ p. p.active_id ∷ rest) first,
        assign_from-IsSegmented rs r (opened_at instant r) rest
            (record { timed = refl; explicit = refl })
            (record {
              opener = r;
              marked = false;
              named = refl;
              mark_explicit = λ h. cc;
              same_clip = refl;
              same_explicit = refl;
              earlier = omega arith;
            })
            group assigned',
      )
