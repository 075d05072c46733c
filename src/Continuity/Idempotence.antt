-- ===== src/Continuity/Idempotence.antt =====
-- A second normalization changes nothing: the contract that vaaet-core/src/vaaet/continuity.py
-- states beside `_assign_continuity`.
use text.Mathlib.TextLemmas.{length-append}
use Prim.Native.String.{count, ◌++◌ as ◌^◌}
use vaaet.Prelude.{
  ltb, tests, Bool-cases, Option-cases, is_some, ok, succeeds, ◌==◌, string_key, option_eq, ℕ, ◌+◌,
  ◌≤◌, ◌<◌, String, ◌≡◌, refl, sym, ap, ◌∙◌, subst, ◌≢◌, inl, inr, Bool, true, false, some, List,
  [], ◌∷◌, arith, option_eq_iff, Result-cases, nat_key,
}
use vaaet.Prelude.Text.{concat}
use vaaet.Continuity.{Record, start, gap_limit, base_id, new_id, assign_from}
use vaaet.Continuity.Segments.{Follows, IsGroup, IsSegmented, assign_from-segments}
use vaaet.Continuity.Names.{Distinguishes, is_filled}
use vaaet.Continuity.Blocks.{blocks, has_repeat, explicits, assign_from-succeeds}

-- The records of the first result: each has its identifier for an explicit value.
unfoldable pub relabel : List Record → List String → List Record
relabel (r ∷ rs) (id ∷ ids) = record r { explicit = some id } ∷ relabel rs ids
relabel _ _ = []

-- Where the explicit value changes, the identifier made from it is not the one that was running.
abbrev pub IsSeparated : Record → String → List Record → List String → Type 0
IsSeparated last before (r ∷ rs) (id ∷ ids) =
    (r.explicit ≢ last.explicit → id ≢ before) × IsSeparated r id rs ids
IsSeparated last before _ _ = Unit

generated-ne-nil : (s m t : String) → 0 < count m → concat (s ∷ m ∷ t ∷ []) ≢ ""
generated-ne-nil s m t h e =
    omega (arith, length-append s (m ^ (t ^ "")), length-append m (t ^ ""), ap count e)

base_id-ne-nil : (instant : ℕ → String) (r : Record) → r.explicit ≢ some "" → base_id instant r ≢ ""
base_id-ne-nil instant r filled = elim (Option-cases r.explicit) [
  | inl absent ↦ rw absent (generated-ne-nil r.clip ":continuity-" (instant r.time) (omega arith))
  | inr (e, present) ↦
      let some_filled : some e ≢ some "" = λ h. filled (present ∙ h) in
      rw (present, is_filled e some_filled) (λ h. some_filled (ap some h))
]

new_id-ne-nil :
    (instant : ℕ → String) (marked : Bool) (r : Record)
    → r.explicit ≢ some ""
    → new_id instant marked r ≢ ""
new_id-ne-nil instant true r filled =
    generated-ne-nil (base_id instant r) ":gap-" (instant r.time) (omega arith)
new_id-ne-nil instant false r filled = base_id-ne-nil instant r filled

module _ (instant : ℕ → String) where
  -- An identifier of the first result is not empty.
  Follows-ne-nil :
      (last r : Record) (before id : String)
      → Follows instant last before r id
      → r.explicit ≢ some ""
      → before ≢ ""
      → id ≢ ""
  Follows-ne-nil last r before id f filled named =
      elim (Bool-cases (option_eq r.explicit last.explicit)) [
        | inl equal ↦
            let same = (option_eq_iff r.explicit last.explicit).0 equal in
            elim (Bool-cases (ltb (last.time + gap_limit) r.time)) [
              | inl gap ↦
                  rw ((f.split same (omega tests)).1)
                    (new_id-ne-nil instant (is_some r.explicit) r filled)
              | inr close ↦ rw (f.continued same (ground arith)) named
            ]
        | inr different ↦
            rw (f.changed (λ e. cc ((option_eq_iff r.explicit last.explicit).1 e)))
              (base_id-ne-nil instant r filled)
      ]

  abbrev named : Record → String → Record
  named r id = record r { explicit = some id }

  relabel-IsGroup :
      (rs : List Record) (last : Record) (before : String) (ids : List String)
      → IsGroup last rs
      → IsSegmented instant last before rs ids
      → before ≢ ""
      → IsGroup (named last before) (relabel rs ids)
  unfolding relabel
  relabel-IsGroup [] last before [] g s h = tt
  relabel-IsGroup [] last before (id ∷ ids) g s h = absurd s
  relabel-IsGroup (r ∷ rs) last before [] g s h = absurd s
  relabel-IsGroup (r ∷ rs) last before (id ∷ ids) g s h =
      let filled = Follows-ne-nil last r before id s.0 g.2 h in
      (g.0, g.1, (λ e. filled (cc)), relabel-IsGroup rs r id ids g.3 s.1 filled)

  -- The same name twice in a row means that the records are close.
  close_of_same :
      (last r : Record) (before id : String)
      → Follows instant last before r id
      → (r.explicit ≢ last.explicit → id ≢ before)
      → id ≡ before
      → r.time ≤ last.time + gap_limit
  close_of_same last r before id f sep same =
      elim (Bool-cases (ltb (last.time + gap_limit) r.time)) [
        | inr close ↦ ground arith
        | inl gap ↦ elim (Bool-cases (option_eq r.explicit last.explicit)) [
          | inl equal ↦
              absurd
                ((f.split ((option_eq_iff r.explicit last.explicit).0 equal) (omega tests)).0 same)
          | inr different ↦
              absurd (sep (λ e. cc ((option_eq_iff r.explicit last.explicit).1 e)) same)
        ]
      ]

  second_name :
      (last r : Record) (before id again : String)
      → Follows instant last before r id
      → (r.explicit ≢ last.explicit → id ≢ before)
      → id ≢ ""
      → Follows instant (named last before) before (named r id) again
      → again ≡ id
  second_name last r before id again f sep filled f' = elim (Bool-cases (id == before)) [
    | inl equal ↦
        let same = (string_key.test_iff id before).0 equal in
        f'.continued (ap some same) (close_of_same last r before id f sep same) ∙ sym same
    | inr different ↦
        f'.changed (λ e. cc ((string_key.test_iff id before).1 (cc)))
        ∙ rw (is_filled id (λ e. filled (cc)))
  ]

  -- A second pass over named records gives each record its own name.
  second_pass :
      (rs : List Record) (last : Record) (before : String) (ids again : List String)
      → IsGroup last rs
      → IsSegmented instant last before rs ids
      → IsSeparated last before rs ids
      → before ≢ ""
      → IsSegmented instant (named last before) before (relabel rs ids) again
      → again ≡ ids
  unfolding relabel
  second_pass [] last before [] [] g s sep h s' = refl
  second_pass [] last before [] (a ∷ again) g s sep h s' = absurd s'
  second_pass [] last before (id ∷ ids) again g s sep h s' = absurd s
  second_pass (r ∷ rs) last before [] again g s sep h s' = absurd s
  second_pass (r ∷ rs) last before (id ∷ ids) [] g s sep h s' = absurd s'
  second_pass (r ∷ rs) last before (id ∷ ids) (a ∷ again) g s sep h s' =
      let filled = Follows-ne-nil last r before id s.0 g.2 h in
      let name = second_name last r before id a s.0 sep.0 filled s'.0 in
      let tail = subst (λ b. IsSegmented instant (named r id) b (relabel rs ids) again) name s'.1 in
      let rest = second_pass rs r id ids again g.3 s.1 sep.1 filled tail in cc

module _ (instant : ℕ → String) (apart : Distinguishes instant) where
  second_result :
      (r : Record) (rs : List Record) (id : String) (ids again : List String)
      → id ≢ ""
      → r.explicit ≢ some ""
      → IsGroup r rs
      → IsSegmented instant r id rs ids
      → IsSeparated r id rs ids
      → assign_from instant start (named instant r id ∷ relabel rs ids) ≡ ok again
      → again ≡ id ∷ ids
  second_result r rs id ids again h filled group segments sep assigned =
      let (rest, split, segments2) =
        assign_from-segments instant apart (named instant r id) (relabel rs ids) again (λ e. h (cc))
          (relabel-IsGroup instant rs r id ids group segments h) assigned in
      let name : base_id instant (named instant r id) ≡ id = rw (is_filled id (λ e. h (cc))) in
      let segments2' =
        subst (λ b. IsSegmented instant (named instant r id) b (relabel rs ids) rest) name
          segments2 in
      let same = second_pass instant rs r id ids rest group segments sep h segments2' in cc

  -- Normalizing twice is normalizing once: where a clip was normalized, no identifier that was made
  -- from a new explicit value is the one that was running, and no identifier heads two blocks, the
  -- second normalization, whose explicit values are those identifiers, raises nothing and returns
  -- them unchanged.
  pub assign_from_idem :
      (r : Record) (rs : List Record) (id : String) (ids : List String)
      → r.explicit ≢ some ""
      → IsGroup r rs
      → assign_from instant start (r ∷ rs) ≡ ok (id ∷ ids)
      → IsSeparated r id rs ids
      → has_repeat [] (some id ∷ blocks (some id) (explicits (relabel rs ids))) ≡ false
      → assign_from instant start (relabel (r ∷ rs) (id ∷ ids)) ≡ ok (id ∷ ids)
  unfolding relabel
  assign_from_idem r rs id ids filled group first sep distinct =
      let (rest, split, segments) =
        assign_from-segments instant apart r rs (id ∷ ids) filled group first in
      let e : id ≡ base_id instant r = cc in
      let t : ids ≡ rest = cc in
      let segments' = subst (λ b. IsSegmented instant r b rs ids) (sym e) (rw t segments) in
      let h : id ≢ "" = rw e (base_id-ne-nil instant r filled) in
      let done = assign_from-succeeds instant (named instant r id) (relabel rs ids) in
      elim (Result-cases (assign_from instant start (named instant r id ∷ relabel rs ids))) [
        | inl (error, failed) ↦ cc (done, distinct, ap succeeds failed)
        | inr (again, assigned) ↦
            assigned ∙ ap ok (second_result r rs id ids again h filled group segments' sep assigned)
      ]
