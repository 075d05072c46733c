-- ===== src/Eligibility/Checks.antt =====
-- The checks of vaaet-core/src/vaaet/eligibility.py on a single value: when they append no error.
use vaaet.Prelude.{
  Bool-cases, All, ok, err, ◌>>=◌, String, ◌≡◌, refl, ap, ◌↔◌, inl, inr, Bool, true, false, not,
  ◌&&◌, ◌||◌, Option, none, some, List, [], ◌∷◌, ◌++◌, bind-eq-ok, ℤ,
}
use vaaet.Float.{FloatOps}
use vaaet.ViewPlan.Payload.{Value}
use vaaet.Eligibility.{
  EvidenceError, must_be_below, Checked, note, joined, finite, converted, below, not_below,
  number_of, minimum, maximum,
}
use vaaet.Eligibility.Evidence.{IsNumber, IsAtLeast, IsBelow}

pub or-false : (a b : Bool) → ((a || b) ≡ false) ↔ (a ≡ false) × (b ≡ false)
or-false true b = ((λ h. cc), (λ h. cc))
or-false false b = ((λ h. (refl, h)), (λ h. h.1))

pub and-true : (a b : Bool) → ((a && b) ≡ true) ↔ (a ≡ true) × (b ≡ true)
and-true true b = ((λ h. (refl, h)), (λ h. h.1))
and-true false b = ((λ h. cc), (λ h. cc))

module _ {F : Type 0} where
  pub note-ok :
      (failed : Bool) (e : EvidenceError F)
      → (◌≡◌ {A = Checked F} (ok (note failed e)) (ok [])) ↔ (failed ≡ false)
  unfolding note
  note-ok true e = ((λ h. cc), (λ h. cc))
  note-ok false e = ((λ _. refl), (λ _. refl))

  -- A requirement that the code tests by its negation.
  pub require-ok :
      (holds : Bool) (e : EvidenceError F)
      → (◌≡◌ {A = Checked F} (ok (note (not holds) e)) (ok [])) ↔ (holds ≡ true)
  unfolding note
  require-ok true e = ((λ _. refl), (λ _. refl))
  require-ok false e = ((λ h. cc), (λ h. cc))

  pub append-ok :
      (m n : Checked F)
      → ((m >>= λ xs. n >>= λ ys. ok (xs ++ ys)) ≡ ok []) ↔ (m ≡ ok []) × (n ≡ ok [])
  append-ok (err e) n = ((λ h. cc), (λ h. absurd (cc)))
  append-ok (ok []) (err e) = ((λ h. cc), (λ h. absurd (cc)))
  append-ok (ok (x ∷ xs)) (err e) = ((λ h. cc), (λ h. absurd (cc)))
  append-ok (ok []) (ok ys) = ((λ h. (refl, h)), (λ h. h.1))
  append-ok (ok (x ∷ xs)) (ok ys) = ((λ h. cc), (λ h. absurd (cc)))

  pub joined-ok : (ms : List (Checked F)) → (joined ms ≡ ok []) ↔ All (λ m. m ≡ ok []) ms
  unfolding joined
  joined-ok [] = ((λ _. tt), (λ _. refl))
  joined-ok (m ∷ ms) =
      let both = append-ok m (joined ms) in
      let rest = joined-ok ms in
      ((λ h. ((both.0 h).0, rest.0 (both.0 h).1)), (λ h. both.1 (h.0, rest.1 h.1)))

module _ {F : Type 0} ⦃f : FloatOps F⦄ (float_of : ℤ → Option F) where
  finite-some : (y x : F) → (finite y ≡ some x) ↔ (y ≡ x) × (f.is_finite x ≡ true)
  finite-some y x = elim (Bool-cases (f.is_finite y)) [
    | inl kept ↦ rw kept ((λ h. (cc, cc)), (λ h. ap some h.0))
    | inr lost ↦ rw lost ((λ h. absurd (cc)), (λ h. absurd (cc)))
  ]

  converted-some :
      (o : Option F) (x : F) → (converted o ≡ ok (some x)) ↔ (o ≡ some x) × (f.is_finite x ≡ true)
  converted-some none x = ((λ h. cc), (λ h. absurd (cc)))
  converted-some (some y) x =
      let test = finite-some y x in
      (
        (λ h. let (same, kept) = test.0 (cc) in (ap some same, kept)),
        (λ h. let same : y ≡ x = cc in ap ok (test.1 (same, h.1))),
      )

  pub number_of_iff :
      (v : Value F) (x : F) → (number_of float_of v ≡ ok (some x)) ↔ IsNumber float_of v x
  unfolding number_of
  number_of_iff (Value.integer i) x = converted-some (float_of i) x
  number_of_iff (Value.number y) x =
      let test = finite-some y x in ((λ h. test.0 (cc)), (λ h. ap ok (test.1 h)))
  number_of_iff (Value.array xs) x = ((λ h. cc), (λ h. absurd h))
  number_of_iff (Value.object es) x = ((λ h. cc), (λ h. absurd h))
  number_of_iff (Value.boolean b) x = ((λ h. cc), (λ h. absurd h))
  number_of_iff Value.null x = ((λ h. cc), (λ h. absurd h))
  number_of_iff (Value.text b) x = ((λ h. cc), (λ h. absurd h))
  number_of_iff Value.other x = ((λ h. cc), (λ h. absurd h))

  read-some :
      (v : Value F) (next : Option F → Checked F)
      → ¬ (next none ≡ ok [])
      → (o : Option F) → number_of float_of v ≡ ok o
      → next o ≡ ok []
      → (x : F) × IsNumber float_of v x × (next (some x) ≡ ok [])
  read-some v next refused none read good = absurd (refused good)
  read-some v next refused (some x) read good = (x, (number_of_iff v x).0 read, good)

  -- A number that is read before a check which refuses one that is missing.
  pub read-ok :
      (v : Value F) (next : Option F → Checked F)
      → ¬ (next none ≡ ok [])
      → ((number_of float_of v >>= next) ≡ ok [])
        ↔ ((x : F) × IsNumber float_of v x × (next (some x) ≡ ok []))
  read-ok v next refused = (
    (λ h.
        let (o, read, good) = bind-eq-ok (number_of float_of v) next h in
        read-some v next refused o read good),
    (λ (x, is, good). rw ((number_of_iff v x).1 is) good),
  )

  -- A check of one number that refuses one that is missing.
  pub single-ok :
      (v : Value F) (failed : Option F → Bool) (e : EvidenceError F)
      → failed none ≡ true
      → ((number_of float_of v >>= λ x. ok (note (failed x) e)) ≡ ok [])
        ↔ ((x : F) × IsNumber float_of v x × (failed (some x) ≡ false))
  single-ok v failed e refused =
      let next : Option F → Checked F = λ x. ok (note (failed x) e) in
      let missing : ¬ (next none ≡ ok []) = λ h. let passed = (note-ok (failed none) e).0 h in cc in
      let read = read-ok v next missing in
      (
        (λ h. let (x, is, good) = read.0 h in (x, is, (note-ok _ e).0 good)),
        (λ (x, is, good). read.1 (x, is, (note-ok _ e).1 good)),
      )

  pub minimum-ok :
      (v : Value F) (threshold : F) (label : String)
      → (minimum float_of v threshold label ≡ ok []) ↔ IsAtLeast float_of threshold v
  unfolding minimum
  minimum-ok v threshold label = single-ok v (below threshold) _ refl

  pub maximum-ok :
      (v : Value F) (threshold : F) (label : String)
      → (maximum float_of v threshold label ≡ ok []) ↔ IsBelow float_of threshold v
  unfolding maximum
  maximum-ok v threshold label =
      let read = single-ok v (not_below threshold) (must_be_below label threshold) refl in
      (
        (λ h. let (x, is, good) = read.0 h in let (a, b) = (or-false _ _).0 good in (x, is, a, b)),
        (λ (x, is, a, b). read.1 (x, is, (or-false _ _).1 (a, b))),
      )
