-- ===== src/Pipeline/Limit.antt =====
-- How many frames `run` of vaaet-core/src/vaaet/vision/pipeline.py processes and writes.
use vaaet.Prelude.{
  leb, Bool-cases, length, length-append, Result, ok, err, ◌>>=◌, ℕ, zero, suc, ◌+◌, ◌-◌, min, ◌≡◌,
  refl, sym, ap, ◌∙◌, subst, inl, inr, Option, none, some, List, [], ◌∷◌, arith, bind-eq-ok, take,
  ok-injective, if_true, if_false,
}
use vaaet.Float.{FloatOps}
use vaaet.Pipeline.{VideoError, Externals, Config, Session}
use vaaet.Pipeline.Run.{
  Progressed, PipelineRunOutput, run, run_from, output_of, is_limit, step_frame,
}

bind-cong :
    {A B : Type 0} (m : Result VideoError A) (g h : A → Result VideoError B)
    → ((x : A) → g x ≡ h x)
    → (m >>= g) ≡ (m >>= h)
bind-cong (ok x) g h same = same x
bind-cong (err e) g h same = refl

take_nil : {A : Type 0} (n : ℕ) → take {A = A} n [] ≡ []
take_nil zero = refl
take_nil (suc n) = refl

length-take : {A : Type 0} (n : ℕ) (xs : List A) → length (take n xs) ≡ min n (length xs)
length-take zero xs = omega arith
length-take (suc n) [] = omega arith
length-take (suc n) (x ∷ xs) = omega (arith, length-take n xs)

-- The number of frames that a run takes of those that there are.
unfoldable pub limited : Option ℕ → ℕ → ℕ
limited none available = available
limited (some n) available = min n available

module _ {Frame Gray F T : Type 0} ⦃f : FloatOps F⦄ (ext : Externals Frame Gray F T)
    (cfg : Config F) where
  run_from-take :
      (n : ℕ) (frames : List Frame) (p : Progressed Frame Gray F T)
      → run_from ext cfg (some n) frames p
        ≡ run_from ext cfg none (take (n - p.frames_processed) frames) p
  unfolding run_from is_limit
  run_from-take n [] p =
      ap (λ fs. run_from ext cfg none fs p) (sym (take_nil (n - p.frames_processed)))
  run_from-take n (frame ∷ frames) p = elim (Bool-cases (leb n p.frames_processed)) [
    | inl limit ↦
        let none_left : 0 ≡ n - p.frames_processed = ground arith in
        if_true (leb n p.frames_processed) (ok p) _ limit
        ∙ ap (λ i. run_from ext cfg none (take i (frame ∷ frames)) p) none_left
    | inr more ↦
        let left : suc (n - (p.frames_processed + 1)) ≡ n - p.frames_processed = ground arith in
        if_false (leb n p.frames_processed) (ok p) _ more
        ∙ bind-cong (step_frame ext cfg (p.frames_processed + 1) frame p.session) _ _
            (λ out. run_from-take n frames _)
        ∙ ap (λ i. run_from ext cfg none (take i (frame ∷ frames)) p) left
  ]

  -- A maximum of frames is the run without one over the first frames: what comes later is not read.
  pub run-take :
      (n : ℕ) (frames : List Frame) (s : Session Gray F T)
      → run ext cfg (some n) frames s ≡ run ext cfg none (take n frames) s
  unfolding run
  run-take n frames s =
      let start : Progressed Frame Gray F T = record {
        session = s;
        frames_processed = 0;
        written = [];
      } in
      let whole : n - 0 ≡ n = omega arith in
      let finish : Progressed Frame Gray F T
          → Result VideoError (PipelineRunOutput F T × List Frame) =
        λ p. ok (output_of ext cfg p, p.written) in
      ap (λ m. m >>= finish)
        (run_from-take n frames start ∙ ap (λ i. run_from ext cfg none (take i frames) start) whole)

  -- Without a maximum every frame is processed and written.
  run_from-all :
      (frames : List Frame) (p p' : Progressed Frame Gray F T)
      → run_from ext cfg none frames p ≡ ok p'
      → (p'.frames_processed ≡ p.frames_processed + length frames)
        × (length p'.written ≡ length p.written + length frames)
  unfolding run_from is_limit
  run_from-all [] p p' h =
      let same = ok-injective p p' h in
      subst
        (λ (x : Progressed Frame Gray F T).
          (x.frames_processed ≡ p.frames_processed + 0) × (length x.written ≡ length p.written + 0))
        same (omega arith, omega arith)
  run_from-all (frame ∷ frames) p p' h =
      let (out, _, rest) =
        bind-eq-ok (step_frame ext cfg (p.frames_processed + 1) frame p.session) _ h in
      let (count, size) = run_from-all frames _ p' rest in
      let grown = length-append p.written (out.1 ∷ []) in
      (omega (arith, count), omega (arith, size, grown))

  run-all :
      (frames written : List Frame) (s : Session Gray F T) (out : PipelineRunOutput F T)
      → run ext cfg none frames s ≡ ok (out, written)
      → (out.frames_processed ≡ length frames) × (length written ≡ length frames)
  unfolding run output_of
  run-all frames written s out h =
      let (p, looped, ended) = bind-eq-ok (run_from ext cfg none frames _) _ h in
      let (count, size) = run_from-all frames _ p looped in
      let same = ok-injective _ _ ended in
      subst
        (λ (x : PipelineRunOutput F T × List Frame).
          (x.0.frames_processed ≡ length frames) × (length x.1 ≡ length frames))
        same (omega (arith, count), omega (arith, size))

  pub run-limited :
      (max_frames : Option ℕ) (frames written : List Frame) (s : Session Gray F T)
      (out : PipelineRunOutput F T)
      → run ext cfg max_frames frames s ≡ ok (out, written)
      → (out.frames_processed ≡ limited max_frames (length frames))
        × (length written ≡ limited max_frames (length frames))
  unfolding limited
  run-limited none frames written s out h = run-all frames written s out h
  run-limited (some n) frames written s out h =
      let (count, size) = run-all (take n frames) written s out (sym (run-take n frames s) ∙ h) in
      let taken = length-take n frames in (count ∙ taken, size ∙ taken)
