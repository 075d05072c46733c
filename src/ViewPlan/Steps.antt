-- ===== src/ViewPlan/Steps.antt =====
-- From frame to frame the view of a plan stays or is the next one: proofs about `segment_index` of
-- vaaet-core/src/vaaet/vision/view_plan.py.
use vaaet.Prelude.{
  leb, if◌then◌else◌, Bool-cases, is_some, All, ok, err, option_eq, ℕ, ◌+◌, ◌≤◌, String, ◌≡◌, refl,
  sym, ap, ◌∙◌, subst, ◌⊎◌, inl, inr, true, false, some, List, [], ◌∷◌, arith, option_eq_iff,
  ok-injective, nat_key, string_key,
}
use vaaet.ViewPlan.{
  VideoViewSegment, VideoViewPlan, video_view_segment, video_view_plan, covers, ends_by,
  check_segments, starts_late, index_from, segment_index, profile_ids,
}
use vaaet.ViewPlan.Cover.{IsConstructed, covers-ended}
use vaaet.ViewPlan.Total.{accepted-chain, accepted-starts, resolve-IsOnly}

-- The index of the view of a frame, 0 where there is none.
unfoldable pub view : {R : Type 0} → VideoViewPlan R → ℕ → ℕ
view plan frame = elim (segment_index plan frame) [ ok i ↦ i | err _ ↦ 0 ]

index-here :
    (base : ℕ) (s : VideoViewSegment) (segments : List VideoViewSegment) (frame : ℕ)
    → covers s frame ≡ true
    → index_from base (s ∷ segments) frame ≡ ok base
unfolding index_from
index-here base s segments frame h =
    ap (λ b. if b then ok base else index_from (base + 1) segments frame) h

index-later :
    (base : ℕ) (s : VideoViewSegment) (segments : List VideoViewSegment) (frame : ℕ)
    → covers s frame ≡ false
    → index_from base (s ∷ segments) frame ≡ index_from (base + 1) segments frame
unfolding index_from
index-later base s segments frame h =
    ap (λ b. if b then ok base else index_from (base + 1) segments frame) h

-- A constructed segment covers its first frame.
covers-start : (s : VideoViewSegment) → IsConstructed s → covers s s.start_frame ≡ true
unfolding video_view_segment covers
covers-start s h =
    let open_at : ends_by s.end_frame s.start_frame ≡ false = ground arith in ground arith

chain-step :
    (profiles : List String) (segments : List VideoViewSegment) (base : ℕ) (s : VideoViewSegment)
    (frame i : ℕ)
    → check_segments profiles (s ∷ segments) ≡ ok tt
    → All IsConstructed (s ∷ segments)
    → s.start_frame ≤ frame
    → index_from base (s ∷ segments) frame ≡ ok i
    → (index_from base (s ∷ segments) (frame + 1) ≡ ok i)
      ⊎ (index_from base (s ∷ segments) (frame + 1) ≡ ok (i + 1))
unfolding check_segments
chain-step profiles [] base s frame i h good started at =
    let unbounded : is_some s.end_frame ≡ false = ground arith in
    let here = last-covers s frame unbounded started in
    let next = last-covers s (frame + 1) unbounded (omega arith) in
    inl (index-here base s [] (frame + 1) next ∙ sym (index-here base s [] frame here) ∙ at)
  where
    last-covers :
        (s : VideoViewSegment) (n : ℕ)
        → is_some s.end_frame ≡ false
        → s.start_frame ≤ n
        → covers s n ≡ true
    last-covers s n unbounded h = unfold covers in ground arith
chain-step profiles (t ∷ segments) base s frame i h good started at =
    let rest : check_segments profiles (t ∷ segments) ≡ ok tt = ground arith in
    let linked : option_eq s.end_frame (some t.start_frame) ≡ true = ground arith in
    let ended : s.end_frame ≡ some t.start_frame =
      (option_eq_iff s.end_frame (some t.start_frame)).0 linked in
    let now = covers-ended s t.start_frame frame ended in
    let next = covers-ended s t.start_frame (frame + 1) ended in
    elim (Bool-cases (leb t.start_frame frame)) [
      | inl reached ↦
          let over : covers s frame ≡ false = now ∙ ground arith in
          let over' : covers s (frame + 1) ≡ false = next ∙ ground arith in
          let same = index-later base s (t ∷ segments) (frame + 1) over' in
          elim (chain-step profiles segments (base + 1) t frame i rest good.1 (ground arith)
            (sym (index-later base s (t ∷ segments) frame over) ∙ at)) [
              | inl stays ↦ inl (same ∙ stays)
              | inr moves ↦ inr (same ∙ moves)
            ]
      | inr before ↦
          let here : covers s frame ≡ true = now ∙ ground arith in
          let is_base =
            ok-injective base i (sym (index-here base s (t ∷ segments) frame here) ∙ at) in
          elim (Bool-cases (leb t.start_frame (frame + 1))) [
            | inl border ↦
                let over : covers s (frame + 1) ≡ false = next ∙ ground arith in
                let starts : t.start_frame ≡ frame + 1 = ground arith in
                let covered : covers t (frame + 1) ≡ true =
                  subst (λ n. covers t n ≡ true) starts (covers-start t good.1.0) in
                inr (
                  index-later base s (t ∷ segments) (frame + 1) over
                  ∙ index-here (base + 1) t segments (frame + 1) covered
                  ∙ ap (λ n. ok (n + 1)) is_base)
            | inr inside ↦
                let still : covers s (frame + 1) ≡ true = next ∙ ground arith in
                inl (index-here base s (t ∷ segments) (frame + 1) still ∙ ap ok is_base)
          ]
    ]

module _ {R : Type 0} (plan : VideoViewPlan R) (accepted : video_view_plan plan ≡ ok tt)
    (constructed : All IsConstructed plan.segments) where
  pub segment_index-view : (frame : ℕ) → 1 ≤ frame → segment_index plan frame ≡ ok (view plan frame)
  unfolding view
  segment_index-view frame h =
      let (i, _, _, _, found, _, _) = resolve-IsOnly 1 1 plan frame accepted constructed h in
      found ∙ ap ok (sym (ap (λ m. elim m [ ok j ↦ j | err _ ↦ 0 ]) found))

  -- The first frame has the first view.
  pub view-one : view plan 1 ≡ 0
  unfolding view segment_index starts_late
  view-one = first plan.segments (accepted-starts 1 1 plan accepted) constructed
    where
      first :
          (segments : List VideoViewSegment)
          → starts_late segments ≡ false
          → All IsConstructed segments
          → elim (index_from 0 segments 1) [ ok i ↦ i | err _ ↦ 0 ] ≡ 0
      first [] late good = cc
      first (s ∷ segments) late good =
          let starts : s.start_frame ≡ 1 = ground arith in
          let here = subst (λ n. covers s n ≡ true) starts (covers-start s good.0) in
          rw (index-here 0 s segments 1 here) refl

  pub view-step :
      (frame : ℕ)
      → 1 ≤ frame
      → (view plan (frame + 1) ≡ view plan frame) ⊎ (view plan (frame + 1) ≡ view plan frame + 1)
  unfolding segment_index starts_late
  view-step frame h =
      let here = segment_index-view frame h in
      let next = segment_index-view (frame + 1) (omega arith) in
      step plan.segments (accepted-starts 1 1 plan accepted) (accepted-chain 1 1 plan accepted)
        constructed here next
    where
      step :
          (segments : List VideoViewSegment)
          → starts_late segments ≡ false
          → check_segments (profile_ids plan.profiles) segments ≡ ok tt
          → All IsConstructed segments
          → index_from 0 segments frame ≡ ok (view plan frame)
          → index_from 0 segments (frame + 1) ≡ ok (view plan (frame + 1))
          → (view plan (frame + 1) ≡ view plan frame)
            ⊎ (view plan (frame + 1) ≡ view plan frame + 1)
      step [] late chain good here next = cc
      step (s ∷ segments) late chain good here next =
          let starts : s.start_frame ≡ 1 = ground arith in
          elim (chain-step (profile_ids plan.profiles) segments 0 s frame (view plan frame) chain
            good (omega arith) here) [
              | inl stays ↦ inl (ok-injective _ _ (sym next ∙ stays))
              | inr moves ↦ inr (ok-injective _ _ (sym next ∙ moves))
            ]
