-- ===== src/ViewPlan/Total.antt =====
-- A plan that was accepted gives every frame its segment and its calibration.
use vaaet.Prelude.{
  eqb, if◌then◌else◌, Bool-cases, get_elem?, All, Result, ok, ◌>>=◌, ◌>>◌, ◌==◌, string_key,
  contains, ℕ, zero, suc, ◌+◌, ◌≤◌, String, ◌≡◌, refl, sym, ap, ◌∙◌, subst, inl, inr, true, false,
  some, List, [], ◌∷◌, arith, beq-false, nat_key,
}
use vaaet.ViewPlan.{
  PlanError, CameraCalibration, VideoViewSegment, covers, VideoViewPlan, check_segments,
  starts_late, profile_ids, video_view_plan, index_from, segment_index, profile_named,
  validate_frame_size, resolve_from, resolve,
}
use vaaet.ViewPlan.Cover.{IsConstructed, IsOnly, chain-IsOnly}

rest-IsOnly :
    (s u : VideoViewSegment) (segments : List VideoViewSegment) (frame i : ℕ)
    → IsOnly (s ∷ segments) frame (suc i) u
    → IsOnly segments frame i u
rest-IsOnly s u segments frame i h = record {
  at = h.at;
  covering = h.covering;
  only = λ j v at c. let next = h.only (suc j) v at c in omega (arith, next);
}

-- The first segment that covers a frame is the only one.
index_from-ok :
    (base : ℕ) (segments : List VideoViewSegment) (frame i : ℕ) (u : VideoViewSegment)
    → IsOnly segments frame i u
    → index_from base segments frame ≡ ok (base + i)
unfolding index_from
index_from-ok base [] frame i u h = let at = h.at in absurd (cc)
index_from-ok base (s ∷ segments) frame zero u h =
    let at = h.at in
    let same : s ≡ u = cc in
    let over : covers s frame ≡ true = subst (λ x. covers x frame ≡ true) (sym same) h.covering in
    ap (λ b. if b then ok base else index_from (base + 1) segments frame) over ∙ ap ok (omega arith)
index_from-ok base (s ∷ segments) frame (suc i) u h = elim (Bool-cases (covers s frame)) [
  | inl over ↦ let first = h.only 0 s refl over in absurd (omega (arith, first))
  | inr beyond ↦
      ap (λ b. if b then ok base else index_from (base + 1) segments frame) beyond
      ∙ index_from-ok (base + 1) segments frame i u (rest-IsOnly s u segments frame i h)
      ∙ ap ok (omega arith)
]

beq_flip : (x y : String) → (x == y) ≡ false → (y == x) ≡ false
beq_flip x y h = beq-false y x (λ e. let same = (string_key.test_iff x y).1 (sym e) in cc)

profile_named-ok :
    {R : Type 0} (name : String) (profiles : List (CameraCalibration R))
    → contains name (profile_ids profiles) ≡ true
    → (p : CameraCalibration R) × (profile_named name profiles ≡ ok p) × (p.profile_id ≡ name)
unfolding profile_ids profile_named
profile_named-ok name [] known = cc
profile_named-ok name (p ∷ profiles) known = elim (Bool-cases (p.profile_id == name)) [
  | inl same ↦ (
    p,
    ap (λ b. if b then ok p else profile_named name profiles) same,
    (string_key.test_iff p.profile_id name).0 same,
  )
  | inr other ↦
      let differs : (name == p.profile_id) ≡ false = beq_flip p.profile_id name other in
      let later : contains name (profile_ids profiles) ≡ true = ground arith in
      let (q, named, is_name) = profile_named-ok name profiles later in
      (q, ap (λ b. if b then ok p else profile_named name profiles) other ∙ named, is_name)
]

check_segments-known :
    (profiles : List String) (segments : List VideoViewSegment) (i : ℕ) (u : VideoViewSegment)
    → check_segments profiles segments ≡ ok tt
    → get_elem? segments i ≡ some u
    → contains u.profile_id profiles ≡ true
unfolding check_segments
check_segments-known profiles [] i u h at = cc
check_segments-known profiles (s ∷ []) zero u h at =
    let known : contains s.profile_id profiles ≡ true = ground arith in
    let same : s ≡ u = cc in subst (λ x. contains x.profile_id profiles ≡ true) same known
check_segments-known profiles (s ∷ []) (suc i) u h at = cc
check_segments-known profiles (s ∷ t ∷ segments) zero u h at =
    let known : contains s.profile_id profiles ≡ true = ground arith in
    let same : s ≡ u = cc in subst (λ x. contains x.profile_id profiles ≡ true) same known
check_segments-known profiles (s ∷ t ∷ segments) (suc i) u h at =
    let rest : check_segments profiles (t ∷ segments) ≡ ok tt = ground arith in
    check_segments-known profiles (t ∷ segments) i u rest at

plan-IsOnly :
    (profiles : List String) (segments : List VideoViewSegment) (frame : ℕ)
    → starts_late segments ≡ false
    → check_segments profiles segments ≡ ok tt
    → All IsConstructed segments
    → 1 ≤ frame
    → (i : ℕ) × (u : VideoViewSegment) × IsOnly segments frame i u
unfolding starts_late
plan-IsOnly profiles [] frame early h good started = cc
plan-IsOnly profiles (s ∷ segments) frame early h good started =
    let first : eqb s.start_frame 1 ≡ true = ground arith in
    chain-IsOnly profiles s segments frame h good (ground arith)

module _ {R : Type 0} (width height : ℕ) where
  abbrev sized : Result PlanError (CameraCalibration R) → Result PlanError (CameraCalibration R)
  sized found = found >>= λ p. validate_frame_size width height p >> ok p

  resolve_from-IsOnly :
      (profiles : List (CameraCalibration R)) (segments : List VideoViewSegment) (frame i : ℕ)
      (u : VideoViewSegment)
      → IsOnly segments frame i u
      → resolve_from profiles segments frame width height
        ≡ sized (profile_named u.profile_id profiles)
  unfolding resolve_from
  resolve_from-IsOnly profiles [] frame i u h = let at = h.at in absurd (cc)
  resolve_from-IsOnly profiles (s ∷ segments) frame zero u h =
      let at = h.at in
      let same : s ≡ u = cc in
      let over : covers s frame ≡ true = subst (λ x. covers x frame ≡ true) (sym same) h.covering in
      ap
        (λ b.
          if b
          then sized (profile_named s.profile_id profiles)
          else resolve_from profiles segments frame width height)
        over
      ∙ ap (λ (x : VideoViewSegment). sized (profile_named x.profile_id profiles)) same
  resolve_from-IsOnly profiles (s ∷ segments) frame (suc i) u h =
      elim (Bool-cases (covers s frame)) [
        | inl over ↦ let first = h.only 0 s refl over in absurd (omega (arith, first))
        | inr beyond ↦
            ap
              (λ b.
                if b
                then sized (profile_named s.profile_id profiles)
                else resolve_from profiles segments frame width height)
              beyond
            ∙ resolve_from-IsOnly profiles segments frame i u (rest-IsOnly s u segments frame i h)
      ]

  pub accepted-starts :
      (plan : VideoViewPlan R) → video_view_plan plan ≡ ok tt → starts_late plan.segments ≡ false
  unfolding video_view_plan
  accepted-starts plan h = ground arith

  pub accepted-chain :
      (plan : VideoViewPlan R)
      → video_view_plan plan ≡ ok tt
      → check_segments (profile_ids plan.profiles) plan.segments ≡ ok tt
  unfolding video_view_plan
  accepted-chain plan h = ground arith

  resolve-found :
      (plan : VideoViewPlan R) (frame i : ℕ) (u : VideoViewSegment) (p : CameraCalibration R)
      → IsOnly plan.segments frame i u
      → profile_named u.profile_id plan.profiles ≡ ok p
      → (segment_index plan frame ≡ ok i)
        × (resolve plan frame width height ≡ (validate_frame_size width height p >> ok p))
  unfolding segment_index resolve
  resolve-found plan frame i u p found named = (
    index_from-ok 0 plan.segments frame i u found ∙ ap ok (omega arith),
    resolve_from-IsOnly plan.profiles plan.segments frame i u found ∙ ap sized named,
  )

  pub profile_named-All :
      (Q : CameraCalibration R → Type 0) (name : String) (profiles : List (CameraCalibration R))
      (p : CameraCalibration R)
      → All Q profiles
      → profile_named name profiles ≡ ok p
      → Q p
  unfolding profile_named
  profile_named-All Q name [] p h named = absurd (cc)
  profile_named-All Q name (q ∷ profiles) p h named = elim (Bool-cases (q.profile_id == name)) [
    | inl found ↦ let same : q ≡ p = ground arith in subst Q same h.0
    | inr other ↦ profile_named-All Q name profiles p h.1 (ground arith)
  ]

  pub resolve-named :
      (plan : VideoViewPlan R) (frame : ℕ)
      → video_view_plan plan ≡ ok tt
      → All IsConstructed plan.segments
      → 1 ≤ frame
      → (i : ℕ) × (u : VideoViewSegment) × (p : CameraCalibration R) × IsOnly plan.segments frame i
          u
        × (segment_index plan frame ≡ ok i)
        × (profile_named u.profile_id plan.profiles ≡ ok p)
        × (p.profile_id ≡ u.profile_id)
        × (resolve plan frame width height ≡ (validate_frame_size width height p >> ok p))
  resolve-named plan frame h good started =
      let chain = accepted-chain plan h in
      let (i, u, found) =
        plan-IsOnly (profile_ids plan.profiles) plan.segments frame (accepted-starts plan h) chain
          good started in
      let (p, named, is_name) =
        profile_named-ok u.profile_id plan.profiles
          (check_segments-known (profile_ids plan.profiles) plan.segments i u chain found.at) in
      let (index, resolved) = resolve-found plan frame i u p found named in
      (i, u, p, found, index, named, is_name, resolved)

  -- A plan that was accepted, of segments that were constructed, covers every frame from the first
  -- on by exactly one segment, whose index is the one found; and it resolves the frame to a
  -- calibration of that segment's profile, unless only the size of the frame differs.
  pub resolve-IsOnly :
      (plan : VideoViewPlan R) (frame : ℕ)
      → video_view_plan plan ≡ ok tt
      → All IsConstructed plan.segments
      → 1 ≤ frame
      → (i : ℕ) × (u : VideoViewSegment) × (p : CameraCalibration R) × IsOnly plan.segments frame i
          u
        × (segment_index plan frame ≡ ok i)
        × (p.profile_id ≡ u.profile_id)
        × (resolve plan frame width height ≡ (validate_frame_size width height p >> ok p))
  resolve-IsOnly plan frame h good started =
      let (i, u, p, found, index, _, is_name, resolved) = resolve-named plan frame h good started in
      (i, u, p, found, index, is_name, resolved)
