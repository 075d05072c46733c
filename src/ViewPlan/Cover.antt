-- ===== src/ViewPlan/Cover.antt =====
-- Every frame of a plan has one segment, and its calibration.
use vaaet.Prelude.{
  ltb, leb, Bool-cases, is_some, get_elem?, All, ok, option_eq, ℕ, zero, suc, ◌≤◌, String, ◌≡◌,
  refl, sym, ap, ◌∙◌, subst, inl, inr, true, false, not, ◌&&◌, some, List, [], ◌∷◌, arith,
  option_eq_iff, nat_key, string_key,
}
use vaaet.ViewPlan.{VideoViewSegment, ends_by, video_view_segment, covers, check_segments}

abbrev pub IsConstructed : VideoViewSegment → Type 0
IsConstructed s = video_view_segment s ≡ ok tt

-- The later segments of a chain start no earlier than its first.
starts-le :
    (profiles : List String) (s u : VideoViewSegment) (segments : List VideoViewSegment) (j : ℕ)
    → check_segments profiles (s ∷ segments) ≡ ok tt
    → All IsConstructed (s ∷ segments)
    → get_elem? (s ∷ segments) j ≡ some u
    → s.start_frame ≤ u.start_frame
unfolding check_segments video_view_segment
starts-le profiles s u segments zero h good at =
    let same : s ≡ u = cc in subst (λ x. s.start_frame ≤ x.start_frame) same (omega arith)
starts-le profiles s u [] (suc j) h good at = cc
starts-le profiles s u (t ∷ segments) (suc j) h good at =
    let rest : check_segments profiles (t ∷ segments) ≡ ok tt = ground arith in
    let later = starts-le profiles t u segments j rest good.1 at in
    let linked : option_eq s.end_frame (some t.start_frame) ≡ true = ground arith in
    let ended : s.end_frame ≡ some t.start_frame =
      (option_eq_iff s.end_frame (some t.start_frame)).0 linked in
    let constructed = good.0 in
    let shorter : ends_by s.end_frame s.start_frame ≡ false = ground arith in
    let shorter_by : leb t.start_frame s.start_frame ≡ false =
      ap (λ e. ends_by e s.start_frame) (sym ended) ∙ shorter in
    ground arith

-- The one segment of a list that covers a frame.
pub record IsOnly (segments : List VideoViewSegment) (frame i : ℕ) (u : VideoViewSegment)
    : Type 0 where
  pub at : get_elem? segments i ≡ some u
  pub covering : covers u frame ≡ true
  pub only :
      (j : ℕ) (v : VideoViewSegment) → get_elem? segments j ≡ some v → covers v frame ≡ true → j ≡ i

-- A chain that ends open, from a frame that its first segment has reached.
last-IsOnly :
    (s : VideoViewSegment) (frame : ℕ)
    → is_some s.end_frame ≡ false
    → s.start_frame ≤ frame
    → IsOnly (s ∷ []) frame 0 s
unfolding covers
last-IsOnly s frame unbounded started = record {
  at = refl;
  covering = ground arith;
  only = λ j v at c. one j v at;
}
  where
    one : (j : ℕ) (v : VideoViewSegment) → get_elem? (s ∷ []) j ≡ some v → j ≡ 0
    one zero v at = refl
    one (suc j) v at = cc

pub covers-ended :
    (s : VideoViewSegment) (e frame : ℕ)
    → s.end_frame ≡ some e
    → covers s frame ≡ (leb s.start_frame frame && not (leb e frame))
unfolding covers
covers-ended s e frame ended = ap (λ x. leb s.start_frame frame && not (ends_by x frame)) ended

first-IsOnly :
    (s t : VideoViewSegment) (segments : List VideoViewSegment) (frame : ℕ)
    → s.end_frame ≡ some t.start_frame
    → ltb frame t.start_frame ≡ true
    → s.start_frame ≤ frame
    → ((j : ℕ) (v : VideoViewSegment)
        → get_elem? (t ∷ segments) j ≡ some v
        → t.start_frame ≤ v.start_frame)
    → IsOnly (s ∷ t ∷ segments) frame 0 s
unfolding covers
first-IsOnly s t segments frame ended before started later = record {
  at = refl;
  covering = covers-ended s t.start_frame frame ended ∙ ground arith;
  only = one;
}
  where
    one :
        (j : ℕ) (v : VideoViewSegment)
        → get_elem? (s ∷ t ∷ segments) j ≡ some v
        → covers v frame ≡ true
        → j ≡ 0
    one zero v at c = refl
    one (suc j) v at c = let starts = later j v at in absurd (ground arith)

later-IsOnly :
    (s t u : VideoViewSegment) (segments : List VideoViewSegment) (frame i : ℕ)
    → s.end_frame ≡ some t.start_frame
    → t.start_frame ≤ frame
    → IsOnly (t ∷ segments) frame i u
    → IsOnly (s ∷ t ∷ segments) frame (suc i) u
later-IsOnly s t u segments frame i ended reached h = record {
  at = h.at;
  covering = h.covering;
  only = one;
}
  where
    one :
        (j : ℕ) (v : VideoViewSegment)
        → get_elem? (s ∷ t ∷ segments) j ≡ some v
        → covers v frame ≡ true
        → j ≡ suc i
    one zero v at c =
        let same : s ≡ v = cc in
        let over : covers s frame ≡ true = subst (λ x. covers x frame ≡ true) (sym same) c in
        let not_over = covers-ended s t.start_frame frame ended in absurd (ground arith)
    one (suc j) v at c = ap suc (h.only j v at c)

pub chain-IsOnly :
    (profiles : List String) (s : VideoViewSegment) (segments : List VideoViewSegment) (frame : ℕ)
    → check_segments profiles (s ∷ segments) ≡ ok tt
    → All IsConstructed (s ∷ segments)
    → s.start_frame ≤ frame
    → (i : ℕ) × (u : VideoViewSegment) × IsOnly (s ∷ segments) frame i u
unfolding check_segments
chain-IsOnly profiles s [] frame h good started =
    let unbounded : is_some s.end_frame ≡ false = ground arith in
    (0, s, last-IsOnly s frame unbounded started)
chain-IsOnly profiles s (t ∷ segments) frame h good started =
    let rest : check_segments profiles (t ∷ segments) ≡ ok tt = ground arith in
    let linked : option_eq s.end_frame (some t.start_frame) ≡ true = ground arith in
    let ended : s.end_frame ≡ some t.start_frame =
      (option_eq_iff s.end_frame (some t.start_frame)).0 linked in
    elim (Bool-cases (ltb frame t.start_frame)) [
      | inl before ↦ (
        0,
        s,
        first-IsOnly s t segments frame ended before started
            (λ j v at. starts-le profiles t v segments j rest good.1 at),
      )
      | inr after ↦
          let reached : t.start_frame ≤ frame = ground arith in
          let (i, u, found) = chain-IsOnly profiles t segments frame rest good.1 reached in
          (suc i, u, later-IsOnly s t u segments frame i ended reached found)
    ]
