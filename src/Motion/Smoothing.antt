-- ===== src/Motion/Smoothing.antt =====
-- vaaet-core/src/vaaet/vision/speed.py: `SmoothedSpeedTracker` and the bounds of `estimate_speed`.
-- The regressor is a parameter: it gives a speed or, where it raises, nothing.
use vaaet.Prelude.{
  if◌then◌else◌, Bool-cases, length, drop, length-append, length-drop, ◌==◌, nat_key, ℕ, zero, suc,
  ◌+◌, ◌-◌, ◌≤◌, ◌≡◌, refl, sym, ap, ◌∙◌, subst, inl, inr, Option, none, some, List, [], ◌∷◌, ◌++◌,
  arith, Map, empty_map, get_or, put, pop, get-put, get-put_other, get-pop, get-pop_other,
  string_key,
}
use vaaet.Float.{FloatOps, NumPy}
use vaaet.Motion.{fuse_speed}

-- `deque(maxlen=n).append(x)`
unfoldable pub append_bounded : {A : Type 0} → ℕ → List A → A → List A
append_bounded n xs x = drop (length xs + 1 - n) (xs ++ x ∷ [])

-- The newest n entries of a sequence.
unfoldable pub newest : {A : Type 0} → ℕ → List A → List A
newest n xs = drop (length xs - n) xs

-- A call of the tracker.
pub data Call (F : Type 0) : Type 0 where
  measure : ℕ → Option F → (mlp_speed : Option F) → Call F
  remove : ℕ → Call F
  reset : Call F

module _ {F : Type 0} ⦃f : FloatOps F⦄ where
  abbrev pub deque_of : Map ℕ (List F) → ℕ → List F
  deque_of speeds track_id = get_or speeds track_id []

  unfoldable pub append_speed : ℕ → Map ℕ (List F) → ℕ → F → Map ℕ (List F)
  append_speed window_size speeds track_id speed =
      put speeds track_id (append_bounded window_size (deque_of speeds track_id) speed)

  unfoldable pub update :
      NumPy F
      → (window_size : ℕ) → Map ℕ (List F)
      → ℕ
      → Option F
      → (mlp_speed : Option F) → Map ℕ (List F) × Option F
  update np window_size speeds track_id none mlp_speed = (pop speeds track_id, none)
  update np window_size speeds track_id (some physics_speed) mlp_speed =
      let after = append_speed window_size speeds track_id physics_speed in
      (after, some (fuse_speed (np.mean (deque_of after track_id)) mlp_speed))

  unfoldable pub remove_track : Map ℕ (List F) → ℕ → Map ℕ (List F)
  remove_track speeds track_id = pop speeds track_id

  unfoldable pub run_call : NumPy F → ℕ → Call F → Map ℕ (List F) → Map ℕ (List F)
  run_call np window_size (measure track_id physics mlp) speeds =
      (update np window_size speeds track_id physics mlp).0
  run_call np window_size (remove track_id) speeds = remove_track speeds track_id
  run_call np window_size reset speeds = empty_map

  -- The calls so far, the newest first.
  unfoldable pub run : NumPy F → ℕ → List (Call F) → Map ℕ (List F)
  run np window_size [] = empty_map
  run np window_size (c ∷ older) = run_call np window_size c (run np window_size older)

  -- A description without state: the measurements of a track since its last gap, oldest first.
  unfoldable pub since_gap : ℕ → List (Call F) → List F
  since_gap j [] = []
  since_gap j (measure k physics mlp ∷ older) =
      let rest = since_gap j older in
      if j == k then elim physics [ none ↦ [] | some x ↦ rest ++ x ∷ [] ] else rest
  since_gap j (remove k ∷ older) = let rest = since_gap j older in if j == k then [] else rest
  since_gap j (reset ∷ older) = []

drop_nil : {A : Type 0} (n : ℕ) → drop {A = A} n [] ≡ []
drop_nil zero = refl
drop_nil (suc n) = refl

drop-drop_add : {A : Type 0} (m n : ℕ) (xs : List A) → drop m (drop n xs) ≡ drop (n + m) xs
drop-drop_add m zero xs = ap (λ i. drop i xs) (omega arith)
drop-drop_add zero (suc n) [] = sym (drop_nil (suc n + 0))
drop-drop_add (suc m) (suc n) [] = sym (drop_nil (suc n + suc m))
drop-drop_add m (suc n) (x ∷ xs) =
    let same : suc (n + m) ≡ suc n + m = omega arith in
    drop-drop_add m n xs ∙ ap (λ i. drop i (x ∷ xs)) same

drop-append :
    {A : Type 0} (n : ℕ) (xs ys : List A) → n ≤ length xs → drop n (xs ++ ys) ≡ drop n xs ++ ys
drop-append zero xs ys h = refl
drop-append (suc n) [] ys h = absurd (omega (arith, h))
drop-append (suc n) (x ∷ xs) ys h = drop-append n xs ys (omega (arith, h))

-- A bounded queue keeps the newest entries.
append-newest :
    {A : Type 0} (n : ℕ) (xs : List A) (x : A)
    → append_bounded n (newest n xs) x ≡ newest n (xs ++ x ∷ [])
unfolding append_bounded newest
append-newest n xs x =
    let kept = length-drop (length xs - n) xs in
    let total = length-append xs (x ∷ []) in
    let inner = drop-append (length xs - n) xs (x ∷ []) (omega arith) in
    ap (drop (length (drop (length xs - n) xs) + 1 - n)) (sym inner)
    ∙ drop-drop_add (length (drop (length xs - n) xs) + 1 - n) (length xs - n) (xs ++ x ∷ [])
    ∙ ap (λ i. drop i (xs ++ x ∷ [])) (omega (arith, kept, total))

newest_nil : {A : Type 0} (n : ℕ) → newest {A = A} n [] ≡ []
unfolding newest
newest_nil n = drop_nil (0 - n)

module _ {F : Type 0} ⦃f : FloatOps F⦄ (np : NumPy F) (window_size : ℕ) where
  pop-newest :
      (speeds : Map ℕ (List F)) (k j : ℕ) (rest : List F)
      → deque_of speeds j ≡ newest window_size rest
      → deque_of (pop speeds k) j ≡ newest window_size (if j == k then [] else rest)
  pop-newest speeds k j rest h = elim (Bool-cases (j == k)) [
    | inl same ↦
        subst (λ b. deque_of (pop speeds k) j ≡ newest window_size (if b then [] else rest))
          (sym same)
          (subst (λ i. deque_of (pop speeds i) j ≡ newest window_size [])
            ((nat_key.test_iff j k).0 same) (get-pop speeds j [] ∙ sym (newest_nil window_size)))
    | inr other ↦
        subst (λ b. deque_of (pop speeds k) j ≡ newest window_size (if b then [] else rest))
          (sym other) (get-pop_other speeds k j [] other ∙ h)
  ]

  append-speed_newest :
      (speeds : Map ℕ (List F)) (k j : ℕ) (x : F) (rest : List F)
      → deque_of speeds j ≡ newest window_size rest
      → deque_of (append_speed window_size speeds k x) j
        ≡ newest window_size (if j == k then rest ++ x ∷ [] else rest)
  unfolding append_speed
  append-speed_newest speeds k j x rest h = elim (Bool-cases (j == k)) [
    | inl same ↦
        subst
          (λ b.
            deque_of (append_speed window_size speeds k x) j
            ≡ newest window_size (if b then rest ++ x ∷ [] else rest))
          (sym same)
          (subst
            (λ i.
              deque_of (append_speed window_size speeds i x) j
              ≡ newest window_size (rest ++ x ∷ []))
            ((nat_key.test_iff j k).0 same)
            (get-put speeds j _ []
              ∙ ap (λ xs. append_bounded window_size xs x) h
              ∙ append-newest window_size rest x))
    | inr other ↦
        subst
          (λ b.
            deque_of (append_speed window_size speeds k x) j
            ≡ newest window_size (if b then rest ++ x ∷ [] else rest))
          (sym other) (get-put_other speeds k j _ [] other ∙ h)
  ]

  -- After any calls of the tracker, its queue for a track holds the newest measurements since the
  -- track's last gap, removal or reset, at most as many as the window, oldest first. Calls about
  -- other tracks change nothing.
  pub run-newest :
      (calls : List (Call F)) (j : ℕ)
      → deque_of (run np window_size calls) j ≡ newest window_size (since_gap j calls)
  unfolding run run_call update remove_track since_gap
  run-newest [] j = sym (newest_nil window_size)
  run-newest (reset ∷ older) j = sym (newest_nil window_size)
  run-newest (remove k ∷ older) j =
      pop-newest (run np window_size older) k j (since_gap j older) (run-newest older j)
  run-newest (measure k none mlp ∷ older) j =
      pop-newest (run np window_size older) k j (since_gap j older) (run-newest older j)
  run-newest (measure k (some x) mlp ∷ older) j =
      append-speed_newest (run np window_size older) k j x (since_gap j older) (run-newest older j)
