-- ===== src/Motion/Stationary.antt =====
-- vaaet-core/src/vaaet/vision/speed.py: `TrackMotionStateTracker`, with its three dictionaries.
use vaaet.Prelude.{
  leb, if◌then◌else◌, Bool-cases, ◌==◌, nat_key, ℕ, suc, ◌+◌, ◌≡◌, refl, sym, ap, ◌∙◌, subst, inl,
  inr, Bool, true, false, not, Option, none, some, List, [], ◌∷◌, arith, Map, empty_map, get_or,
  put, pop, get-put, get-put_other, get-pop, get-pop_other, string_key,
}
use vaaet.Float.{FloatOps, ◌<=◌}
use vaaet.Motion.{MotionStats, is_stationary}

pub record Settings (F : Type 0) : Type 0 where
  pub enter_frames : ℕ
  pub exit_frames : ℕ
  pub exit_speed_min : F

pub record Votes : Type 0 where
  pub stationary : Map ℕ Bool
  pub enter_votes : Map ℕ ℕ
  pub exit_votes : Map ℕ ℕ

unfoldable pub no_votes : Votes
no_votes = record { stationary = empty_map; enter_votes = empty_map; exit_votes = empty_map }

-- One observation of a track: whether its history is at rest, and whether it votes to leave rest.
pub data Vote : Type 0 where
  still : Vote
  moving : Vote
  silent : Vote

abbrev pub is_still : Vote → Bool
is_still still = true
is_still moving = false
is_still silent = false

abbrev pub is_moving : Vote → ℕ
is_moving still = 0
is_moving moving = 1
is_moving silent = 0

unfoldable pub vote_of :
    {F : Type 0} ⦃f : FloatOps F⦄ → Settings F → MotionStats F → Option F → Vote
vote_of settings stats candidate_speed =
    if is_stationary stats
    then still
    else if elim candidate_speed [ none ↦ false | some speed ↦ settings.exit_speed_min <= speed ]
    then moving
    else silent

-- The state that a track leaves with, from its former one and its votes.
unfoldable pub next_state : ℕ → ℕ → Bool → ℕ → ℕ → Bool
next_state enter_frames exit_frames current enter exit =
    if current then not (leb exit_frames exit) else leb enter_frames enter

unfoldable pub enter_of : Votes → ℕ → Vote → ℕ
enter_of s track_id v = if is_still v then get_or s.enter_votes track_id 0 + 1 else 0

unfoldable pub exit_of : Votes → ℕ → Vote → ℕ
exit_of s track_id v = if is_still v then 0 else get_or s.exit_votes track_id 0 + is_moving v

-- `update`, behind the classification of the observation.
unfoldable pub cast : ℕ → ℕ → Votes → ℕ → Vote → Votes
cast enter_frames exit_frames s track_id v =
    let enter = enter_of s track_id v in
    let exit = exit_of s track_id v in
    let current =
      next_state enter_frames exit_frames (get_or s.stationary track_id false) enter exit in
    record {
      stationary = put s.stationary track_id current;
      enter_votes = put s.enter_votes track_id enter;
      exit_votes = put s.exit_votes track_id exit;
    }

unfoldable pub update :
    {F : Type 0} ⦃f : FloatOps F⦄ → Settings F → Votes → ℕ → MotionStats F → Option F → Votes × Bool
update settings s track_id stats candidate_speed =
    let after =
      cast settings.enter_frames settings.exit_frames s track_id
        (vote_of settings stats candidate_speed) in
    (after, get_or after.stationary track_id false)

unfoldable pub remove_track : Votes → ℕ → Votes
remove_track s track_id = record {
  stationary = pop s.stationary track_id;
  enter_votes = pop s.enter_votes track_id;
  exit_votes = pop s.exit_votes track_id;
}

-- A call of the tracker.
pub data Call : Type 0 where
  observe : ℕ → Vote → Call
  remove : ℕ → Call
  reset : Call

unfoldable pub run_call : ℕ → ℕ → Call → Votes → Votes
run_call enter_frames exit_frames (observe track_id v) s =
    cast enter_frames exit_frames s track_id v
run_call enter_frames exit_frames (remove track_id) s = remove_track s track_id
run_call enter_frames exit_frames reset s = no_votes

-- The calls so far, the newest first.
unfoldable pub run : ℕ → ℕ → List Call → Votes
run enter_frames exit_frames [] = no_votes
run enter_frames exit_frames (c ∷ older) =
    run_call enter_frames exit_frames c (run enter_frames exit_frames older)

-- A description without state: the votes on one track since it was last forgotten, newest first.
unfoldable pub votes_on : ℕ → List Call → List Vote
votes_on track_id [] = []
votes_on track_id (observe j v ∷ older) =
    let rest = votes_on track_id older in if track_id == j then v ∷ rest else rest
votes_on track_id (remove j ∷ older) =
    let rest = votes_on track_id older in if track_id == j then [] else rest
votes_on track_id (reset ∷ older) = []

-- The length of the unbroken run of rest up to now.
unfoldable pub still_run : List Vote → ℕ
still_run [] = 0
still_run (still ∷ older) = suc (still_run older)
still_run (moving ∷ older) = 0
still_run (silent ∷ older) = 0

-- The votes for motion since the last rest.
unfoldable pub moves_since : List Vote → ℕ
moves_since [] = 0
moves_since (still ∷ older) = 0
moves_since (moving ∷ older) = moves_since older + 1
moves_since (silent ∷ older) = moves_since older

-- At rest: since a long enough run of rest, without enough votes for motion between two rests.
unfoldable pub at_rest : ℕ → ℕ → List Vote → Bool
at_rest enter_frames exit_frames [] = false
at_rest enter_frames exit_frames (v ∷ older) =
    if at_rest enter_frames exit_frames older
    then not (leb exit_frames (moves_since (v ∷ older)))
    else leb enter_frames (still_run (v ∷ older))

pub data IsTracked (enter_frames exit_frames : ℕ) (s : Votes) (track_id : ℕ) (votes : List Vote)
    : Type 0 where
  tracked :
      get_or s.stationary track_id false ≡ at_rest enter_frames exit_frames votes
      → get_or s.enter_votes track_id 0 ≡ still_run votes
      → get_or s.exit_votes track_id 0 ≡ moves_since votes
      → IsTracked enter_frames exit_frames s track_id votes

-- What a track's three entries become under a vote.
entries :
    (n x : ℕ) (v : Vote) (older : List Vote)
    → (next_state n x (at_rest n x older) (still_run (v ∷ older)) (moves_since (v ∷ older))
        ≡ at_rest n x (v ∷ older))
      × ((if is_still v then still_run older + 1 else 0) ≡ still_run (v ∷ older))
      × ((if is_still v then 0 else moves_since older + is_moving v) ≡ moves_since (v ∷ older))
unfolding next_state at_rest still_run moves_since
entries n x still older = (refl, omega arith, refl)
entries n x moving older = (refl, refl, refl)
entries n x silent older = (refl, refl, omega arith)

module _ (n x : ℕ) where
  cast-same :
      (s : Votes) (k : ℕ) (v : Vote) (older : List Vote)
      → IsTracked n x s k older
      → IsTracked n x (cast n x s k v) k (v ∷ older)
  unfolding cast enter_of exit_of
  cast-same s k v older (tracked a b c) =
      let e = entries n x v older in
      let enter : enter_of s k v ≡ still_run (v ∷ older) =
        ap (λ i. if is_still v then i + 1 else 0) b ∙ e.1 in
      let exit : exit_of s k v ≡ moves_since (v ∷ older) =
        ap (λ i. if is_still v then 0 else i + is_moving v) c ∙ e.2 in
      tracked
        (get-put s.stationary k
            (next_state n x (get_or s.stationary k false) (enter_of s k v) (exit_of s k v)) false
          ∙ ap (λ b. next_state n x b (enter_of s k v) (exit_of s k v)) a
          ∙ ap (λ i. next_state n x (at_rest n x older) i (exit_of s k v)) enter
          ∙ ap (λ i. next_state n x (at_rest n x older) (still_run (v ∷ older)) i) exit
          ∙ e.0)
        (get-put s.enter_votes k (enter_of s k v) 0 ∙ enter)
        (get-put s.exit_votes k (exit_of s k v) 0 ∙ exit)

  cast-other :
      (s : Votes) (k j : ℕ) (v : Vote) (votes : List Vote)
      → (j == k) ≡ false
      → IsTracked n x s j votes
      → IsTracked n x (cast n x s k v) j votes
  unfolding cast
  cast-other s k j v votes e (tracked a b c) =
      tracked (get-put_other s.stationary k j _ false e ∙ a)
        (get-put_other s.enter_votes k j _ 0 e ∙ b) (get-put_other s.exit_votes k j _ 0 e ∙ c)

  forgotten : (s : Votes) (k : ℕ) → IsTracked n x (remove_track s k) k []
  unfolding remove_track at_rest still_run moves_since
  forgotten s k =
      tracked (get-pop s.stationary k false) (get-pop s.enter_votes k 0) (get-pop s.exit_votes k 0)

  remove-other :
      (s : Votes) (k j : ℕ) (votes : List Vote)
      → (j == k) ≡ false
      → IsTracked n x s j votes
      → IsTracked n x (remove_track s k) j votes
  unfolding remove_track
  remove-other s k j votes e (tracked a b c) =
      tracked (get-pop_other s.stationary k j false e ∙ a) (get-pop_other s.enter_votes k j 0 e ∙ b)
        (get-pop_other s.exit_votes k j 0 e ∙ c)

  -- After any calls of the tracker, the three entries that it keeps of a track are those that the
  -- votes on that track since it was last removed, or all were reset, describe: whether it is at
  -- rest, the length of its run of rest up to now, and its votes for motion since it last rested.
  -- Calls about other tracks change nothing.
  pub run-IsTracked :
      (calls : List Call) (j : ℕ) → IsTracked n x (run n x calls) j (votes_on j calls)
  unfolding run run_call votes_on no_votes at_rest still_run moves_since
  run-IsTracked [] j = tracked refl refl refl
  run-IsTracked (reset ∷ older) j = tracked refl refl refl
  run-IsTracked (observe k v ∷ older) j = elim (Bool-cases (j == k)) [
    | inl same ↦
        let e = (nat_key.test_iff j k).0 same in
        subst
          (λ b.
            IsTracked n x (cast n x (run n x older) k v) j
              (if b then v ∷ votes_on j older else votes_on j older))
          (sym same)
          (subst (λ i. IsTracked n x (cast n x (run n x older) i v) j (v ∷ votes_on j older)) e
            (cast-same (run n x older) j v (votes_on j older) (run-IsTracked older j)))
    | inr other ↦
        subst
          (λ b.
            IsTracked n x (cast n x (run n x older) k v) j
              (if b then v ∷ votes_on j older else votes_on j older))
          (sym other)
          (cast-other (run n x older) k j v (votes_on j older) other (run-IsTracked older j))
  ]
  run-IsTracked (remove k ∷ older) j = elim (Bool-cases (j == k)) [
    | inl same ↦
        let e = (nat_key.test_iff j k).0 same in
        subst
          (λ b.
            IsTracked n x (remove_track (run n x older) k) j (if b then [] else votes_on j older))
          (sym same)
          (subst (λ i. IsTracked n x (remove_track (run n x older) i) j []) e
            (forgotten (run n x older) j))
    | inr other ↦
        subst
          (λ b.
            IsTracked n x (remove_track (run n x older) k) j (if b then [] else votes_on j older))
          (sym other)
          (remove-other (run n x older) k j (votes_on j older) other (run-IsTracked older j))
  ]
