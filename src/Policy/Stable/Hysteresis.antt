-- ===== src/Policy/Stable/Hysteresis.antt =====
-- How long the machine of vaaet-core/src/vaaet/inference/policy.py waits before it changes state:
-- proofs about `_StableStateMachine.advance`.
use vaaet.Prelude.{
  if◌then◌else◌, length, All, ◌==◌, ℕ, suc, ◌+◌, ◌≤◌, ◌<◌, ◌≡◌, refl, ap, ◌∙◌, ◌≢◌, Bool, true,
  ◌&&◌, none, some, List, [], ◌∷◌, ◌++◌, arith, All-left, nat_key, string_key,
}
use vaaet.Policy.Stable.{
  Machine, reset, Persistence, required, adjacent_target, register_pending, settle, transition,
}

-- One minute as the machine sees it: whether the reading is accepted, and its class.
abbrev pub Minute : Type 0
Minute = Bool × ℕ

-- The machine after the minutes of a segment, the newest first.
unfoldable pub machine_after : Persistence → List Minute → Machine
machine_after p [] = reset
machine_after p ((accepted, raw) ∷ older) = (transition p accepted raw (machine_after p older)).0

-- How many of the newest minutes in a row are accepted and ask, from state `c`, for state `t`.
unfoldable pub streak : ℕ → ℕ → List Minute → ℕ
streak c t [] = 0
streak c t ((accepted, raw) ∷ older) =
    if accepted && adjacent_target raw c == t then suc (streak c t older) else 0

-- The votes that the machine holds are backed by the streak, and a machine that was reset has none.
record Backed (m : Machine) (minutes : List Minute) : Type 0 where
  backed : (c t : ℕ) → m.stable ≡ some c → m.pending ≡ some t → m.pending_count ≤ streak c t minutes
  fresh : m.stable ≡ none → m.pending ≡ none

transition-Backed :
    (p : Persistence) (accepted : Bool) (raw : ℕ) (m : Machine) (older : List Minute)
    → Backed m older
    → Backed (transition p accepted raw m).0 ((accepted, raw) ∷ older)
unfolding transition settle register_pending streak
transition-Backed p accepted raw m older h = record {
  backed = λ c t known votes. ground (arith, h.backed c t, h.fresh, adjacent_target raw c);
  fresh = λ e. ground arith;
}

machine_after-Backed :
    (p : Persistence) (minutes : List Minute) → Backed (machine_after p minutes) minutes
unfolding machine_after
machine_after-Backed p [] = record { backed = λ c t known votes. cc; fresh = λ e. refl }
machine_after-Backed p ((accepted, raw) ∷ older) =
    transition-Backed p accepted raw (machine_after p older) older (machine_after-Backed p older)

change-le-streak :
    (p : Persistence) (accepted : Bool) (raw : ℕ) (m : Machine) (older : List Minute) (c t : ℕ)
    → Backed m older
    → m.stable ≡ some c
    → (transition p accepted raw m).0.stable ≡ some t
    → t ≢ c
    → (required p t c ≤ streak c t ((accepted, raw) ∷ older))
      × (1 ≤ streak c t ((accepted, raw) ∷ older))
unfolding transition settle register_pending streak
change-le-streak p accepted raw m older c t h known moved other = ground (arith, h.backed c t)

-- A segment changes its state from `c` to `t` only at the end of an unbroken streak of accepted
-- minutes that all ask for `t` from `c`, and the streak is at least as long as the persistence that
-- worsening (t above c) or recovery (t below c) requires.
pub change_needs_streak :
    (p : Persistence) (minute : Minute) (older : List Minute) (c t : ℕ)
    → (machine_after p older).stable ≡ some c
    → (machine_after p (minute ∷ older)).stable ≡ some t
    → t ≢ c
    → (required p t c ≤ streak c t (minute ∷ older)) × (1 ≤ streak c t (minute ∷ older))
unfolding machine_after
change_needs_streak p (accepted, raw) older c t known moved other =
    change-le-streak p accepted raw (machine_after p older) older c t (machine_after-Backed p older)
      known moved other

-- The minutes of a segment in their order, from a machine that is given.
unfoldable pub follow : Persistence → List ℕ → Machine → Machine
follow p [] m = m
follow p (raw ∷ raws) m = follow p raws (transition p true raw m).0

abbrev voting : ℕ → ℕ → ℕ → Machine
voting c t votes = record { stable = some c; pending = some t; pending_count = votes }

vote :
    (p : Persistence) (raw c t votes : ℕ)
    → adjacent_target raw c ≡ t
    → t ≢ c
    → votes + 1 < required p t c
    → (transition p true raw (voting c t votes)).0 ≡ voting c t (votes + 1)
unfolding transition settle register_pending
vote p raw c t votes aims other few = ground arith

last_vote :
    (p : Persistence) (raw c t votes : ℕ)
    → adjacent_target raw c ≡ t
    → t ≢ c
    → required p t c ≤ votes + 1
    → (transition p true raw (voting c t votes)).0
      ≡ record { stable = some t; pending = none; pending_count = 0 }
unfolding transition settle register_pending
last_vote p raw c t votes aims other enough = ground arith

first_vote :
    (p : Persistence) (raw c t : ℕ) (m : Machine)
    → adjacent_target raw c ≡ t
    → t ≢ c
    → m.stable ≡ some c
    → m.pending ≢ some t
    → (transition p true raw m).0 ≡ (transition p true raw (voting c t 0)).0
unfolding transition settle register_pending
first_vote p raw c t m aims other known idle = ground arith

module _ (p : Persistence) (c t : ℕ) (other : t ≢ c) where
  follow-voting :
      (raws : List ℕ) (votes : ℕ)
      → All (λ raw. adjacent_target raw c ≡ t) raws
      → votes + length raws < required p t c
      → follow p raws (voting c t votes) ≡ voting c t (votes + length raws)
  unfolding follow
  follow-voting [] votes h few = ap (voting c t) (omega arith)
  follow-voting (raw ∷ raws) votes h few =
      rw (vote p raw c t votes h.0 other (omega arith))
        (follow-voting raws (votes + 1) h.1 (omega arith) ∙ ap (voting c t) (omega arith))

  follow_to_change :
      (raws : List ℕ) (raw votes : ℕ)
      → All (λ r. adjacent_target r c ≡ t) (raws ++ raw ∷ [])
      → votes + length raws + 1 ≡ required p t c
      → follow p (raws ++ raw ∷ []) (voting c t votes)
        ≡ record { stable = some t; pending = none; pending_count = 0 }
  unfolding follow
  follow_to_change [] raw votes h enough = last_vote p raw c t votes h.0 other (omega arith)
  follow_to_change (r ∷ raws) raw votes h enough =
      ap (follow p (raws ++ raw ∷ [])) (vote p r c t votes h.0 other (omega arith))
      ∙ follow_to_change raws raw (votes + 1) h.1 (omega arith)

  -- From a machine that holds no vote for `t`, the run is as from one that is about to vote for it.
  follow_first :
      (m : Machine) (raw : ℕ) (raws : List ℕ)
      → adjacent_target raw c ≡ t
      → m.stable ≡ some c
      → m.pending ≢ some t
      → follow p (raw ∷ raws) m ≡ follow p (raw ∷ raws) (voting c t 0)
  unfolding follow
  follow_first m raw raws aims known idle =
      ap (follow p raws) (first_vote p raw c t m aims other known idle)

  -- A state changes on time: a machine at `c` that holds no vote for `t` keeps `c` through all but
  -- the last of the accepted minutes that persistence requires, and is at `t`, with no vote left,
  -- after the last one, however the readings are spread over the classes that ask for `t`.
  pub change_on_time :
      (m : Machine) (raws : List ℕ) (raw : ℕ)
      → m.stable ≡ some c
      → m.pending ≢ some t
      → All (λ r. adjacent_target r c ≡ t) (raws ++ raw ∷ [])
      → length raws + 1 ≡ required p t c
      → ((follow p raws m).stable ≡ some c)
        × (follow p (raws ++ raw ∷ []) m
            ≡ record { stable = some t; pending = none; pending_count = 0 })
  change_on_time m [] raw known idle h enough = (
    unfold follow in known,
    follow_first m raw [] h.0 known idle ∙ follow_to_change [] raw 0 h (omega arith),
  )
  change_on_time m (r ∷ raws) raw known idle h enough = (
    rw (follow_first m r raws h.0 known idle) (
        ap (λ n. n.stable)
          (follow-voting (r ∷ raws) 0
            (All-left (λ q. adjacent_target q c ≡ t) (r ∷ raws) (raw ∷ []) h) (omega arith))),
    follow_first m r (raws ++ raw ∷ []) h.0 known idle
        ∙ follow_to_change (r ∷ raws) raw 0 h (omega arith),
  )
