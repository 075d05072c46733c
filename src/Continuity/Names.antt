-- ===== src/Continuity/Names.antt =====
-- The identifiers that `_assign_continuity` of vaaet-core/src/vaaet/continuity.py makes: when a new one
-- is another.
use Prim.Native.String.{count, ◌++◌ as ◌^◌}
use text.Mathlib.TextLemmas.{append_cancel_left, append_cancel_right, append-nil, length-append}
use vaaet.Prelude.{
  if◌then◌else◌, Bool-cases, is_some, ◌==◌, string_key, ℕ, ◌+◌, ◌≤◌, ◌<◌, String, ◌≡◌, refl, sym,
  ap, ◌∙◌, ◌≢◌, inl, inr, Bool, true, false, Option, none, some, [], ◌∷◌, arith, nat_key,
}
use vaaet.Prelude.Text.{concat}
use vaaet.Continuity.{Record, gap_limit, new_id}

-- What the text of an instant has to tell apart: times further apart than the gap limit.
abbrev pub Distinguishes : (ℕ → String) → Type 0
Distinguishes instant = (a b : ℕ) → a + gap_limit < b → instant a ≢ instant b

longer-ne-nil : (t : String) → ":gap-" ^ t ≢ ""
longer-ne-nil t e = omega (arith, length-append ":gap-" t, ap count e)

gap-ne-nil : (s t : String) → concat (s ∷ ":gap-" ∷ t ∷ []) ≢ s
gap-ne-nil s t e =
    longer-ne-nil (t ^ "") (append_cancel_left s (":gap-" ^ (t ^ "")) "" (e ∙ sym (append-nil s)))

marked-ne : (s m t u : String) → t ≢ u → concat (s ∷ m ∷ t ∷ []) ≢ concat (s ∷ m ∷ u ∷ [])
marked-ne s m t u h e =
    h (append_cancel_right t u "" (append_cancel_left m _ _ (append_cancel_left s _ _ e)))

-- The identifier of a running segment was made at a record of the same clip and explicit value that
-- is no later than the last one.
pub record IsNamed (instant : ℕ → String) (last : Record) (id : String) : Type 0 where
  pub opener : Record
  pub marked : Bool
  pub named : id ≡ new_id instant marked opener
  pub mark_explicit : marked ≡ true → is_some opener.explicit ≡ true
  pub same_clip : opener.clip ≡ last.clip
  pub same_explicit : opener.explicit ≡ last.explicit
  pub earlier : opener.time ≤ last.time

pub is_filled : (x : String) → some x ≢ some "" → (x == "") ≡ false
is_filled x h = elim (Bool-cases (x == "")) [
  | inl empty ↦ absurd (h (ap some ((string_key.test_iff x "").0 empty)))
  | inr filled ↦ filled
]

module _ (instant : ℕ → String) (apart : Distinguishes instant) where
  renamed_some :
      (x : String) (before now : ℕ) (marked : Bool)
      → before + gap_limit < now
      → concat (x ∷ ":gap-" ∷ instant now ∷ [])
        ≢ (if marked then concat (x ∷ ":gap-" ∷ instant before ∷ []) else x)
  renamed_some x before now true late =
      marked-ne x ":gap-" (instant now) (instant before) (λ e. apart before now late (sym e))
  renamed_some x before now false late = gap-ne-nil x (instant now)

  renamed_at :
      (c : String) (x : Option String) (before now : ℕ) (marked : Bool)
      → (marked ≡ true → is_some x ≡ true)
      → x ≢ some ""
      → before + gap_limit < now
      → new_id instant (is_some x) (record { clip = c; time = now; explicit = x })
        ≢ new_id instant marked (record { clip = c; time = before; explicit = x })
  renamed_at c none before now true m filled late e = cc (m refl)
  renamed_at c none before now false m filled late e =
      marked-ne c ":continuity-" (instant now) (instant before)
        (λ e'. apart before now late (sym e')) e
  renamed_at c (some x) before now marked m filled late e =
      renamed_some x before now marked late (rw (is_filled x filled) at e)

  -- After a gap with the same explicit value the new name differs from the running one.
  pub renamed :
      (last r : Record) (id : String)
      → IsNamed instant last id
      → r.clip ≡ last.clip
      → r.explicit ≡ last.explicit
      → r.explicit ≢ some ""
      → last.time + gap_limit < r.time
      → new_id instant (is_some r.explicit) r ≢ id
  renamed last r id h clip explicit filled late e =
      renamed_at r.clip r.explicit h.opener.time r.time h.marked
        (λ m. rw (explicit ∙ sym h.same_explicit) (h.mark_explicit m)) filled
        (omega (arith, h.earlier)) (e ∙ h.named ∙ cc (clip, explicit, h.same_clip, h.same_explicit))
