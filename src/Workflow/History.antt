-- ===== src/Workflow/History.antt =====
-- The manifests that `_write_stage_manifest` of vaaet-ml/src/vaaet_ml/workflow_state.py leaves in the
-- file of an attempt, over any sequence of writes.
use vaaet.Prelude.{
  Bool-cases, length, ℕ, ◌+◌, ◌≤◌, String, ◌≡◌, refl, sym, ap, ◌∙◌, ◌⊎◌, inl, inr, Bool, true,
  false, not, Option, none, some, List, [], ◌∷◌, ◌++◌, arith,
}
use mathlib.Core.List.{append_assoc}
use vaaet.Workflow.{WorkflowStageStatus, not_requested, pending, running, succeeded, failed}
use vaaet.Workflow.Attempt.{
  Disk, Manifest, is_unfinished, may_follow, may_write, payload, write_stage_manifest,
}

-- Each manifest follows the one before it in the diagram of a stage, and is completed at its end.
pub data IsHistory : Disk → Type 0 where
  unwritten : IsHistory []
  first_written :
      (m : Manifest) → m.is_completed ≡ not (is_unfinished m.status) → IsHistory (m ∷ [])
  then_written :
      (m previous : Manifest) (older : Disk)
      → may_follow m.status previous.status ≡ true
      → m.is_completed ≡ not (is_unfinished m.status)
      → IsHistory (previous ∷ older)
      → IsHistory (m ∷ previous ∷ older)

-- A write leaves the disk as it is, or puts on top of it the manifest of a status that may follow.
write_stage_manifest-cases :
    (status : WorkflowStageStatus) (rows : Option ℕ) (category disk_error : Option String)
    (disk : Disk)
    → ((write_stage_manifest status rows category disk_error disk).0 ≡ disk)
      ⊎ ((may_write status disk ≡ true)
          × ((write_stage_manifest status rows category disk_error disk).0
              ≡ payload status rows category ∷ disk))
unfolding write_stage_manifest
write_stage_manifest-cases status rows category none disk =
    elim (Bool-cases (may_write status disk)) [
      | inl allowed ↦ inr (allowed, rw allowed refl)
      | inr refused ↦ inl (rw refused refl)
    ]
write_stage_manifest-cases status rows category (some e) disk =
    elim (Bool-cases (may_write status disk)) [
      | inl allowed ↦ inl (rw allowed refl)
      | inr refused ↦ inl (rw refused refl)
    ]

payload-IsHistory :
    (status : WorkflowStageStatus) (rows : Option ℕ) (category : Option String) (disk : Disk)
    → may_write status disk ≡ true
    → IsHistory disk
    → IsHistory (payload status rows category ∷ disk)
unfolding may_write payload
payload-IsHistory status rows category [] allowed h = first_written _ refl
payload-IsHistory status rows category (previous ∷ older) allowed h =
    then_written _ previous older allowed refl h

-- How far a status is along the diagram.
rank : WorkflowStageStatus → ℕ
rank not_requested = 3
rank pending = 1
rank running = 2
rank succeeded = 3
rank failed = 3

may_follow-rank :
    (status previous : WorkflowStageStatus)
    → may_follow status previous ≡ true
    → rank previous + 1 ≤ rank status
unfolding may_follow rank
may_follow-rank not_requested previous h = absurd (cc)
may_follow-rank pending previous h = absurd (cc)
may_follow-rank running pending h = omega arith
may_follow-rank running not_requested h = absurd (cc)
may_follow-rank running running h = absurd (cc)
may_follow-rank running succeeded h = absurd (cc)
may_follow-rank running failed h = absurd (cc)
may_follow-rank succeeded running h = omega arith
may_follow-rank succeeded not_requested h = absurd (cc)
may_follow-rank succeeded pending h = absurd (cc)
may_follow-rank succeeded succeeded h = absurd (cc)
may_follow-rank succeeded failed h = absurd (cc)
may_follow-rank failed running h = omega arith
may_follow-rank failed not_requested h = absurd (cc)
may_follow-rank failed pending h = absurd (cc)
may_follow-rank failed succeeded h = absurd (cc)
may_follow-rank failed failed h = absurd (cc)

rank-bounds : (status : WorkflowStageStatus) → (1 ≤ rank status) × (rank status ≤ 3)
unfolding rank
rank-bounds not_requested = (omega arith, omega arith)
rank-bounds pending = (omega arith, omega arith)
rank-bounds running = (omega arith, omega arith)
rank-bounds succeeded = (omega arith, omega arith)
rank-bounds failed = (omega arith, omega arith)

newest_rank : Disk → ℕ
newest_rank [] = 0
newest_rank (m ∷ _) = rank m.status

IsHistory-rank : (disk : Disk) → IsHistory disk → length disk ≤ newest_rank disk
unfolding newest_rank
IsHistory-rank disk unwritten = omega arith
IsHistory-rank disk (first_written m completed) = (rank-bounds m.status).0
IsHistory-rank disk (then_written m previous older follows completed h) =
    omega
      (arith, may_follow-rank m.status previous.status follows, IsHistory-rank (previous ∷ older) h)

IsHistory-length : (disk : Disk) → IsHistory disk → length disk ≤ 3
unfolding newest_rank
IsHistory-length [] h = omega arith
IsHistory-length (m ∷ older) h =
    omega (arith, IsHistory-rank (m ∷ older) h, (rank-bounds m.status).1)

-- The newest manifest is one of a stage that ended.
abbrev pub is_closed : Disk → Bool
is_closed [] = false
is_closed (m ∷ _) = m.is_completed

ended-may_follow :
    (status previous : WorkflowStageStatus)
    → may_follow status previous ≡ true
    → is_unfinished previous ≡ true
unfolding rank is_unfinished
ended-may_follow status pending h = refl
ended-may_follow status running h = refl
ended-may_follow status not_requested h =
    absurd (omega (arith, may_follow-rank status not_requested h, (rank-bounds status).1))
ended-may_follow status succeeded h =
    absurd (omega (arith, may_follow-rank status succeeded h, (rank-bounds status).1))
ended-may_follow status failed h =
    absurd (omega (arith, may_follow-rank status failed h, (rank-bounds status).1))

may_write-is_closed :
    (status : WorkflowStageStatus) (disk : Disk)
    → IsHistory disk
    → may_write status disk ≡ true
    → is_closed disk ≡ false
unfolding may_write
may_write-is_closed status disk unwritten h = refl
may_write-is_closed status disk (first_written m completed) h =
    completed ∙ ap not (ended-may_follow status m.status h)
may_write-is_closed status disk (then_written m previous older follows completed hs) h =
    completed ∙ ap not (ended-may_follow status m.status h)

-- One write of a manifest, with what the disk does to it.
pub record Write : Type 0 where
  pub status : WorkflowStageStatus
  pub output_rows : Option ℕ
  pub error_category : Option String
  pub disk_error : Option String

-- Writes one after the other, each attempted whatever became of those before.
unfoldable pub write_all : List Write → Disk → Disk
write_all [] disk = disk
write_all (w ∷ ws) disk =
    write_all ws (write_stage_manifest w.status w.output_rows w.error_category w.disk_error disk).0

-- `after` is `before` with newer manifests on top, a history of three at most; nothing is put on top
-- of the end of a stage.
pub record IsExtension (before after : Disk) : Type 0 where
  pub newer : Disk
  pub extended : after ≡ newer ++ before
  pub history : IsHistory after
  pub bounded : length after ≤ 3
  pub closed : is_closed before ≡ true → after ≡ before

extend :
    (m : Manifest) (before after : Disk)
    → is_closed before ≡ false
    → IsExtension (m ∷ before) after
    → IsExtension before after
extend m before after unended e = record {
  newer = e.newer ++ m ∷ [];
  extended = e.extended ∙ sym (append_assoc e.newer (m ∷ []) before);
  history = e.history;
  bounded = e.bounded;
  closed = λ ended. absurd (cc);
}

-- Whatever is written to the file of an attempt, in any order and whatever the disk refuses, a
-- history stays one: the older manifests are kept under the newer ones, each new one follows the one
-- below it in the diagram of a stage, there are three at most, and nothing is written once the stage
-- has ended.
pub write_all-IsExtension :
    (ws : List Write) (disk : Disk) → IsHistory disk → IsExtension disk (write_all ws disk)
unfolding write_all
write_all-IsExtension [] disk h = record {
  newer = [];
  extended = refl;
  history = h;
  bounded = IsHistory-length disk h;
  closed = λ _. refl;
}
write_all-IsExtension (w ∷ ws) disk h =
    elim (write_stage_manifest-cases w.status w.output_rows w.error_category w.disk_error disk) [
      | inl same ↦ rw same (write_all-IsExtension ws disk h)
      | inr (allowed, written) ↦ rw written (
          extend (payload w.status w.output_rows w.error_category) disk
            (write_all ws (payload w.status w.output_rows w.error_category ∷ disk))
            (may_write-is_closed w.status disk h allowed)
            (write_all-IsExtension ws (payload w.status w.output_rows w.error_category ∷ disk)
              (payload-IsHistory w.status w.output_rows w.error_category disk allowed h)))
    ]
