-- ===== src/Plan.antt =====
-- The work plan of a session: internal/plan/plan.go over internal/domain/plan.go.
-- A Go function that fails returns the old plan beside the error; here it returns the error alone,
-- and the caller keeps its plan. Titles and goals are lists of code points, and `unicode.ToLower` is
-- the parameter `to_lower`. A time is a number, 0 for the zero time.
pub mod Titles
pub mod Shape
pub mod Steps
pub mod Progress
pub mod Examples
use eino_ops_agent_enterpr1s.Base.{
  ℕ, suc, ◌+◌, Bool, true, false, ◌||◌, Option, none, some, List, [], ◌∷◌, ◌++◌, map, Text,
  is_empty, trim_space, contains, length, ltb, leb, ◌==◌, if◌then◌else◌, Result, ok, err, ◌>>=◌,
  ◌>>◌, guard, not,
}

-- `AgentPlanStep.Status`; `other` is a string that the package never writes.
pub data StepStatus : Type 0 where
  pending in_progress completed skipped : StepStatus
  other : Text → StepStatus

pub data PlanStatus : Type 0 where
  active finished : PlanStatus

pub record Step : Type 0 where
  pub number : ℕ
  pub title : Text
  pub description : Text
  pub status : StepStatus
  pub updated_at : ℕ

pub record Plan : Type 0 where
  pub session_id : Text
  pub goal : Text
  pub status : PlanStatus
  pub steps : List Step
  pub created_at : ℕ
  pub updated_at : ℕ

-- The messages behind `ErrInvalid`.
pub data Invalid : Type 0 where
  bad_goal : Invalid
  bad_count : ℕ → Invalid
  bad_title : ℕ → Invalid
  not_current : Invalid
  already_finished : Invalid

abbrev pub is_in_progress : StepStatus → Bool
is_in_progress in_progress = true
is_in_progress _ = false

abbrev pub is_pending : StepStatus → Bool
is_pending pending = true
is_pending _ = false

-- `status == "completed" || status == "skipped"`.
abbrev pub is_done : StepStatus → Bool
is_done completed = true
is_done skipped = true
is_done _ = false

abbrev pub is_finished : PlanStatus → Bool
is_finished finished = true
is_finished active = false

-- The loop of `normalizeTitles`: `index` counts from 0 and `seen` holds the folded titles.
pub normalize_from : (ℕ → ℕ) → ℕ → List Text → List Text → Result Invalid (List Text)
normalize_from to_lower index seen [] = ok []
normalize_from to_lower index seen (raw ∷ titles) =
    let title = trim_space raw in
    let rest = normalize_from to_lower (index + 1) (map to_lower title ∷ seen) titles in
    if is_empty title || ltb 240 (length title) || contains seen (map to_lower title)
    then err (bad_title (index + 1))
    else (rest >>= λ result. ok (title ∷ result))

pub normalize_titles : (ℕ → ℕ) → List Text → ℕ → Result Invalid (List Text)
unfolding normalize_from
normalize_titles to_lower titles minimum =
    if ltb (length titles) minimum || ltb 8 (length titles)
    then err (bad_count minimum)
    else normalize_from to_lower 0 [] titles

-- The steps for `titles`, numbered from `number`; the first one has `status`.
pub build_steps : StepStatus → ℕ → ℕ → List Text → List Step
build_steps status number now [] = []
build_steps status number now (title ∷ titles) =
    record { number = number; title = title; description = []; status = status; updated_at = now }
    ∷ build_steps pending (number + 1) now titles

pub new : (ℕ → ℕ) → Text → List Text → Result Invalid Plan
unfolding normalize_titles build_steps
new to_lower raw_goal titles = do
  let goal = trim_space raw_goal
  guard (not (is_empty goal || ltb 500 (length goal))) bad_goal
  normalized ← normalize_titles to_lower titles 2
  ok (record {
    session_id = [];
    goal = goal;
    status = active;
    steps = build_steps in_progress 1 0 normalized;
    created_at = 0;
    updated_at = 0;
  })

-- `CurrentStep`: the first step in progress.
pub current_step : List Step → Option Step
current_step [] = none
current_step (s ∷ steps) = if is_in_progress s.status then some s else current_step steps

-- `step.Status, step.UpdatedAt = status, now` through the pointer that `CurrentStep` returns.
pub close_current : StepStatus → ℕ → List Step → List Step
close_current status now [] = []
close_current status now (s ∷ steps) =
    if is_in_progress s.status
    then record s { status = status; updated_at = now } ∷ steps
    else s ∷ close_current status now steps

-- The loop that starts the first pending step; `none` when there is no such step.
pub promote : ℕ → List Step → Option (List Step)
promote now [] = none
promote now (s ∷ steps) =
    let rest = promote now steps in
    if is_pending s.status
    then some (record s { status = in_progress; updated_at = now } ∷ steps)
    else elim rest [ none ↦ none | some found ↦ some (s ∷ found) ]

-- `p` after the current step is closed: completed, or active with the next step in progress.
pub advance : Plan → ℕ → List Step → Option (List Step) → Plan
advance p now closed none = record p { steps = closed; status = finished; updated_at = now }
advance p now closed (some found) = record p { steps = found; status = active; updated_at = now }

-- Whether `number` and `status` fit the current step.
pub accepts : Option Step → ℕ → StepStatus → Bool
accepts none number status = false
accepts (some s) number status = if s.number == number then is_done status else false

pub transition_step : Plan → ℕ → StepStatus → ℕ → Result Invalid Plan
unfolding current_step close_current promote advance accepts
transition_step p number status now =
    if accepts (current_step p.steps) number status
    then (let closed = close_current status now p.steps in
        ok (advance p now closed (promote now closed)))
    else err not_current

-- The leading completed or skipped steps, `p.Steps[:retained]`.
pub retained_steps : List Step → List Step
retained_steps [] = []
retained_steps (s ∷ steps) = if is_done s.status then s ∷ retained_steps steps else []

pub revise_remaining : (ℕ → ℕ) → Plan → List Text → ℕ → Result Invalid Plan
unfolding normalize_titles build_steps retained_steps
revise_remaining to_lower p titles now = do
  normalized ← normalize_titles to_lower titles 1
  guard (not (is_finished p.status)) already_finished
  let kept = retained_steps p.steps
  ok (record p {
    steps = kept ++ build_steps in_progress (length kept + 1) now normalized;
    updated_at = now;
  })
