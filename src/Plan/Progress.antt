-- ===== src/Plan/Progress.antt =====
-- Plans from `New` and `ReviseRemaining` of internal/plan/plan.go, and how they are brought to an end.
use eino_ops_agent_enterpr1s.Base.{
  ℕ, suc, ◌+◌, ◌≤◌, ◌<◌, true, not, ◌||◌, List, [], ◌∷◌, ◌++◌, map, length, ltb, ◌≡◌, inl, inr,
  refl, sym, ap, ◌∙◌, arith, Text, All, is_empty, trim_space, Result, ok, err, >>=-eq-ok, ◌>>=◌,
  guard, guard-ok,
}
use mathlib.Core.Path.{subst}
use eino_ops_agent_enterpr1s.Plan.{
  StepStatus, in_progress, active, finished, Plan, Invalid, already_finished, is_done, build_steps,
  transition_step, retained_steps, revise_remaining, new, normalize_titles,
}
use eino_ops_agent_enterpr1s.Plan.Shape.{
  IsPlan, IsOrdered-Cut, build_steps-IsOrdered, remaining, remaining-active, remaining-finished,
  length-retained_steps,
}
use eino_ops_agent_enterpr1s.Plan.Steps.{
  next_plan, transition_step-Cut, transition_step-IsPlan, PlanStatus-cases,
}
use eino_ops_agent_enterpr1s.Plan.Titles.{IsTitles, normalize_titles_iff}

-- What `New` returns: the trimmed goal of 1 to 500 characters, and the titles as steps numbered from
-- 1, the first of them in progress.
pub record IsNew (to_lower : ℕ → ℕ) (raw_goal : Text) (raw : List Text) (p : Plan) : Type 0 where
  pub titles : List Text
  pub fit : IsTitles to_lower raw titles
  pub enough : 2 ≤ length raw
  pub few : length raw ≤ 8
  pub goal_is : p.goal ≡ trim_space raw_goal
  pub goal_length : (0 < length p.goal) × (length p.goal ≤ 500)
  pub steps_are : p.steps ≡ build_steps in_progress 1 0 titles
  pub ordered : IsPlan p
  pub active_is : p.status ≡ active

goal_fits :
    (goal : Text)
    → not (is_empty goal || ltb 500 (length goal)) ≡ true
    → (0 < length goal) × (length goal ≤ 500)
goal_fits [] h = cc
goal_fits (c ∷ goal) h = ground arith

length-map {ℓ κ} :
    {A : Type ℓ} {B : Type κ} (f : A → B) (xs : List A) → length (map f xs) ≡ length xs
length-map f [] = refl
length-map f (x ∷ xs) = ap suc (length-map f xs)

abbrev new_plan : Text → List Text → Plan
new_plan goal titles = record {
  session_id = [];
  goal = goal;
  status = active;
  steps = build_steps in_progress 1 0 titles;
  created_at = 0;
  updated_at = 0;
}

-- A plan that `New` returns has the given goal and titles, and is well formed.
pub new-IsNew :
    (to_lower : ℕ → ℕ) (raw_goal : Text) (raw : List Text) {p : Plan}
    → new to_lower raw_goal raw ≡ ok p
    → IsNew to_lower raw_goal raw p
unfolding new
new-IsNew to_lower raw_goal raw {p} h =
    let goal = trim_space raw_goal in
    let (u, long, h') = >>=-eq-ok (guard (not (is_empty goal || ltb 500 (length goal))) _) _ h in
    let (titles, listed, h'') = >>=-eq-ok (normalize_titles to_lower raw 2) _ h' in
    let (fit, enough, few) = (normalize_titles_iff to_lower raw 2 titles).0 listed in
    let same : new_plan goal titles ≡ p = cc in
    let count = ap length fit.trimmed ∙ length-map trim_space raw in
    subst (IsNew to_lower raw_goal raw) same (record {
      titles = titles;
      fit = fit;
      enough = enough;
      few = few;
      goal_is = refl;
      goal_length = goal_fits goal (guard-ok _ _ long);
      steps_are = refl;
      ordered = build_steps-IsOrdered 1 0 titles (omega arith);
      active_is = refl;
    })

-- The plan that `ReviseRemaining` makes of `p`.
abbrev pub revised : Plan → ℕ → List Text → Plan
revised p now titles = record p {
  steps =
      retained_steps p.steps
      ++ build_steps in_progress (length (retained_steps p.steps) + 1) now titles;
  updated_at = now;
}

-- What a successful revision is: the closed steps stay as they are, and the trimmed titles follow
-- with the next numbers, the first of them in progress.
pub record IsRevised (to_lower : ℕ → ℕ) (p : Plan) (raw : List Text) (now : ℕ) (q : Plan)
    : Type 0 where
  pub titles : List Text
  pub fit : IsTitles to_lower raw titles
  pub enough : 1 ≤ length raw
  pub few : length raw ≤ 8
  pub unfinished : p.status ≡ active
  pub plan_is : q ≡ revised p now titles
  pub ordered : IsPlan q

-- A finished plan is never revised.
pub revise_remaining-finished :
    (to_lower : ℕ → ℕ) (p : Plan) (raw titles : List Text) (now : ℕ)
    → p.status ≡ finished
    → normalize_titles to_lower raw 1 ≡ ok titles
    → revise_remaining to_lower p raw now ≡ err already_finished
unfolding revise_remaining
revise_remaining-finished to_lower p raw titles now f h = rw (h, f)

-- `TransitionStep` for the steps `number`, `number + 1`, …, with the given statuses.
pub close_steps : ℕ → List StepStatus → ℕ → Plan → Result Invalid Plan
close_steps number [] now p = ok p
close_steps number (status ∷ statuses) now p =
    transition_step p number status now >>= close_steps (number + 1) statuses now

transition_step-next :
    (p : Plan) (status : StepStatus) (now : ℕ)
    → IsPlan p
    → p.status ≡ active
    → is_done status ≡ true
    → (q : Plan) × (transition_step p (length (retained_steps p.steps) + 1) status now ≡ ok q)
transition_step-next p status now v a d =
    let c = IsOrdered-Cut 1 p.steps (rw a at v) in
    let number : c.current.number ≡ length (retained_steps p.steps) + 1 =
      omega (arith, c.in_place, ap length c.kept) in
    (
      next_plan p status now c,
      subst (λ n. transition_step p n status now ≡ ok (next_plan p status now c)) number
          (transition_step-Cut p status now c d),
    )

close_steps-none :
    (statuses : List StepStatus) (n now : ℕ) (q : Plan)
    → length statuses ≡ 0
    → close_steps n statuses now q ≡ ok q
unfolding close_steps
close_steps-none [] n now q e = refl
close_steps-none (status ∷ statuses) n now q e = absurd (omega arith)

-- Closing the open steps of a plan in order never fails, and finishes the plan with the last one.
pub close_steps-finished :
    (statuses : List StepStatus) (now : ℕ) (p : Plan)
    → IsPlan p
    → p.status ≡ active
    → All (λ st. is_done st ≡ true) statuses
    → length statuses ≡ remaining p.steps
    → (q : Plan) × (close_steps (length (retained_steps p.steps) + 1) statuses now p ≡ ok q)
      × (q.status ≡ finished)
      × IsPlan q
      × (remaining q.steps ≡ 0)
unfolding close_steps
close_steps-finished [] now p v a d e =
    absurd (omega (arith, remaining-active 1 p.steps (rw a at v)))
close_steps-finished (status ∷ statuses) now p v a d e =
    let (q, moved) = transition_step-next p status now v a d.0 in
    let (v', fewer, long) =
      transition_step-IsPlan p (length (retained_steps p.steps) + 1) status now v moved in
    let count = length-retained_steps p.status 1 p.steps v in
    let count' = length-retained_steps q.status 1 q.steps v' in
    let same : length (retained_steps p.steps) + 1 ≡ length (retained_steps q.steps) =
      omega arith in
    elim (PlanStatus-cases q.status) [
      | inl running ↦
          let (r, closed, over, ordered, none_left) =
            close_steps-finished statuses now q v' running d.1 (omega arith) in
          (
            r,
            rw moved (subst (λ n. close_steps (n + 1) statuses now q ≡ ok r) (sym same) closed),
            over,
            ordered,
            none_left,
          )
      | inr over ↦
          let none_left = remaining-finished 1 q.steps (rw over at v') in
          (q, rw moved (close_steps-none statuses _ now q (omega arith)), over, v', none_left)
    ]
