-- ===== src/Plan/Steps.antt =====
-- What `TransitionStep` and `ReviseRemaining` of internal/plan/plan.go do to a well-formed plan.
use eino_ops_agent_enterpr1s.Base.{
  ℕ, ◌+◌, true, Option, none, some, List, [], ◌∷◌, ◌++◌, length, ◌≡◌, ◌⊎◌, inl, inr, refl, sym, ap,
  ◌∙◌, arith, All, ok, err, ==_refl, length-append, append_assoc,
}
use mathlib.Core.Path.{subst}
use eino_ops_agent_enterpr1s.Plan.{
  StepStatus, in_progress, PlanStatus, active, finished, Step, Plan, is_done, not_current,
  current_step, close_current, promote, advance, accepts, transition_step,
}
use eino_ops_agent_enterpr1s.Plan.Shape.{
  AllPending, IsOrdered, IsPlan, Cut, IsOrdered-Cut, remaining, remaining-append,
  remaining-AllPending, IsOrdered-append,
}

abbrev AllDone : List Step → Type 0
AllDone = All (λ s. is_done s.status ≡ true)

current_step-append :
    (before after : List Step) (s : Step)
    → AllDone before
    → s.status ≡ in_progress
    → current_step (before ++ s ∷ after) ≡ some s
unfolding current_step
current_step-append [] after s d w = rw w
current_step-append (b ∷ before) after s d w =
    ground (arith, current_step-append before after s d.1 w)

close_current-append :
    (status : StepStatus) (now : ℕ) (before after : List Step) (s : Step)
    → AllDone before
    → s.status ≡ in_progress
    → close_current status now (before ++ s ∷ after)
      ≡ before ++ record s { status = status; updated_at = now } ∷ after
unfolding close_current
close_current-append status now [] after s d w = rw w
close_current-append status now (b ∷ before) after s d w =
    ground (arith, close_current-append status now before after s d.1 w)

-- The steps behind the current one after a transition: the first of them is started.
abbrev pub start_next : ℕ → List Step → List Step
start_next now [] = []
start_next now (t ∷ after) = record t { status = in_progress; updated_at = now } ∷ after

abbrev pub status_after : List Step → PlanStatus
status_after [] = finished
status_after (t ∷ after) = active

-- What `promote` finds when `closed` are closed and `after` are pending.
abbrev promoted : ℕ → List Step → List Step → Option (List Step)
promoted now closed [] = none
promoted now closed (t ∷ after) = some (closed ++ start_next now (t ∷ after))

promote-append :
    (n now : ℕ) (closed after : List Step)
    → AllDone closed
    → AllPending n after
    → promote now (closed ++ after) ≡ promoted now closed after
unfolding promote
promote-append n now [] [] d w = refl
promote-append n now [] (t ∷ after) d w = rw w.1
promote-append n now (b ∷ closed) [] d w = ground (arith, promote-append n now closed [] d.1 w)
promote-append n now (b ∷ closed) (t ∷ after) d w =
    ground (arith, promote-append n now closed (t ∷ after) d.1 w)

AllDone-concat :
    (before : List Step) (s : Step)
    → AllDone before
    → is_done s.status ≡ true
    → AllDone (before ++ s ∷ [])
AllDone-concat [] s d e = (e, tt)
AllDone-concat (b ∷ before) s d e = (d.0, AllDone-concat before s d.1 e)

advance-promoted :
    (p : Plan) (now : ℕ) (closed after : List Step)
    → advance p now (closed ++ after) (promoted now closed after) ≡ record p {
      steps = closed ++ start_next now after;
      status = status_after after;
      updated_at = now;
    }
unfolding advance
advance-promoted p now closed [] = refl
advance-promoted p now closed (t ∷ after) = refl

current_step-Cut : (steps : List Step) (c : Cut 1 steps) → current_step steps ≡ some c.current
current_step-Cut steps c =
    ap current_step c.splits ∙ current_step-append c.before c.after c.current c.closed c.working

accepts-Cut :
    (steps : List Step) (status : StepStatus) (c : Cut 1 steps)
    → is_done status ≡ true
    → accepts (current_step steps) c.current.number status ≡ true
unfolding accepts
accepts-Cut steps status c d = rw (current_step-Cut steps c) (rw ==_refl d)

close_current-Cut :
    (steps : List Step) (status : StepStatus) (now : ℕ) (c : Cut 1 steps)
    → close_current status now steps
      ≡ (c.before ++ record (c.current) { status = status; updated_at = now } ∷ []) ++ c.after
close_current-Cut steps status now c =
    ap (close_current status now) c.splits
    ∙ close_current-append status now c.before c.after c.current c.closed c.working
    ∙ sym (append_assoc c.before _ c.after)

-- On an active plan cut at its current step, `TransitionStep` with that step's number closes it,
-- starts the step behind it, changes no other step, and completes the plan if none is left.
pub transition_step-Cut :
    (p : Plan) (status : StepStatus) (now : ℕ) (c : Cut 1 p.steps)
    → is_done status ≡ true
    → transition_step p c.current.number status now
      ≡ ok (record p {
        steps =
            c.before
            ++ record (c.current) { status = status; updated_at = now } ∷ start_next now c.after;
        status = status_after c.after;
        updated_at = now;
      })
unfolding transition_step
transition_step-Cut p status now c d =
    let s = record (c.current) { status = status; updated_at = now } in
    let closed = c.before ++ s ∷ [] in
    let done = AllDone-concat c.before s c.closed d in
    rw (accepts-Cut p.steps status c d) (
      rw (close_current-Cut p.steps status now c) (
        rw (promote-append (c.current.number + 1) now closed c.after done c.waiting)
          (ap ok (advance-promoted p now closed c.after ∙ rw append_assoc))))

-- A transition that succeeds was given the number of the current step, and a closing status.
pub transition_step-accepted :
    (p : Plan) (number : ℕ) (status : StepStatus) (now : ℕ) (c : Cut 1 p.steps) {q : Plan}
    → transition_step p number status now ≡ ok q
    → (number ≡ c.current.number) × (is_done status ≡ true)
unfolding transition_step accepts
transition_step-accepted p number status now c h = ground (arith, current_step-Cut p.steps c)

-- The plan that `transition_step-Cut` describes.
abbrev pub next_plan : (p : Plan) (status : StepStatus) (now : ℕ) → Cut 1 p.steps → Plan
next_plan p status now c = record p {
  steps =
      c.before ++ record (c.current) { status = status; updated_at = now } ∷ start_next now c.after;
  status = status_after c.after;
  updated_at = now;
}

start_next-IsOrdered :
    (n now : ℕ) (after : List Step)
    → AllPending n after
    → IsOrdered (status_after after) n (start_next now after)
start_next-IsOrdered n now [] w = refl
start_next-IsOrdered n now (t ∷ after) w = (w.0, inr (refl, refl, w.2))

next_plan-IsPlan :
    (p : Plan) (status : StepStatus) (now : ℕ) (c : Cut 1 p.steps)
    → is_done status ≡ true
    → IsPlan (next_plan p status now c)
next_plan-IsPlan p status now c d = IsOrdered-append (status_after c.after) 1 c.before _ c.prior (
  c.in_place,
  inl (
    d,
    subst (λ m. IsOrdered (status_after c.after) m (start_next now c.after))
        (omega (arith, c.in_place))
        (start_next-IsOrdered (c.current.number + 1) now c.after c.waiting),
  ),
)

remaining-start_next :
    (n now : ℕ) (after : List Step)
    → AllPending n after
    → remaining (start_next now after) ≡ length after
unfolding remaining
remaining-start_next n now [] w = refl
remaining-start_next n now (t ∷ after) w = ground (arith, remaining-AllPending (n + 1) after w.2)

length-start_next : (now : ℕ) (after : List Step) → length (start_next now after) ≡ length after
length-start_next now [] = refl
length-start_next now (t ∷ after) = refl

remaining-next_plan :
    (p : Plan) (status : StepStatus) (now : ℕ) (c : Cut 1 p.steps)
    → is_done status ≡ true
    → remaining (next_plan p status now c).steps + 1 ≡ remaining p.steps
unfolding remaining
remaining-next_plan p status now c d =
    let start = remaining-start_next (c.current.number + 1) now c.after c.waiting in
    let old = remaining-AllPending (c.current.number + 1) c.after c.waiting in
    rw (remaining-append c.before _ c.closed) (
      ground (
        arith,
        start,
        old,
        ap remaining c.splits,
        c.working,
        remaining-append c.before (c.current ∷ c.after) c.closed,
      ))

length-next_plan :
    (p : Plan) (status : StepStatus) (now : ℕ) (c : Cut 1 p.steps)
    → length (next_plan p status now c).steps ≡ length p.steps
length-next_plan p status now c =
    let start = length-start_next now c.after in
    rw (length-append c.before _)
      (omega (arith, start, ap length c.splits, length-append c.before (c.current ∷ c.after)))

current_step-finished :
    (n : ℕ) (steps : List Step) → IsOrdered finished n steps → current_step steps ≡ none
unfolding current_step
current_step-finished n [] h = refl
current_step-finished n (s ∷ steps) h = elim h.1 [
  | inl (done, later) ↦ ground (arith, current_step-finished (n + 1) steps later)
  | inr (wrong, _, _) ↦ cc
]

pub transition_step-finished :
    (p : Plan) (number : ℕ) (status : StepStatus) (now : ℕ)
    → IsPlan p
    → p.status ≡ finished
    → transition_step p number status now ≡ err not_current
unfolding transition_step accepts
transition_step-finished p number status now h f = rw (current_step-finished 1 p.steps (rw f at h))

-- On a well-formed active plan the plan that `TransitionStep` returns is well formed and as long, and
-- has one step less to close.
transition_step-active :
    (p : Plan) (number : ℕ) (status : StepStatus) (now : ℕ) (c : Cut 1 p.steps) {q : Plan}
    → transition_step p number status now ≡ ok q
    → IsPlan q × (remaining q.steps + 1 ≡ remaining p.steps) × (length q.steps ≡ length p.steps)
transition_step-active p number status now c {q} h =
    let (e, d) = transition_step-accepted p number status now c h in
    let same : next_plan p status now c ≡ q = cc (transition_step-Cut p status now c d, h, e) in
    subst
      (λ r.
        IsPlan r × (remaining r.steps + 1 ≡ remaining p.steps) × (length r.steps ≡ length p.steps))
      same
      (
        next_plan-IsPlan p status now c d,
        remaining-next_plan p status now c d,
        length-next_plan p status now c,
      )

pub PlanStatus-cases : (st : PlanStatus) → (st ≡ active) ⊎ (st ≡ finished)
PlanStatus-cases active = inl refl
PlanStatus-cases finished = inr refl

-- A transition of a well-formed plan that succeeds gives a well-formed plan with as many
-- steps, of which exactly one less is still to be closed.
pub transition_step-IsPlan :
    (p : Plan) (number : ℕ) (status : StepStatus) (now : ℕ) {q : Plan}
    → IsPlan p
    → transition_step p number status now ≡ ok q
    → IsPlan q × (remaining q.steps + 1 ≡ remaining p.steps) × (length q.steps ≡ length p.steps)
transition_step-IsPlan p number status now h t = elim (PlanStatus-cases p.status) [
  | inl a ↦ transition_step-active p number status now (IsOrdered-Cut 1 p.steps (rw a at h)) t
  | inr f ↦ cc (transition_step-finished p number status now h f)
]
