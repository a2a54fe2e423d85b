-- ===== src/Plan/Shape.antt =====
-- The shape of a plan between two operations of internal/plan/plan.go.
use eino_ops_agent_enterpr1s.Base.{
  ℕ, suc, ◌+◌, ◌<◌, true, false, List, [], ◌∷◌, ◌++◌, length, ◌≡◌, ◌⊎◌, inl, inr, refl, sym, ap,
  arith, Text, All,
}
use mathlib.Core.Path.{subst}
use eino_ops_agent_enterpr1s.Plan.{
  pending, in_progress, PlanStatus, active, finished, Step, Plan, is_done, build_steps,
  retained_steps,
}

-- Steps numbered from `n`, all pending.
abbrev pub AllPending : ℕ → List Step → Type 0
AllPending n [] = Unit
AllPending n (s ∷ steps) = (s.number ≡ n) × (s.status ≡ pending) × AllPending (n + 1) steps

-- Steps numbered from `n`: first the closed ones; then, in an active plan, one in progress and
-- pending ones behind it. A finished plan has closed steps only.
abbrev pub IsOrdered : PlanStatus → ℕ → List Step → Type 0
IsOrdered st n [] = st ≡ finished
IsOrdered st n (s ∷ steps) =
    (s.number ≡ n)
    × (((is_done s.status ≡ true) × IsOrdered st (n + 1) steps)
        ⊎ ((st ≡ active) × (s.status ≡ in_progress) × AllPending (n + 1) steps))

abbrev pub IsPlan : Plan → Type 0
IsPlan p = IsOrdered p.status 1 p.steps

-- The steps that are still to be closed.
unfoldable pub remaining : List Step → ℕ
remaining [] = 0
remaining (s ∷ steps) = elim (is_done s.status) [
  | true ↦ remaining steps
  | false ↦ suc (remaining steps)
]

pub build_steps-AllPending :
    (n now : ℕ) (titles : List Text) → AllPending n (build_steps pending n now titles)
unfolding build_steps
build_steps-AllPending n now [] = tt
build_steps-AllPending n now (t ∷ titles) = (refl, refl, build_steps-AllPending (n + 1) now titles)

pub build_steps-IsOrdered :
    (n now : ℕ) (titles : List Text)
    → 0 < length titles
    → IsOrdered active n (build_steps in_progress n now titles)
unfolding build_steps
build_steps-IsOrdered n now [] h = absurd (omega arith)
build_steps-IsOrdered n now (t ∷ titles) h =
    (refl, inr (refl, refl, build_steps-AllPending (n + 1) now titles))

-- The closed steps of a plan, and ordered steps numbered behind them, are ordered.
pub retained_steps-IsOrdered :
    (st : PlanStatus) (n : ℕ) (steps behind : List Step)
    → IsOrdered st n steps
    → IsOrdered active (length (retained_steps steps) + n) behind
    → IsOrdered active n (retained_steps steps ++ behind)
unfolding retained_steps
retained_steps-IsOrdered st n [] behind h k = subst (λ m. IsOrdered active m behind) (omega arith) k
retained_steps-IsOrdered st n (s ∷ steps) behind h k = elim h.1 [
  | inl (done, later) ↦ rw done (
    h.0,
    inl (
      done,
      retained_steps-IsOrdered st (n + 1) steps behind later
          (subst (λ m. IsOrdered active m behind) (omega arith) (rw done at k)),
    ),
  )
  | inr (here, now, later) ↦
      rw now (subst (λ m. IsOrdered active m behind) (omega arith) (rw now at k))
]

-- An active plan, cut at its current step.
pub record Cut (n : ℕ) (steps : List Step) : Type 0 where
  pub before : List Step
  pub current : Step
  pub after : List Step
  pub splits : steps ≡ before ++ current ∷ after
  pub closed : All (λ s. is_done s.status ≡ true) before
  pub prior : IsOrdered finished n before
  pub kept : before ≡ retained_steps steps
  pub in_place : current.number ≡ n + length before
  pub working : current.status ≡ in_progress
  pub waiting : AllPending (current.number + 1) after

pub IsOrdered-Cut : (n : ℕ) (steps : List Step) → IsOrdered active n steps → Cut n steps
unfolding retained_steps
IsOrdered-Cut n [] h = absurd (ground arith)
IsOrdered-Cut n (s ∷ steps) h = elim h.1 [
  | inl (done, later) ↦
      let c = IsOrdered-Cut (n + 1) steps later in
      record {
        before = s ∷ c.before;
        current = c.current;
        after = c.after;
        splits = ap (◌∷◌ s) c.splits;
        closed = (done, c.closed);
        prior = (h.0, inl (done, c.prior));
        kept = rw done (ap (◌∷◌ s) c.kept);
        in_place = omega (arith, c.in_place);
        working = c.working;
        waiting = c.waiting;
      }
  | inr (here, now, later) ↦ record {
    before = [];
    current = s;
    after = steps;
    splits = refl;
    closed = tt;
    prior = refl;
    kept = rw now;
    in_place = omega (arith, h.0);
    working = now;
    waiting = subst (λ m. AllPending (m + 1) steps) (sym h.0) later;
  }
]

-- Closed steps can stand before any ordered steps that go on with their numbers.
pub IsOrdered-append :
    (st : PlanStatus) (n : ℕ) (before behind : List Step)
    → IsOrdered finished n before
    → IsOrdered st (n + length before) behind
    → IsOrdered st n (before ++ behind)
IsOrdered-append st n [] behind h k = subst (λ m. IsOrdered st m behind) (omega arith) k
IsOrdered-append st n (s ∷ before) behind h k = elim h.1 [
  | inl (done, later) ↦ (
    h.0,
    inl (
      done,
      IsOrdered-append st (n + 1) before behind later
          (subst (λ m. IsOrdered st m behind) (omega arith) k),
    ),
  )
  | inr (wrong, _, _) ↦ cc
]

pub remaining-append :
    (before behind : List Step)
    → All (λ s. is_done s.status ≡ true) before
    → remaining (before ++ behind) ≡ remaining behind
unfolding remaining
remaining-append [] behind d = refl
remaining-append (s ∷ before) behind d = ground (arith, remaining-append before behind d.1)

pub remaining-AllPending :
    (n : ℕ) (steps : List Step) → AllPending n steps → remaining steps ≡ length steps
unfolding remaining
remaining-AllPending n [] w = refl
remaining-AllPending n (s ∷ steps) w = ground (arith, remaining-AllPending (n + 1) steps w.2)

-- Every step of ordered steps is retained or still to be closed.
pub length-retained_steps :
    (st : PlanStatus) (n : ℕ) (steps : List Step)
    → IsOrdered st n steps
    → length (retained_steps steps) + remaining steps ≡ length steps
unfolding retained_steps remaining
length-retained_steps st n [] h = omega arith
length-retained_steps st n (s ∷ steps) h = elim h.1 [
  | inl (done, later) ↦ ground (arith, length-retained_steps st (n + 1) steps later)
  | inr (here, now, later) ↦ ground (arith, remaining-AllPending (n + 1) steps later)
]

pub remaining-finished :
    (n : ℕ) (steps : List Step) → IsOrdered finished n steps → remaining steps ≡ 0
unfolding remaining
remaining-finished n [] h = refl
remaining-finished n (s ∷ steps) h = elim h.1 [
  | inl (done, later) ↦ ground (arith, remaining-finished (n + 1) steps later)
  | inr (wrong, _, _) ↦ cc
]

pub remaining-active : (n : ℕ) (steps : List Step) → IsOrdered active n steps → 0 < remaining steps
unfolding remaining
remaining-active n [] h = cc
remaining-active n (s ∷ steps) h = elim h.1 [
  | inl (done, later) ↦ ground (arith, remaining-active (n + 1) steps later)
  | inr (_, now, later) ↦ ground arith
]
