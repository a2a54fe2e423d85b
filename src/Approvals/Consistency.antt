-- ===== src/Approvals/Consistency.antt =====
-- The invariant of the tables of runs and approvals, and the single updates that keep it.
pub mod Updates
pub mod Decisions
pub mod Agents
pub mod Groups
pub mod Stops
use mathlib.Core.Path.{subst}
use eino_ops_agent_enterpr1s.Base.{
  Bool, true, false, List, ◌≡◌, ◌⊎◌, inl, inr, refl, sym, ap, ◌∙◌, arith, Text, ◌++◌, [], ◌∷◌,
}
use eino_ops_agent_enterpr1s.Approvals.{
  ApprovalStatus, RunStatus, Approval, Run, is_approved, is_rejected, is_awaiting, is_running,
}
use eino_ops_agent_enterpr1s.Approvals.Pairs.{In}

-- A run that executes has an approved approval, and one that awaits its approval has none rejected.
abbrev pub Fits : ApprovalStatus → RunStatus → Type 0
Fits st rs =
    (is_running rs ≡ true → is_approved st ≡ true)
    × (is_awaiting rs ≡ true → is_rejected st ≡ false)

-- The keys are unique, each approval has its run, and the two fit together.
pub record IsConsistent (approvals : List Approval) (runs : List Run) : Type 0 where
  pub approval_keys :
      (a b : Approval)
      → In a approvals
      → In b approvals
      → (a.id ≡ b.id) ⊎ (a.run_id ≡ b.run_id)
      → a ≡ b
  pub run_keys : (r s : Run) → In r runs → In s runs → r.id ≡ s.id → r ≡ s
  pub refs : (a : Approval) → In a approvals → (r : Run) × In r runs × (r.id ≡ a.run_id)
  pub fits :
      (a : Approval) (r : Run)
      → In a approvals
      → In r runs
      → r.id ≡ a.run_id
      → Fits a.status r.status

-- New tables whose rows come from the old ones by functions that keep the keys are consistent, if
-- each approval still fits its run.
module _ (approvals : List Approval) (runs : List Run) (h : IsConsistent approvals runs)
    (f : Approval → Approval) (g : Run → Run) (f_id : (a : Approval) → (f a).id ≡ a.id)
    (f_run : (a : Approval) → (f a).run_id ≡ a.run_id) (g_keys : (r : Run) → (g r).id ≡ r.id) where
  pub images-IsConsistent :
      (new_approvals : List Approval) (new_runs : List Run)
      → ((b : Approval) → In b new_approvals → (a : Approval) × In a approvals × (b ≡ f a))
      → ((s : Run) → In s new_runs → (r : Run) × In r runs × (s ≡ g r))
      → ((r : Run) → In r runs → In (g r) new_runs)
      → ((a : Approval) (r : Run)
          → In a approvals
          → In r runs
          → r.id ≡ a.run_id
          → Fits a.status r.status
          → Fits (f a).status (g r).status)
      → IsConsistent new_approvals new_runs
  images-IsConsistent new_approvals new_runs from_a from_r to_r still = record {
    approval_keys = λ b c ib ic e. keys_a b c (from_a b ib) (from_a c ic) e;
    run_keys = λ s t is it e. keys_r s t (from_r s is) (from_r t it) e;
    refs = λ b ib. ref b (from_a b ib);
    fits = λ b s ib is e. fit b s (from_a b ib) (from_r s is) e;
  }
    where
      keys_a :
          (b c : Approval)
          → (x : Approval) × In x approvals × (b ≡ f x)
          → (y : Approval) × In y approvals × (c ≡ f y)
          → (b.id ≡ c.id) ⊎ (b.run_id ≡ c.run_id)
          → b ≡ c
      keys_a b c (x, ix, ex) (y, iy, ey) e =
          let same : x ≡ y =
            h.approval_keys x y ix iy (elim e [
              | inl i ↦ inl (cc (f_id x, f_id y))
              | inr r ↦ inr (cc (f_run x, f_run y))
            ]) in
          cc

      keys_r :
          (s t : Run)
          → (x : Run) × In x runs × (s ≡ g x)
          → (y : Run) × In y runs × (t ≡ g y)
          → s.id ≡ t.id
          → s ≡ t
      keys_r s t (x, ix, ex) (y, iy, ey) e =
          let same : x ≡ y = h.run_keys x y ix iy (cc (g_keys x, g_keys y)) in cc

      ref :
          (b : Approval)
          → (x : Approval) × In x approvals × (b ≡ f x)
          → (r : Run) × In r new_runs × (r.id ≡ b.run_id)
      ref b (x, ix, ex) = let (r, ir, e) = h.refs x ix in (g r, to_r r ir, cc (g_keys r, f_run x))

      fit :
          (b : Approval) (s : Run)
          → (x : Approval) × In x approvals × (b ≡ f x)
          → (y : Run) × In y runs × (s ≡ g y)
          → s.id ≡ b.run_id
          → Fits b.status s.status
      fit b s (x, ix, ex) (y, iy, ey) e =
          let linked : y.id ≡ x.run_id = cc (g_keys y, f_run x) in
          subst (λ z. Fits z.status s.status) (sym ex)
            (subst (λ z. Fits (f x).status z.status) (sym ey)
              (still x y ix iy linked (h.fits x y ix iy linked)))
