-- ===== src/Plan/Examples.antt =====
-- A plan of three steps from its creation to its end.
use eino_ops_agent_enterpr1s.Base.{ℕ, ◌+◌, List, [], ◌∷◌, length, ◌≡◌, inr, refl, Text, ok}
use eino_ops_agent_enterpr1s.Plan.{
  pending, in_progress, completed, skipped, active, finished, Step, Plan, transition_step,
  retained_steps,
}
use eino_ops_agent_enterpr1s.Plan.Shape.{IsPlan, Cut, remaining}
use eino_ops_agent_enterpr1s.Plan.Steps.{
  start_next, status_after, transition_step-Cut, transition_step-IsPlan,
}
use eino_ops_agent_enterpr1s.Plan.Progress.{close_steps, close_steps-finished}

abbrev lower : ℕ → ℕ
lower c = c

abbrev two_titles : List Text
two_titles = (b'a' ∷ []) ∷ ((b' ' ∷ (b'b' ∷ [])) ∷ [])

abbrev two_trimmed : List Text
two_trimmed = (b'a' ∷ []) ∷ ((b'b' ∷ []) ∷ [])

abbrev first_step : Step
first_step = record {
  number = 1;
  title = b'a' ∷ [];
  description = [];
  status = in_progress;
  updated_at = 0;
}

abbrev second_step : Step
second_step = record {
  number = 2;
  title = b'b' ∷ [];
  description = [];
  status = pending;
  updated_at = 0;
}

abbrev fresh : Plan
fresh = record {
  session_id = [];
  goal = b'g' ∷ [];
  status = active;
  steps = first_step ∷ (second_step ∷ []);
  created_at = 0;
  updated_at = 0;
}

fresh-IsPlan : IsPlan fresh
fresh-IsPlan = (refl, inr (refl, refl, (refl, refl, tt)))

abbrev half_done : Plan
half_done = record fresh {
  steps =
      record first_step { status = completed; updated_at = 7 }
      ∷ (record second_step { status = in_progress; updated_at = 7 } ∷ []);
  updated_at = 7;
}

abbrev fresh_cut : Cut 1 fresh.steps
fresh_cut = record {
  before = [];
  current = first_step;
  after = second_step ∷ [];
  splits = refl;
  closed = tt;
  prior = refl;
  kept = unfold retained_steps in refl;
  in_place = refl;
  working = refl;
  waiting = (refl, refl, tt);
}

transition_step-Cut_example :
    transition_step fresh 1 completed 7
    ≡ ok (record fresh {
      steps =
          record first_step { status = completed; updated_at = 7 }
          ∷ start_next 7 (second_step ∷ []);
      status = status_after (second_step ∷ []);
      updated_at = 7;
    })
transition_step-Cut_example = transition_step-Cut fresh completed 7 fresh_cut refl

transition_step-IsPlan_example :
    IsPlan half_done
    × (remaining half_done.steps + 1 ≡ remaining fresh.steps)
    × (length half_done.steps ≡ length fresh.steps)
unfolding transition_step
transition_step-IsPlan_example = transition_step-IsPlan fresh 1 completed 7 fresh-IsPlan refl

close_steps-finished_example :
    (q : Plan) × (close_steps
        (length (retained_steps fresh.steps) + 1)
        (completed ∷ (skipped ∷ []))
        9
        fresh
      ≡ ok q)
    × (q.status ≡ finished)
    × IsPlan q
    × (remaining q.steps ≡ 0)
close_steps-finished_example =
    close_steps-finished (completed ∷ (skipped ∷ [])) 9 fresh fresh-IsPlan refl (refl, (refl, tt))
      (unfold remaining in refl)
