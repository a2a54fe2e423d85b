-- ===== src/Slots/Examples.antt =====
-- Two callers that want the same two hosts, in different orders, with room for one in each.
use eino_ops_agent_enterpr1s.Base.{List, [], ◌∷◌, Text, equal, ◌≡◌, refl, arith}
use eino_ops_agent_enterpr1s.Slots.{
  Caller, acquiring, Slots, Action, calling, taking, act, act_all, less, unique_host_ids,
  sort_strings, new_caller, new_slots, step_at, take_slot,
}
use eino_ops_agent_enterpr1s.Slots.Counts.{act_all-IsCounted}
use eino_ops_agent_enterpr1s.Slots.Moves.{held_by, entered, IsCounted}
use eino_ops_agent_enterpr1s.Slots.Deadlock.{act_all-CanProceed}
use eino_ops_agent_enterpr1s.Slots.Top.{CanProceed}

abbrev empty_slots : Slots × List Caller
empty_slots = (new_slots 2 1, [])

empty_slots-IsCounted : IsCounted empty_slots
unfolding entered held_by new_slots
empty_slots-IsCounted = (refl, omega arith, λ host. refl, λ host. omega arith, tt)

abbrev first_host : Text
first_host = b'a' ∷ []

abbrev second_host : Text
second_host = b'b' ∷ []

abbrev actions : List Action
actions =
    calling (first_host ∷ (second_host ∷ []))
    ∷ (calling (second_host ∷ ([] ∷ (first_host ∷ (second_host ∷ []))))
        ∷ (taking 0 ∷ (taking 1 ∷ (taking 0 ∷ (taking 1 ∷ [])))))

-- The second caller waits for the first host, which the first one has.
act_all-actions :
    (act_all actions empty_slots).1
    ≡ acquiring (second_host ∷ []) (first_host ∷ [])
      ∷ (acquiring (first_host ∷ (second_host ∷ [])) [] ∷ [])
unfolding act_all act less unique_host_ids sort_strings new_caller new_slots step_at take_slot equal
act_all-actions = refl

act_all-IsCounted_example : IsCounted (act_all actions empty_slots)
act_all-IsCounted_example = act_all-IsCounted actions empty_slots empty_slots-IsCounted

act_all-CanProceed_example : CanProceed (act_all actions empty_slots)
unfolding act_all act less unique_host_ids sort_strings new_caller new_slots step_at take_slot equal
act_all-CanProceed_example =
    act_all-CanProceed actions empty_slots 1 (acquiring (first_host ∷ (second_host ∷ [])) [])
      empty_slots-IsCounted (omega arith) (omega arith) refl (λ e. cc)
