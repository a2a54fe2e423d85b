-- ===== src/Slots/Deadlock.antt =====
-- The callers never wait for each other in a circle (internal/service/execution_limits.go).
use eino_ops_agent_enterpr1s.Base.{
  ℕ, ◌+◌, ◌<◌, true, some, List, [], ◌∷◌, All, Text, get_elem?, ltb, ◌≡◌, ◌≢◌, inl, inr, refl,
  arith, Bool-cases,
}
use eino_ops_agent_enterpr1s.Slots.{
  less, Caller, waiting, acquiring, returned, Slots, sent, take_slot, Action, act_all,
}
use eino_ops_agent_enterpr1s.Slots.Counts.{act_all-AreKept}
use eino_ops_agent_enterpr1s.Slots.Moves.{times, IsCounted}
use eino_ops_agent_enterpr1s.Slots.Top.{
  CanProceed, step_at-some, holder, behind, All-at, All-times, IsTop, IsIdle, top,
}

proceed :
    (s : Slots) (callers : List Caller) (place : ℕ) (p : Caller)
    → IsCounted (s, callers)
    → 0 < s.global_limit
    → 0 < s.host_limit
    → get_elem? callers place ≡ some p
    → p ≢ returned
    → CanProceed (s, callers)
unfolding take_slot
proceed s callers place p (count, room, counts, rooms, ordered) global_room host_room there active =
    elim (top callers) [
      | inr (at_top, host, wanted, acquired, found, is_top) ↦
          elim (Bool-cases (ltb (s.host_sems host) s.host_limit)) [
            | inl free ↦
                let (next, stepped) =
                  step_at-some take_slot at_top s callers (acquiring (host ∷ wanted) acquired)
                    (
                      record s { host_sems = sent host s.host_sems },
                      acquiring wanted (host ∷ acquired),
                    )
                    found (rw (take_slot, free) refl) in
                inl (at_top, next, stepped)
            | inr full ↦
                let (other_place, others, taken, found_other, has) =
                  holder host callers (ground (arith, full, counts host, host_room)) in
                held_up host is_top other_place others taken found_other has
          ]
      | inl idle ↦ by_caller idle p there active
    ]
  where
    held_up :
        (host : Text)
        → IsTop callers host
        → (at_place : ℕ) (others taken : List Text)
        → get_elem? callers at_place ≡ some (acquiring others taken)
        → 0 < times host taken
        → CanProceed (s, callers)
    held_up host is_top at_place [] taken found has = inr (at_place, taken, found)
    held_up host is_top at_place (other ∷ others) taken found has =
        let (rising, below) =
          All-at callers at_place (acquiring (other ∷ others) taken) ordered found in
        let later =
          All-times (λ (id : Text). All (λ (x : Text). less id x ≡ true) (other ∷ others)) host
            taken below has in
        cc (later.0, is_top at_place other others taken found)

    inside :
        IsIdle callers
        → (at_place : ℕ) (wanted taken : List Text)
        → get_elem? callers at_place ≡ some (acquiring wanted taken)
        → CanProceed (s, callers)
    inside idle at_place [] taken found = inr (at_place, taken, found)
    inside idle at_place (other ∷ wanted) taken found =
        absurd (idle at_place other wanted taken found)

    by_caller :
        IsIdle callers
        → (p : Caller) → get_elem? callers place ≡ some p
        → p ≢ returned
        → CanProceed (s, callers)
    by_caller idle returned found is_active = absurd (is_active refl)
    by_caller idle (acquiring wanted taken) found is_active = inside idle place wanted taken found
    by_caller idle (waiting wanted) found is_active =
        elim (Bool-cases (ltb s.global_sem s.global_limit)) [
          | inl free ↦
              let (next, stepped) =
                step_at-some take_slot place s callers (waiting wanted)
                  (record s { global_sem = s.global_sem + 1 }, acquiring wanted []) found
                  (rw (take_slot, free) refl) in
              inl (place, next, stepped)
          | inr full ↦
              let (at_place, others, taken, found_other) =
                behind callers (ground (arith, full, count, global_room)) in
              inside idle at_place others taken found_other
        ]

-- Whatever the callers have done from a state whose channels hold what its callers have sent: if some caller has
-- not returned, then some caller can send to its next channel, or has all its slots and will release them, so
-- that no circle of callers waits for each other. Each channel has room for one value at least.
pub act_all-CanProceed :
    (actions : List Action) (state : Slots × List Caller) (place : ℕ) (p : Caller)
    → IsCounted state
    → 0 < state.0.global_limit
    → 0 < state.0.host_limit
    → get_elem? (act_all actions state).1 place ≡ some p
    → p ≢ returned
    → CanProceed (act_all actions state)
act_all-CanProceed actions state place p counted global_room host_room there active =
    let ((global_limit, host_limit), after) = act_all-AreKept actions state counted in
    proceed (act_all actions state).0 (act_all actions state).1 place p after
      (omega (arith, global_limit, global_room)) (omega (arith, host_limit, host_room)) there active
