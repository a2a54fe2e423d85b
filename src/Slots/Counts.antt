-- ===== src/Slots/Counts.antt =====
-- What the channels hold: one value for each slot that a caller has acquired (internal/service/execution_limits.go).
use mathlib.Core.Path.{subst}
use eino_ops_agent_enterpr1s.Base.{
  ℕ, zero, suc, ◌+◌, ◌≤◌, Option, none, some, List, [], ◌∷◌, All, Text, ◌≡◌, inl, inr, refl, sym,
  ap, ◌∙◌, arith, Option-cases,
}
use eino_ops_agent_enterpr1s.Slots.{
  Caller, waiting, acquiring, returned, Slots, new_caller, take_slot, release, step_at, Action,
  calling, taking, releasing, act, act_all,
}
use eino_ops_agent_enterpr1s.Slots.Hosts.{wanted-Rising}
use eino_ops_agent_enterpr1s.Slots.Moves.{
  held, enters, held_by, entered, IsOrdered, IsCounted, same_some, take_slot-Moves, release-Moves,
}

-- The channels hold what these callers and others have sent, within their room.
abbrev Holds : Slots → ℕ → (Text → ℕ) → Type 0
Holds s count counts =
    (s.global_sem ≡ count)
    × (s.global_sem ≤ s.global_limit)
    × ((host : Text) → s.host_sems host ≡ counts host)
    × ((host : Text) → s.host_sems host ≤ s.host_limit)

abbrev pub SameLimits : Slots → Slots → Type 0
SameLimits s t = (t.global_limit ≡ s.global_limit) × (t.host_limit ≡ s.host_limit)

-- A move of one caller keeps this.
abbrev IsSound : (Slots → Caller → Option (Slots × Caller)) → Type 0
IsSound move =
    (s t : Slots) (p q : Caller) (others : ℕ) (elsewhere : Text → ℕ)
    → Holds s (enters p + others) (λ host. held host p + elsewhere host)
    → IsOrdered p
    → move s p ≡ some (t, q)
    → SameLimits s t
      × Holds t (enters q + others) (λ host. held host q + elsewhere host)
      × IsOrdered q

take_slot-IsSound : IsSound take_slot
take_slot-IsSound s t p q others elsewhere (count, room, counts, rooms) ordered h =
    let (global_limit, host_limit, fits, fit, keeps, keep, next) =
      take_slot-Moves s t p q room rooms ordered h in
    (
      (global_limit, host_limit),
      (
        keeps others count,
        omega (arith, fits, global_limit),
        λ host. keep host (elsewhere host) (counts host),
        λ host. omega (arith, fit host, host_limit),
      ),
      next,
    )

release-returned : (s t : Slots) (p q : Caller) → release s p ≡ some (t, q) → returned ≡ q
unfolding release
release-returned s t (waiting wanted) q h = ap (λ (r : Slots × Caller). r.1) (same_some h)
release-returned s t (acquiring wanted acquired) q h =
    ap (λ (r : Slots × Caller). r.1) (same_some h)
release-returned s t returned q h = cc

release-IsSound : IsSound release
unfolding enters held
release-IsSound s t p q others elsewhere (count, room, counts, rooms) ordered h =
    let (global_limit, host_limit, left, leaves, next) =
      release-Moves s t p q others elsewhere room rooms count counts h in
    (
      (global_limit, host_limit),
      (
        left,
        omega (arith, left, ap enters (release-returned s t p q h), count, room, global_limit),
        leaves,
        λ host. omega (
          arith,
          leaves host,
          ap (held host) (release-returned s t p q h),
          counts host,
          rooms host,
          host_limit,
        ),
      ),
      next,
    )

step_at-Holds :
    (move : Slots → Caller → Option (Slots × Caller)) (place : ℕ) (s t : Slots)
    (callers next : List Caller) (others : ℕ) (elsewhere : Text → ℕ)
    → IsSound move
    → Holds s (entered callers + others) (λ host. held_by host callers + elsewhere host)
    → All IsOrdered callers
    → step_at move place s callers ≡ some (t, next)
    → SameLimits s t
      × Holds t (entered next + others) (λ host. held_by host next + elsewhere host)
      × All IsOrdered next
unfolding step_at held_by entered
step_at-Holds move place s t [] next others elsewhere sound holds ordered h = cc
step_at-Holds move zero s t (p ∷ callers) next others elsewhere sound (count, room, counts, rooms)
      (first, rest) h =
    elim (Option-cases (move s p)) [
      | inl stays ↦ absurd (nothing_stepped (sym (rw (step_at, stays) refl) ∙ h))
      | inr (after, moved) ↦
          let e =
            same_step {a = (after.0, after.1 ∷ callers)} (sym (rw (step_at, moved) refl) ∙ h) in
          let (limits, (count_after, room_after, counts_after, rooms_after), next_ordered) =
            sound s after.0 p after.1 (entered callers + others)
              (λ host. held_by host callers + elsewhere host)
              (omega (arith, count), room, λ host. omega (arith, counts host), rooms) first moved in
          subst
            (λ (r : Slots × List Caller).
              SameLimits s r.0
              × Holds r.0 (entered r.1 + others) (λ host. held_by host r.1 + elsewhere host)
              × All IsOrdered r.1)
            e
            (
              limits,
              (
                omega (arith, count_after),
                room_after,
                λ host. omega (arith, counts_after host),
                rooms_after,
              ),
              (next_ordered, rest),
            )
    ]
  where
    nothing_stepped : ◌≡◌ {A = Option (Slots × List Caller)} none (some (t, next)) → ⊥
    nothing_stepped e = cc

    same_step :
        {a b : Slots × List Caller}
        → ◌≡◌ {A = Option (Slots × List Caller)} (some a) (some b)
        → a ≡ b
    same_step e = cc
step_at-Holds move (suc place) s t (p ∷ callers) next others elsewhere sound
      (count, room, counts, rooms) (first, rest) h =
    elim (Option-cases (step_at move place s callers)) [
      | inl stays ↦ absurd (nothing_stepped (sym (rw (step_at, stays) refl) ∙ h))
      | inr (after, moved) ↦
          let e = same_step {a = (after.0, p ∷ after.1)} (sym (rw (step_at, moved) refl) ∙ h) in
          let (limits, (count_after, room_after, counts_after, rooms_after), next_ordered) =
            step_at-Holds move place s after.0 callers after.1 (enters p + others)
              (λ host. held host p + elsewhere host) sound
              (omega (arith, count), room, λ host. omega (arith, counts host), rooms) rest moved in
          subst
            (λ (r : Slots × List Caller).
              SameLimits s r.0
              × Holds r.0 (entered r.1 + others) (λ host. held_by host r.1 + elsewhere host)
              × All IsOrdered r.1)
            e
            (
              limits,
              (
                omega (arith, count_after),
                room_after,
                λ host. omega (arith, counts_after host),
                rooms_after,
              ),
              (first, next_ordered),
            )
    ]
  where
    nothing_stepped : ◌≡◌ {A = Option (Slots × List Caller)} none (some (t, next)) → ⊥
    nothing_stepped e = cc

    same_step :
        {a b : Slots × List Caller}
        → ◌≡◌ {A = Option (Slots × List Caller)} (some a) (some b)
        → a ≡ b
    same_step e = cc

step_at-IsCounted :
    (move : Slots → Caller → Option (Slots × Caller)) (place : ℕ) (state next : Slots × List Caller)
    → IsSound move
    → IsCounted state
    → step_at move place state.0 state.1 ≡ some next
    → SameLimits state.0 next.0 × IsCounted next
step_at-IsCounted move place (s, callers) (t, next) sound (count, room, counts, rooms, ordered) h =
    let (limits, (count_after, room_after, counts_after, rooms_after), next_ordered) =
      step_at-Holds move place s t callers next 0 (λ host. 0) sound
        (omega (arith, count), room, λ host. omega (arith, counts host), rooms) ordered h in
    (
      limits,
      (
        omega (arith, count_after),
        room_after,
        λ host. omega (arith, counts_after host),
        rooms_after,
        next_ordered,
      ),
    )

act-IsCounted :
    (action : Action) (state next : Slots × List Caller)
    → IsCounted state
    → act action state ≡ some next
    → SameLimits state.0 next.0 × IsCounted next
unfolding act new_caller held_by held entered enters
act-IsCounted (taking place) state next counted h =
    step_at-IsCounted take_slot place state next take_slot-IsSound counted h
act-IsCounted (releasing place) state next counted h =
    step_at-IsCounted release place state next release-IsSound counted h
act-IsCounted (calling host_ids) (s, callers) next (count, room, counts, rooms, ordered) h =
    subst (λ (r : Slots × List Caller). SameLimits s r.0 × IsCounted r) (same h)
      (
        (refl, refl),
        (
          omega (arith, count),
          room,
          λ host. omega (arith, counts host),
          rooms,
          (wanted-Rising host_ids, ordered),
        ),
      )
  where
    same : {a : Slots × List Caller} → some a ≡ some next → a ≡ next
    same e = cc

abbrev pub AreKept : Slots × List Caller → Slots × List Caller → Type 0
AreKept state after = SameLimits state.0 after.0 × IsCounted after

pub act_all-AreKept :
    (actions : List Action) (state : Slots × List Caller)
    → IsCounted state
    → AreKept state (act_all actions state)
unfolding act_all
act_all-AreKept [] state counted = ((refl, refl), counted)
act_all-AreKept (action ∷ actions) state counted = elim (Option-cases (act action state)) [
  | inl stays ↦ rw (act_all, stays) (act_all-AreKept actions state counted)
  | inr (next, moved) ↦
      let ((global_limit, host_limit), next_counted) =
        act-IsCounted action state next counted moved in
      let ((global_after, host_after), after_counted) = act_all-AreKept actions next next_counted in
      rw (act_all, moved) ((global_after ∙ global_limit, host_after ∙ host_limit), after_counted)
]

-- From any state in which this holds, in whatever order the callers come, send and release: each channel holds
-- exactly what the callers in it have sent, within its room, and every caller takes its hosts in rising order.
pub act_all-IsCounted :
    (actions : List Action) (state : Slots × List Caller)
    → IsCounted state
    → IsCounted (act_all actions state)
act_all-IsCounted actions state counted = (act_all-AreKept actions state counted).1
