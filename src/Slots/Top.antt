-- ===== src/Slots/Top.antt =====
-- The caller that waits for the last host (internal/service/execution_limits.go).
use mathlib.Core.Path.{subst}
use eino_ops_agent_enterpr1s.Base.{
  ℕ, zero, suc, ◌<◌, true, false, Option, some, List, [], ◌∷◌, All, Text, equal, equal_iff,
  get_elem?, ltb, ◌≡◌, ◌⊎◌, inl, inr, refl, sym, ap, arith, Bool-cases,
}
use eino_ops_agent_enterpr1s.Slots.{
  less, Caller, waiting, acquiring, returned, Slots, take_slot, step_at,
}
use eino_ops_agent_enterpr1s.Slots.Hosts.{less_trans}
use eino_ops_agent_enterpr1s.Slots.Moves.{times, held, enters, held_by, entered, IsOrdered}

-- A caller can send to its next channel, or has all its slots, so that it will release them.
abbrev pub CanProceed : Slots × List Caller → Type 0
CanProceed (s, callers) =
    ((place : ℕ) × (next : Slots × List Caller) × (step_at take_slot place s callers ≡ some next))
    ⊎ ((place : ℕ) × (acquired : List Text) × (get_elem? callers place
          ≡ some (acquiring [] acquired)))

pub step_at-some :
    (move : Slots → Caller → Option (Slots × Caller)) (place : ℕ) (s : Slots)
    (callers : List Caller) (p : Caller) (after : Slots × Caller)
    → get_elem? callers place ≡ some p
    → move s p ≡ some after
    → (next : Slots × List Caller) × (step_at move place s callers ≡ some next)
unfolding step_at
step_at-some move place s [] p after there moved = cc
step_at-some move zero s (q ∷ callers) p after there moved =
    let e : q ≡ p = cc in ((after.0, after.1 ∷ callers), rw (step_at, e, moved) refl)
step_at-some move (suc place) s (q ∷ callers) p after there moved =
    let (next, stepped) = step_at-some move place s callers p after there moved in
    ((next.0, q ∷ next.1), rw (step_at, stepped) refl)

-- A value in the channel of a host is that of a caller that has acquired it.
pub holder :
    (host : Text) (callers : List Caller)
    → 0 < held_by host callers
    → (place : ℕ) × (wanted : List Text) × (acquired : List Text) × (get_elem? callers place
        ≡ some (acquiring wanted acquired))
      × (0 < times host acquired)
unfolding held_by held
holder host [] h = absurd (omega arith)
holder host (waiting wanted ∷ callers) h =
    let (place, wanted_there, acquired_there, found, pos) =
      holder host callers (omega (arith, h)) in
    (suc place, wanted_there, acquired_there, found, pos)
holder host (returned ∷ callers) h =
    let (place, wanted_there, acquired_there, found, pos) =
      holder host callers (omega (arith, h)) in
    (suc place, wanted_there, acquired_there, found, pos)
holder host (acquiring wanted acquired ∷ callers) h =
    elim (Bool-cases (ltb 0 (times host acquired))) [
      | inl some_here ↦ (0, wanted, acquired, refl, ground (arith, some_here))
      | inr none_here ↦
          let (place, wanted_there, acquired_there, found, pos) =
            holder host callers (ground (arith, h, none_here)) in
          (suc place, wanted_there, acquired_there, found, pos)
    ]

-- A value in `globalSem` is that of a caller behind it.
pub behind :
    (callers : List Caller)
    → 0 < entered callers
    → (place : ℕ) × (wanted : List Text) × (acquired : List Text) × (get_elem? callers place
        ≡ some (acquiring wanted acquired))
unfolding entered enters
behind [] h = absurd (omega arith)
behind (waiting wanted ∷ callers) h =
    let (place, wanted_there, acquired_there, found) = behind callers (omega (arith, h)) in
    (suc place, wanted_there, acquired_there, found)
behind (returned ∷ callers) h =
    let (place, wanted_there, acquired_there, found) = behind callers (omega (arith, h)) in
    (suc place, wanted_there, acquired_there, found)
behind (acquiring wanted acquired ∷ callers) h = (0, wanted, acquired, refl)

pub All-at :
    (callers : List Caller) (place : ℕ) (p : Caller)
    → All IsOrdered callers
    → get_elem? callers place ≡ some p
    → IsOrdered p
All-at [] place p all there = cc
All-at (q ∷ callers) zero p (first, rest) there = subst IsOrdered (same there) first
  where
    same : ◌≡◌ {A = Option Caller} (some q) (some p) → q ≡ p
    same e = cc
All-at (q ∷ callers) (suc place) p (first, rest) there = All-at callers place p rest there

pub All-times :
    (P : Text → Type 0) (host : Text) (acquired : List Text)
    → All P acquired
    → 0 < times host acquired
    → P host
unfolding times
All-times P host [] all h = absurd (omega arith)
All-times P host (id ∷ acquired) (first, rest) h = elim (Bool-cases (equal host id)) [
  | inl same ↦ subst P (sym ((equal_iff host id).0 same)) first
  | inr other ↦ All-times P host acquired rest (subst (λ n. 0 < n) (rw other refl) h)
]

-- The caller at the place wants a host next, and no caller wants a later one next.
abbrev pub IsTop : List Caller → Text → Type 0
IsTop callers host =
    (place : ℕ) (other : Text) (wanted acquired : List Text)
    → get_elem? callers place ≡ some (acquiring (other ∷ wanted) acquired)
    → less host other ≡ false

abbrev pub Top : List Caller → Type 0
Top callers =
    (place : ℕ) × (host : Text) × (wanted : List Text) × (acquired : List Text) × (get_elem? callers
        place
      ≡ some (acquiring (host ∷ wanted) acquired))
    × IsTop callers host

-- No caller wants a channel of a host next.
abbrev pub IsIdle : List Caller → Type 0
IsIdle callers =
    (place : ℕ) (other : Text) (wanted acquired : List Text)
    → get_elem? callers place ≡ some (acquiring (other ∷ wanted) acquired)
    → ⊥

pub same_caller : {p q : Caller} → ◌≡◌ {A = Option Caller} (some p) (some q) → p ≡ q
same_caller e = cc

-- A caller that wants no host next does not matter.
pub passed :
    (q : Caller) (callers : List Caller)
    → ((other : Text) (wanted acquired : List Text) → q ≡ acquiring (other ∷ wanted) acquired → ⊥)
    → IsIdle callers ⊎ Top callers
    → IsIdle (q ∷ callers) ⊎ Top (q ∷ callers)
passed q callers none_here (inl idle) = inl go
  where
    go : IsIdle (q ∷ callers)
    go zero other wanted acquired there = none_here other wanted acquired (same_caller there)
    go (suc place) other wanted acquired there = idle place other wanted acquired there
passed q callers none_here (inr (place, host, wanted, acquired, found, is_top)) =
    inr (suc place, host, wanted, acquired, found, go)
  where
    go : IsTop (q ∷ callers) host
    go zero other wanted acquired there =
        absurd (none_here other wanted acquired (same_caller there))
    go (suc place) other wanted acquired there = is_top place other wanted acquired there

pub less_irrefl : (a : Text) → less a a ≡ false
unfolding less
less_irrefl [] = refl
less_irrefl (c ∷ a) = ground (arith, less_irrefl a)

unfoldable pub next_host : Caller → Text
next_host (acquiring (host ∷ wanted) acquired) = host
next_host _ = []

pub top : (callers : List Caller) → IsIdle callers ⊎ Top callers
unfolding next_host
top [] = inl (λ place other wanted acquired there. empty place there)
  where
    empty : {p : Caller} (place : ℕ) → get_elem? [] place ≡ some p → ⊥
    empty place there = cc
top (waiting hosts ∷ callers) =
    passed (waiting hosts) callers (λ other wanted acquired e. cc) (top callers)
top (returned ∷ callers) = passed returned callers (λ other wanted acquired e. cc) (top callers)
top (acquiring [] taken ∷ callers) =
    passed (acquiring [] taken) callers (λ other wanted acquired e. cc) (top callers)
top (acquiring (host ∷ hosts) taken ∷ callers) = elim (top callers) [
  | inl idle ↦ inr (0, host, hosts, taken, refl, alone idle)
  | inr (place, above, wanted, acquired, found, is_top) ↦ elim (Bool-cases (less above host)) [
    | inl higher ↦ inr (0, host, hosts, taken, refl, highest above is_top higher)
    | inr lower ↦ inr (suc place, above, wanted, acquired, found, kept above is_top lower)
  ]
]
  where
    self :
        (other : Text) (wanted acquired : List Text)
        → acquiring (host ∷ hosts) taken ≡ acquiring (other ∷ wanted) acquired
        → host ≡ other
    self other wanted acquired e = ap next_host e

    alone : IsIdle callers → IsTop (acquiring (host ∷ hosts) taken ∷ callers) host
    alone idle zero other wanted acquired there =
        subst (λ x. less host x ≡ false) (self other wanted acquired (same_caller there))
          (less_irrefl host)
    alone idle (suc place) other wanted acquired there =
        absurd (idle place other wanted acquired there)

    kept :
        (above : Text)
        → IsTop callers above
        → less above host ≡ false
        → IsTop (acquiring (host ∷ hosts) taken ∷ callers) above
    kept above is_top lower zero other wanted acquired there =
        subst (λ x. less above x ≡ false) (self other wanted acquired (same_caller there)) lower
    kept above is_top lower (suc place) other wanted acquired there =
        is_top place other wanted acquired there

    highest :
        (above : Text)
        → IsTop callers above
        → less above host ≡ true
        → IsTop (acquiring (host ∷ hosts) taken ∷ callers) host
    highest above is_top higher zero other wanted acquired there =
        subst (λ x. less host x ≡ false) (self other wanted acquired (same_caller there))
          (less_irrefl host)
    highest above is_top higher (suc place) other wanted acquired there =
        elim (Bool-cases (less host other)) [
          | inr fine ↦ fine
          | inl later ↦
              cc
                (is_top place other wanted acquired there, less_trans above host other higher later)
        ]
