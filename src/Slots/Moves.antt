-- ===== src/Slots/Moves.antt =====
-- What one caller does to the channels (internal/service/execution_limits.go).
use mathlib.Core.Path.{subst}
use eino_ops_agent_enterpr1s.Base.{
  ℕ, ◌+◌, ◌≤◌, Bool, true, false, Option, none, some, List, [], ◌∷◌, All, Text, equal, equal_iff,
  ltb, if◌then◌else◌, ◌≡◌, inl, inr, refl, ap, ◌∙◌, arith, Bool-cases,
}
use eino_ops_agent_enterpr1s.Slots.{
  less, Caller, waiting, acquiring, returned, Slots, received, take_slot, receive_all, release,
}
use eino_ops_agent_enterpr1s.Slots.Hosts.{Rising}

-- How often the id stands in the list.
unfoldable pub times : Text → List Text → ℕ
times host [] = 0
times host (id ∷ ids) = if equal host id then times host ids + 1 else times host ids

unfoldable pub held : Text → Caller → ℕ
unfolding times
held host (waiting wanted) = 0
held host (acquiring wanted acquired) = times host acquired
held host returned = 0

unfoldable pub enters : Caller → ℕ
enters (waiting wanted) = 0
enters (acquiring wanted acquired) = 1
enters returned = 0

unfoldable pub held_by : Text → List Caller → ℕ
unfolding held
held_by host [] = 0
held_by host (p ∷ callers) = held host p + held_by host callers

unfoldable pub entered : List Caller → ℕ
unfolding enters
entered [] = 0
entered (p ∷ callers) = enters p + entered callers

-- A caller wants its hosts in order, and all that it has acquired come before them.
abbrev pub IsOrdered : Caller → Type 0
IsOrdered (waiting wanted) = Rising wanted
IsOrdered (acquiring wanted acquired) =
    Rising wanted
    × All (λ (id : Text). All (λ (other : Text). less id other ≡ true) wanted) acquired
IsOrdered returned = Unit

-- The channels hold what the callers have sent, within their room.
abbrev pub IsCounted : Slots × List Caller → Type 0
IsCounted (s, callers) =
    (s.global_sem ≡ entered callers)
    × (s.global_sem ≤ s.global_limit)
    × ((host : Text) → s.host_sems host ≡ held_by host callers)
    × ((host : Text) → s.host_sems host ≤ s.host_limit)
    × All IsOrdered callers

-- What one caller does to the channels.
abbrev pub Moves : Slots × Caller → Slots × Caller → Type 0
Moves (s, p) (t, q) =
    (t.global_limit ≡ s.global_limit)
    × (t.host_limit ≡ s.host_limit)
    × (t.global_sem ≤ s.global_limit)
    × ((host : Text) → t.host_sems host ≤ s.host_limit)
    × ((rest : ℕ) → s.global_sem ≡ enters p + rest → t.global_sem ≡ enters q + rest)
    × ((host : Text) (rest : ℕ)
        → s.host_sems host ≡ held host p + rest
        → t.host_sems host ≡ held host q + rest)
    × IsOrdered q

pub tail-below :
    (ids : List Text) (id : Text) (wanted : List Text)
    → All (λ (a : Text). All (λ (other : Text). less a other ≡ true) (id ∷ wanted)) ids
    → All (λ (a : Text). All (λ (other : Text). less a other ≡ true) wanted) ids
tail-below [] id wanted all = tt
tail-below (a ∷ ids) id wanted ((first, rest), all) = (rest, tail-below ids id wanted all)

pub same_some : {a b : Slots × Caller} → ◌≡◌ {A = Option (Slots × Caller)} (some a) (some b) → a ≡ b
same_some e = cc

pub chosen :
    (b : Bool) (x : Slots × Caller) {y : Slots × Caller}
    → (if b then some x else none) ≡ some y
    → (b ≡ true) × (x ≡ y)
chosen true x h = (refl, same_some h)
chosen false x h = cc

pub take_slot-Moves :
    (s t : Slots) (p q : Caller)
    → s.global_sem ≤ s.global_limit
    → ((host : Text) → s.host_sems host ≤ s.host_limit)
    → IsOrdered p
    → take_slot s p ≡ some (t, q)
    → Moves (s, p) (t, q)
unfolding take_slot held enters times
take_slot-Moves s t (waiting wanted) q room rooms ordered h =
    let (free, e) = chosen (ltb s.global_sem s.global_limit) _ h in
    subst (λ (r : Slots × Caller). Moves (s, waiting wanted) r) e
      (
        refl,
        refl,
        ground (arith, free),
        rooms,
        λ rest e. omega (arith, e),
        λ host rest e. e,
        (ordered, tt),
      )
take_slot-Moves s t (acquiring [] acquired) q room rooms ordered h = cc
take_slot-Moves s t (acquiring (id ∷ wanted) acquired) q room rooms ((below, rising), all) h =
    let (free, e) = chosen (ltb (s.host_sems id) s.host_limit) _ h in
    subst (λ (r : Slots × Caller). Moves (s, acquiring (id ∷ wanted) acquired) r) e
      (
        refl,
        refl,
        room,
        λ host. elim (Bool-cases (equal host id)) [
          | inl same ↦ rw same (ground (arith, free, ap s.host_sems ((equal_iff host id).0 same)))
          | inr other ↦ rw other (rooms host)
        ],
        λ rest e. e,
        λ host rest e. elim (Bool-cases (equal host id)) [
          | inl same ↦ rw same (omega (arith, e))
          | inr other ↦ rw other e
        ],
        (rising, (below, tail-below acquired id wanted all)),
      )
take_slot-Moves s t returned q room rooms ordered h = cc

pub receive_all-times :
    (acquired : List Text) (sems : Text → ℕ) (host : Text) (rest : ℕ)
    → sems host ≡ times host acquired + rest
    → receive_all acquired sems host ≡ rest
unfolding receive_all times
receive_all-times [] sems host rest h = omega (arith, h)
receive_all-times (id ∷ acquired) sems host rest h =
    receive_all-times acquired (received id sems) host rest (elim (Bool-cases (equal host id)) [
      | inl same ↦ rw same (omega (arith, one same))
      | inr other ↦ rw other (apart other)
    ])
  where
    one : equal host id ≡ true → sems host ≡ times host acquired + 1 + rest
    one same = h ∙ rw same refl

    apart : equal host id ≡ false → sems host ≡ times host acquired + rest
    apart other = h ∙ rw other refl

-- A release takes back from each channel what the caller has sent, if it has sent no more than is there.
pub release-Moves :
    (s t : Slots) (p q : Caller) (others : ℕ) (held_elsewhere : Text → ℕ)
    → s.global_sem ≤ s.global_limit
    → ((host : Text) → s.host_sems host ≤ s.host_limit)
    → s.global_sem ≡ enters p + others
    → ((host : Text) → s.host_sems host ≡ held host p + held_elsewhere host)
    → release s p ≡ some (t, q)
    → (t.global_limit ≡ s.global_limit)
      × (t.host_limit ≡ s.host_limit)
      × (t.global_sem ≡ enters q + others)
      × ((host : Text) → t.host_sems host ≡ held host q + held_elsewhere host)
      × IsOrdered q
unfolding release held enters
release-Moves s t (waiting wanted) q others elsewhere room rooms count counts h =
    subst
      (λ (r : Slots × Caller).
        (r.0.global_limit ≡ s.global_limit)
        × (r.0.host_limit ≡ s.host_limit)
        × (r.0.global_sem ≡ enters r.1 + others)
        × ((host : Text) → r.0.host_sems host ≡ held host r.1 + elsewhere host)
        × IsOrdered r.1)
      (same_some h) (refl, refl, count, counts, tt)
release-Moves s t (acquiring wanted acquired) q others elsewhere room rooms count counts h =
    subst
      (λ (r : Slots × Caller).
        (r.0.global_limit ≡ s.global_limit)
        × (r.0.host_limit ≡ s.host_limit)
        × (r.0.global_sem ≡ enters r.1 + others)
        × ((host : Text) → r.0.host_sems host ≡ held host r.1 + elsewhere host)
        × IsOrdered r.1)
      (same_some h)
      (
        refl,
        refl,
        omega (arith, count),
        λ host.
            receive_all-times acquired s.host_sems host (elsewhere host) (counts host)
            ∙ omega arith,
        tt,
      )
release-Moves s t returned q others elsewhere room rooms count counts h = cc
