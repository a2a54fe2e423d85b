-- ===== src/Slots/Hosts.antt =====
-- The hosts that a caller wants, each once and in order (internal/service/execution_limits.go).
use eino_ops_agent_enterpr1s.Base.{
  Bool, true, false, ◌||◌, List, [], ◌∷◌, All, Text, equal, equal_refl, is_empty, ◌==◌,
  if◌then◌else◌, ◌≡◌, ◌≢◌, inl, inr, refl, arith, Bool-cases,
}
use eino_ops_agent_enterpr1s.Slots.{less, is_seen, unique_host_ids, insert_id, sort_strings}

pub less_trans : (a b c : Text) → less a b ≡ true → less b c ≡ true → less a c ≡ true
unfolding less
less_trans a b [] h k = cc
less_trans a [] (z ∷ c) h k = cc
less_trans [] (y ∷ b) (z ∷ c) h k = refl
less_trans (x ∷ a) (y ∷ b) (z ∷ c) h k = ground (arith, less_trans a b c)

less-total : (a b : Text) → less a b ≡ false → a ≢ b → less b a ≡ true
unfolding less
less-total [] [] h k = absurd (k refl)
less-total [] (y ∷ b) h k = cc
less-total (x ∷ a) [] h k = refl
less-total (x ∷ a) (y ∷ b) h k = elim (Bool-cases (x == y)) [
  | inl same ↦
      let e : x ≡ y = ground (arith, same) in
      let part : less a b ≡ false = ground (arith, h, same) in
      ground (arith, e, less-total a b part (λ f. k (cc (e, f))))
  | inr other ↦ ground (arith, h, other)
]

-- Each id is below all that come after it.
abbrev pub Rising : List Text → Type 0
Rising [] = Unit
Rising (id ∷ ids) = All (λ other. less id other ≡ true) ids × Rising ids

All-below :
    (id other : Text) (ids : List Text)
    → less id other ≡ true
    → All (λ (x : Text). less other x ≡ true) ids
    → All (λ (x : Text). less id x ≡ true) ids
All-below id other [] h below = tt
All-below id other (x ∷ ids) h (first, rest) =
    (less_trans id other x h first, All-below id other ids h rest)

All-insert :
    (P : Text → Type 0) (id : Text) (ids : List Text) → P id → All P ids → All P (insert_id id ids)
unfolding insert_id
All-insert P id [] h all = (h, tt)
All-insert P id (other ∷ ids) h (first, rest) = elim (Bool-cases (less id other)) [
  | inl below ↦ rw below (h, (first, rest))
  | inr above ↦ rw above (first, All-insert P id ids h rest)
]

insert_id-Rising :
    (id : Text) (ids : List Text)
    → All (λ (x : Text). id ≢ x) ids
    → Rising ids
    → Rising (insert_id id ids)
unfolding insert_id
insert_id-Rising id [] apart rising = (tt, tt)
insert_id-Rising id (other ∷ ids) (differs, apart) (below, rising) =
    elim (Bool-cases (less id other)) [
      | inl first ↦ rw first ((first, All-below id other ids first below), (below, rising))
      | inr later ↦ rw later (
        All-insert (λ (x : Text). less other x ≡ true) id ids (less-total id other later differs)
            below,
        insert_id-Rising id ids apart rising,
      )
    ]

-- No id stands twice in the list.
abbrev Distinct : List Text → Type 0
Distinct [] = Unit
Distinct (id ∷ ids) = All (λ (other : Text). id ≢ other) ids × Distinct ids

All-sort : (P : Text → Type 0) (ids : List Text) → All P ids → All P (sort_strings ids)
unfolding sort_strings
All-sort P [] all = tt
All-sort P (id ∷ ids) (first, rest) = All-insert P id (sort_strings ids) first (All-sort P ids rest)

sort_strings-Rising : (ids : List Text) → Distinct ids → Rising (sort_strings ids)
unfolding sort_strings
sort_strings-Rising [] distinct = tt
sort_strings-Rising (id ∷ ids) (apart, distinct) =
    insert_id-Rising id (sort_strings ids) (All-sort (λ (x : Text). id ≢ x) ids apart)
      (sort_strings-Rising ids distinct)

-- What comes out was not seen before.
unique_host_ids-unseen :
    (id : Text) (seen ids : List Text)
    → is_seen id seen ≡ true
    → All (λ (other : Text). id ≢ other) (unique_host_ids seen ids)
unfolding unique_host_ids is_seen
unique_host_ids-unseen id seen [] h = tt
unique_host_ids-unseen id seen (other ∷ ids) h =
    elim (Bool-cases (is_empty other || is_seen other seen)) [
      | inl passed ↦ rw passed (unique_host_ids-unseen id seen ids h)
      | inr kept ↦ rw kept (
        (λ e. cc (or-right (is_empty other) (is_seen other seen) kept, h, e)),
        unique_host_ids-unseen id (other ∷ seen) ids (still (equal other id)),
      )
    ]
  where
    or-right : (a b : Bool) → (a || b) ≡ false → b ≡ false
    or-right a b k = ground arith

    still : (b : Bool) → (if b then true else is_seen id seen) ≡ true
    still true = refl
    still false = h

unique_host_ids-Distinct : (seen ids : List Text) → Distinct (unique_host_ids seen ids)
unfolding unique_host_ids is_seen
unique_host_ids-Distinct seen [] = tt
unique_host_ids-Distinct seen (id ∷ ids) = elim (Bool-cases (is_empty id || is_seen id seen)) [
  | inl passed ↦ rw passed (unique_host_ids-Distinct seen ids)
  | inr kept ↦ rw kept (
    unique_host_ids-unseen id (id ∷ seen) ids (rw (equal_refl id)),
    unique_host_ids-Distinct (id ∷ seen) ids,
  )
]

pub wanted-Rising : (host_ids : List Text) → Rising (sort_strings (unique_host_ids [] host_ids))
wanted-Rising host_ids =
    sort_strings-Rising (unique_host_ids [] host_ids) (unique_host_ids-Distinct [] host_ids)
