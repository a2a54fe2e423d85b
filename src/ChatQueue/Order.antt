-- ===== src/ChatQueue/Order.antt =====
-- The order of the messages in the queue of internal/httpapi/chat_queue.go.
use mathlib.Core.Path.{subst}
use eino_ops_agent_enterpr1s.Base.{
  ℕ, ◌+◌, ◌-◌, ◌≤◌, true, false, List, [], ◌∷◌, ◌++◌, length, take, drop, All, ◌≡◌, ◌⊎◌, inl, inr,
  refl, sym, ap, ◌∙◌, arith, append-nil, Bool-cases, length-append, length-take, take-append-drop,
}
use eino_ops_agent_enterpr1s.ChatQueue.{Message, is_steering, steering_prefix, insert}

-- Steering messages come first.
abbrev pub IsSteeringFirst : List Message → Type 0
IsSteeringFirst [] = Unit
IsSteeringFirst (m ∷ items) =
    ((is_steering m ≡ true) × IsSteeringFirst items)
    ⊎ ((is_steering m ≡ false) × All (λ x. is_steering x ≡ false) items)

-- Where a message goes: behind the steering messages if it steers, and to the end otherwise.
pub record Inserted (item : Message) (items after : List Message) (position : ℕ) : Type 0 where
  pub before : List Message
  pub behind : List Message
  pub items_are : items ≡ before ++ behind
  pub after_are : after ≡ before ++ item ∷ behind
  pub place : position ≡ length before + 1
  pub order :
      ((is_steering item ≡ true)
        × All (λ x. is_steering x ≡ true) before
        × All (λ x. is_steering x ≡ false) behind)
      ⊎ ((is_steering item ≡ false) × (behind ≡ []))

prefix_le : (items : List Message) → steering_prefix items ≤ length items
unfolding steering_prefix
prefix_le [] = omega arith
prefix_le (m ∷ items) = ground (arith, prefix_le items)

prefix_steers :
    (items : List Message) → All (λ x. is_steering x ≡ true) (take (steering_prefix items) items)
unfolding steering_prefix
prefix_steers [] = tt
prefix_steers (m ∷ items) = elim (Bool-cases (is_steering m)) [
  | inl steers ↦ rw steers (steers, prefix_steers items)
  | inr follows ↦ rw follows tt
]

suffix_follows :
    (items : List Message)
    → IsSteeringFirst items
    → All (λ x. is_steering x ≡ false) (drop (steering_prefix items) items)
unfolding steering_prefix
suffix_follows [] h = tt
suffix_follows (m ∷ items) h = elim h [
  | inl (steers, later) ↦ rw steers (suffix_follows items later)
  | inr (follows, later) ↦ rw follows (follows, later)
]

-- In a queue with its steering messages first, a new message is put in its place.
pub insert-Inserted :
    (item : Message) (items : List Message)
    → IsSteeringFirst items
    → Inserted item items (insert item items).0 (insert item items).1
unfolding insert
insert-Inserted item items h = elim (Bool-cases (is_steering item)) [
  | inr follows ↦ rw follows (record {
    before = items;
    behind = [];
    items_are = sym (append-nil items);
    after_are = refl;
    place = refl;
    order = inr (follows, refl);
  })
  | inl steers ↦
      let n = steering_prefix items in
      rw steers (
        subst (λ k. Inserted item items (take k items ++ item ∷ drop k items) (n + 1)) back
          (record {
            before = take n items;
            behind = drop n items;
            items_are = sym (take-append-drop n items);
            after_are = refl;
            place = ap (λ k. k + 1) (sym (length-take n items (prefix_le items)));
            order = inl (steers, prefix_steers items, suffix_follows items h);
          }))
]
  where
    back : steering_prefix items ≡ steering_prefix items + 1 - 1
    back = omega arith

steering_before :
    (before behind : List Message)
    → All (λ x. is_steering x ≡ true) before
    → IsSteeringFirst behind
    → IsSteeringFirst (before ++ behind)
steering_before [] behind a h = h
steering_before (m ∷ before) behind a h = inl (a.0, steering_before before behind a.1 h)

followups : (items : List Message) → All (λ x. is_steering x ≡ false) items → IsSteeringFirst items
followups [] a = tt
followups (m ∷ items) a = inr (a.0, a.1)

follow_last :
    (item : Message) (items : List Message)
    → is_steering item ≡ false
    → IsSteeringFirst items
    → IsSteeringFirst (items ++ item ∷ [])
follow_last item [] e h = inr (e, tt)
follow_last item (m ∷ items) e h = elim h [
  | inl (steers, later) ↦ inl (steers, follow_last item items e later)
  | inr (follows, later) ↦ inr (follows, all_last items later)
]
  where
    all_last :
        (items : List Message)
        → All (λ x. is_steering x ≡ false) items
        → All (λ x. is_steering x ≡ false) (items ++ item ∷ [])
    all_last [] a = (e, tt)
    all_last (x ∷ xs) a = (a.0, all_last xs a.1)

pub insert-IsSteeringFirst :
    (item : Message) (items : List Message)
    → IsSteeringFirst items
    → IsSteeringFirst (insert item items).0
insert-IsSteeringFirst item items h =
    let i = insert-Inserted item items h in
    elim (i.order) [
      | inl (steers, first, later) ↦ subst IsSteeringFirst (sym i.after_are) (
          steering_before i.before (item ∷ i.behind) first (inl (steers, followups i.behind later)))
      | inr (follows, last) ↦ subst IsSteeringFirst (sym i.after_are) (
          subst (λ z. IsSteeringFirst (i.before ++ item ∷ z)) (sym last)
            (follow_last item i.before follows (whole i last)))
    ]
  where
    whole :
        (i : Inserted item items (insert item items).0 (insert item items).1)
        → i.behind ≡ []
        → IsSteeringFirst i.before
    whole i last =
        subst IsSteeringFirst (i.items_are ∙ ap (λ z. i.before ++ z) last ∙ append-nil i.before) h

pub insert-length :
    (item : Message) (items : List Message)
    → IsSteeringFirst items
    → length (insert item items).0 ≡ length items + 1
insert-length item items h =
    let i = insert-Inserted item items h in
    omega (
      arith,
      ap length i.after_are,
      ap length i.items_are,
      length-append i.before (item ∷ i.behind),
      length-append i.before i.behind,
    )

-- The head of the queue leaves the steering messages first.
pub tail-IsSteeringFirst :
    (m : Message) (items : List Message) → IsSteeringFirst (m ∷ items) → IsSteeringFirst items
tail-IsSteeringFirst m items h = elim h [
  | inl (_, later) ↦ later
  | inr (_, later) ↦ followups items later
]
