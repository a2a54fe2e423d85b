-- ===== src/ShellOutput/Delivery.antt =====
-- What the subscribers of an interactive shell receive (internal/service/shell_output.go).
use mathlib.Core.Path.{subst}
use eino_ops_agent_enterpr1s.Base.{
  Bool, ◌⊎◌, ℕ, ◌+◌, ◌≤◌, true, false, List, [], ◌∷◌, ◌++◌, map, append-nil, append_assoc, length,
  length-append, ltb, ◌≡◌, inl, inr, refl, sym, ap, ◌∙◌, arith, Bool-cases,
}
use eino_ops_agent_enterpr1s.ShellOutput.{
  Event, Subscriber, Shell, deliver, publish_events, numbered, record_events,
}

-- What a subscriber has after the events were sent to it: all of them, unless it is done or has an overflow.
abbrev pub IsServed : List Event → Subscriber → Subscriber → Type 0
IsServed sent before after =
    (after.done ≡ before.done)
    × ((length after.events ≤ 256) ⊎ (after.events ≡ before.events))
    × ((before.overflow ≡ false) ⊎ (after.overflow ≡ true))
    × (((before.done ≡ true) × (after ≡ before))
        ⊎ ((before.done ≡ false)
            × ((after.overflow ≡ true) ⊎ (after.events ≡ before.events ++ sent))))

abbrev pub AreServed : List Event → List Subscriber → List Subscriber → Type 0
AreServed sent [] [] = Unit
AreServed sent [] (y ∷ ys) = ⊥
AreServed sent (x ∷ xs) [] = ⊥
AreServed sent (x ∷ xs) (y ∷ ys) = IsServed sent x y × AreServed sent xs ys

was_closed : (b : Bool) → (b ≡ false) ⊎ (b ≡ true)
was_closed true = inr refl
was_closed false = inl refl

deliver-IsServed : (e : Event) (s : Subscriber) → IsServed (e ∷ []) s (deliver e s)
unfolding deliver
deliver-IsServed e s = elim (Bool-cases s.done) [
  | inl done ↦ rw done (refl, inr refl, was_closed s.overflow, inl (refl, refl))
  | inr live ↦ elim (Bool-cases (ltb (length s.events) 256)) [
    | inl room ↦
        rw (live, room)
          (refl, inl (more s.events room), was_closed s.overflow, inr (refl, inr refl))
    | inr full ↦ rw (live, full) (refl, inr refl, inr refl, inr (refl, inl refl))
  ]
]
  where
    more : (events : List Event) → ltb (length events) 256 ≡ true → length (events ++ e ∷ []) ≤ 256
    more events room = ground (arith, length-append events (e ∷ []))

IsServed-trans :
    (first second : List Event) (x y z : Subscriber)
    → IsServed first x y
    → IsServed second y z
    → IsServed (first ++ second) x z
IsServed-trans first second x y z (done₁, few₁, over₁, all₁) (done₂, few₂, over₂, all₂) =
    (done₂ ∙ done₁, few few₂, over over₁ over₂, all all₁ all₂)
  where
    few :
        (length z.events ≤ 256) ⊎ (z.events ≡ y.events)
        → (length z.events ≤ 256) ⊎ (z.events ≡ x.events)
    few (inl small) = inl small
    few (inr same) = elim few₁ [
      | inl small ↦ inl (subst (λ t. length t ≤ 256) (sym same) small)
      | inr kept ↦ inr (same ∙ kept)
    ]

    over :
        (x.overflow ≡ false) ⊎ (y.overflow ≡ true)
        → (y.overflow ≡ false) ⊎ (z.overflow ≡ true)
        → (x.overflow ≡ false) ⊎ (z.overflow ≡ true)
    over (inl fine) later = inl fine
    over (inr closed) (inl fine) = cc
    over (inr closed) (inr still) = inr still

    apart : true ≡ false → ⊥
    apart e = cc

    reached :
        (y.overflow ≡ true) ⊎ (y.events ≡ x.events ++ first)
        → (z.overflow ≡ true) ⊎ (z.events ≡ y.events ++ second)
        → (y.overflow ≡ false) ⊎ (z.overflow ≡ true)
        → (z.overflow ≡ true) ⊎ (z.events ≡ x.events ++ (first ++ second))
    reached (inl closed) two (inl fine) = absurd (apart (sym closed ∙ fine))
    reached (inl closed) two (inr still) = inl still
    reached (inr got) (inl closed) later = inl closed
    reached (inr got) (inr more) later =
        inr (more ∙ ap (λ t. t ++ second) got ∙ append_assoc x.events first second)

    all :
        ((x.done ≡ true) × (y ≡ x))
          ⊎ ((x.done ≡ false) × ((y.overflow ≡ true) ⊎ (y.events ≡ x.events ++ first)))
        → ((y.done ≡ true) × (z ≡ y))
          ⊎ ((y.done ≡ false) × ((z.overflow ≡ true) ⊎ (z.events ≡ y.events ++ second)))
        → ((x.done ≡ true) × (z ≡ x))
          ⊎ ((x.done ≡ false) × ((z.overflow ≡ true) ⊎ (z.events ≡ x.events ++ (first ++ second))))
    all (inl (done, same)) (inl (still, kept)) = inl (done, kept ∙ same)
    all (inl (done, same)) (inr (live, two)) = absurd (apart (sym done ∙ sym done₁ ∙ live))
    all (inr (live, one)) (inl (done, kept)) = absurd (apart (sym done ∙ done₁ ∙ live))
    all (inr (live, one)) (inr (still, two)) = inr (live, reached one two over₂)

IsServed-refl : (x : Subscriber) → IsServed [] x x
IsServed-refl x = (refl, inr refl, was_closed x.overflow, kept (Bool-cases x.done))
  where
    kept :
        (x.done ≡ true) ⊎ (x.done ≡ false)
        → ((x.done ≡ true) × (x ≡ x))
          ⊎ ((x.done ≡ false) × ((x.overflow ≡ true) ⊎ (x.events ≡ x.events ++ [])))
    kept (inl done) = inl (done, refl)
    kept (inr live) = inr (live, inr (sym (append-nil x.events)))

AreServed-deliver :
    (e : Event) (sent : List Event) (xs ys : List Subscriber)
    → AreServed sent (map (deliver e) xs) ys
    → AreServed (e ∷ sent) xs ys
AreServed-deliver e sent [] [] h = tt
AreServed-deliver e sent [] (y ∷ ys) h = h
AreServed-deliver e sent (x ∷ xs) [] h = h
AreServed-deliver e sent (x ∷ xs) (y ∷ ys) (one, rest) = (
  IsServed-trans (e ∷ []) sent x (deliver e x) y (deliver-IsServed e x) one,
  AreServed-deliver e sent xs ys rest,
)

AreServed-refl : (xs : List Subscriber) → AreServed [] xs xs
AreServed-refl [] = tt
AreServed-refl (x ∷ xs) = (IsServed-refl x, AreServed-refl xs)

publish_events-AreServed :
    (sent : List Event) (xs : List Subscriber) → AreServed sent xs (publish_events sent xs)
unfolding publish_events
publish_events-AreServed [] xs = AreServed-refl xs
publish_events-AreServed (e ∷ sent) xs =
    AreServed-deliver e sent xs (publish_events sent (map (deliver e) xs))
      (publish_events-AreServed sent (map (deliver e) xs))

-- The events have the numbers that come after `last`, and are otherwise the given ones.
abbrev pub IsNumbered : ℕ → List Event → List Event → Type 0
IsNumbered last [] [] = Unit
IsNumbered last [] (e ∷ sent) = ⊥
IsNumbered last (e ∷ events) [] = ⊥
IsNumbered last (e ∷ events) (f ∷ sent) =
    (f.sequence ≡ last + 1)
    × (f.stream ≡ e.stream)
    × (f.content ≡ e.content)
    × (f.readable ≡ e.readable)
    × IsNumbered (last + 1) events sent

numbered-IsNumbered :
    (last : ℕ) (events : List Event) → IsNumbered last events (numbered last events)
unfolding numbered
numbered-IsNumbered last [] = tt
numbered-IsNumbered last (e ∷ events) =
    (refl, refl, refl, refl, numbered-IsNumbered (last + 1) events)

-- Events that are recorded in an open shell are numbered without a gap after the last one. A subscriber that
-- is not done either has all of them in order behind what it had, or its overflow is closed; one that is done
-- is left as it is, and no channel gets more than its 256 events.
pub record_events-IsServed :
    (events : List Event) (s : Shell)
    → s.output_closed ≡ false
    → let (after, sent) = record_events events s in
      IsNumbered s.last_sequence events sent
      × (after.last_sequence ≡ s.last_sequence + length events)
      × AreServed sent s.subscribers after.subscribers
unfolding record_events
record_events-IsServed [] s opened = (tt, omega arith, AreServed-refl s.subscribers)
record_events-IsServed (e ∷ events) s opened = rw opened (
  numbered-IsNumbered s.last_sequence (e ∷ events),
  refl,
  publish_events-AreServed (numbered s.last_sequence (e ∷ events)) s.subscribers,
)
