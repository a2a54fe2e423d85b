-- ===== src/ChatQueue/Safety.antt =====
-- The invariant of the queues of internal/httpapi/chat_queue.go, and what no call does to them.
use mathlib.Core.Path.{subst}
use eino_ops_agent_enterpr1s.Base.{
  ℕ, ◌+◌, ◌≤◌, ◌<◌, true, false, Option, some, List, ◌∷◌, length, Text, equal, equal_iff, ◌==◌, ◌≡◌,
  ◌≢◌, ◌⊎◌, inl, inr, refl, sym, ap, ◌∙◌, arith, Bool-cases,
}
use eino_ops_agent_enterpr1s.ChatQueue.{Session, Queue, max_queued_chat_messages, put, member}
use eino_ops_agent_enterpr1s.ChatQueue.Order.{IsSteeringFirst}

-- A session has at most 20 messages, steering ones first, and an open channel of its own.
pub record IsQueue (sessions : Text → Option Session) (closed : List ℕ) (next : ℕ) : Type 0 where
  pub bounded :
      (id : Text) (s : Session) → sessions id ≡ some s → length s.items ≤ max_queued_chat_messages
  pub ordered : (id : Text) (s : Session) → sessions id ≡ some s → IsSteeringFirst s.items
  pub open_channel :
      (id : Text) (s : Session) → sessions id ≡ some s → member s.changed closed ≡ false
  pub made : (id : Text) (s : Session) → sessions id ≡ some s → s.changed < next
  pub closed_made : (n : ℕ) → member n closed ≡ true → n < next
  pub apart :
      (id other : Text) (s t : Session)
      → sessions id ≡ some s
      → sessions other ≡ some t
      → s.changed ≡ t.changed
      → id ≡ other

abbrev pub Holds : Queue → Type 0
Holds q = IsQueue q.sessions q.closed q.next

pub put-cases :
    (id : Text) (new : Option Session) (sessions : Text → Option Session) (other : Text)
    {t : Session}
    → put id new sessions other ≡ some t
    → ((other ≡ id) × (new ≡ some t)) ⊎ ((other ≢ id) × (sessions other ≡ some t))
put-cases id new sessions other h = elim (Bool-cases (equal other id)) [
  | inl here ↦ inl ((equal_iff other id).0 here, rw here at h)
  | inr elsewhere ↦ inr ((λ e. cc ((equal_iff other id).1 e, elsewhere)), rw elsewhere at h)
]

-- A session that keeps its channel is written back.
module _ {sessions : Text → Option Session} {closed : List ℕ} {next : ℕ}
    (h : IsQueue sessions closed next) (id : Text) (s t : Session) (old : sessions id ≡ some s)
    (bound : length t.items ≤ max_queued_chat_messages) (order : IsSteeringFirst t.items) where
  pub put-IsQueue : t.changed ≡ s.changed → IsQueue (put id (some t) sessions) closed next
  put-IsQueue same = record {
    bounded = λ o u e. elim (put-cases id (some t) sessions o e) [
      | inl (_, new) ↦ subst (λ z. length z.items ≤ 20) (is_t u new) bound
      | inr (_, kept) ↦ h.bounded o u kept
    ];
    ordered = λ o u e. elim (put-cases id (some t) sessions o e) [
      | inl (_, new) ↦ subst (λ z. IsSteeringFirst z.items) (is_t u new) order
      | inr (_, kept) ↦ h.ordered o u kept
    ];
    open_channel = λ o u e.
        let (v, kept, c) = channel_of o u e in
        subst (λ n. member n closed ≡ false) c (h.open_channel o v kept);
    made =
        λ o u e. let (v, kept, c) = channel_of o u e in subst (λ n. n < next) c (h.made o v kept);
    closed_made = h.closed_made;
    apart = λ o p u v e f c.
        let (u', eu, cu) = channel_of o u e in
        let (v', ev, cv) = channel_of p v f in h.apart o p u' v' eu ev (cu ∙ c ∙ sym cv);
  }
    where
      is_t : (u : Session) → some t ≡ some u → t ≡ u
      is_t u e = cc

      channel_of :
          (o : Text) (u : Session)
          → put id (some t) sessions o ≡ some u
          → (v : Session) × (sessions o ≡ some v) × (v.changed ≡ u.changed)
      channel_of o u e = elim (put-cases id (some t) sessions o e) [
        | inl (here, new) ↦
            (s, ap sessions here ∙ old, sym same ∙ ap (λ (z : Session). z.changed) (is_t u new))
        | inr (_, kept) ↦ (u, kept, refl)
      ]

  -- The channel is closed, and a new one takes its place.
  pub renewed-IsQueue :
      t.changed ≡ next → IsQueue (put id (some t) sessions) (s.changed ∷ closed) (next + 1)
  unfolding member
  renewed-IsQueue fresh = record {
    bounded = λ o u e. elim (put-cases id (some t) sessions o e) [
      | inl (_, new) ↦ subst (λ z. length z.items ≤ 20) (is_t u new) bound
      | inr (_, kept) ↦ h.bounded o u kept
    ];
    ordered = λ o u e. elim (put-cases id (some t) sessions o e) [
      | inl (_, new) ↦ subst (λ z. IsSteeringFirst z.items) (is_t u new) order
      | inr (_, kept) ↦ h.ordered o u kept
    ];
    open_channel = λ o u e. elim (put-cases id (some t) sessions o e) [
      | inl (_, new) ↦ opened u.changed (sym (ap (λ (z : Session). z.changed) (is_t u new)) ∙ fresh)
      | inr (other, kept) ↦ kept_open o u other kept
    ];
    made = λ o u e. elim (put-cases id (some t) sessions o e) [
      | inl (_, new) ↦ omega (arith, fresh, ap (λ (z : Session). z.changed) (is_t u new))
      | inr (_, kept) ↦ omega (arith, h.made o u kept)
    ];
    closed_made = closed_below;
    apart = λ o p u v e f c.
        alone o p u v (put-cases id (some t) sessions o e) (put-cases id (some t) sessions p f) c;
  }
    where
      is_t : (u : Session) → some t ≡ some u → t ≡ u
      is_t u e = cc

      closed_below : (n : ℕ) → member n (s.changed ∷ closed) ≡ true → n < next + 1
      closed_below n e = elim (Bool-cases (n == s.changed)) [
        | inl same ↦ ground (arith, h.made id s old)
        | inr other ↦ omega (arith, h.closed_made n (rw other at e))
      ]

      opened : (n : ℕ) → n ≡ next → member n (s.changed ∷ closed) ≡ false
      opened n e = elim (Bool-cases (member n closed)) [
        | inl bad ↦ absurd (omega (arith, e, h.closed_made n bad))
        | inr good ↦ ground (arith, h.made id s old)
      ]

      kept_open :
          (o : Text) (u : Session)
          → o ≢ id
          → sessions o ≡ some u
          → member u.changed (s.changed ∷ closed) ≡ false
      kept_open o u other kept = elim (Bool-cases (u.changed == s.changed)) [
        | inl same ↦ absurd (other (h.apart o id u s kept old (ground arith)))
        | inr differs ↦ ground (arith, h.open_channel o u kept)
      ]

      alone :
          (o p : Text) (u v : Session)
          → ((o ≡ id) × (some t ≡ some u)) ⊎ ((o ≢ id) × (sessions o ≡ some u))
          → ((p ≡ id) × (some t ≡ some v)) ⊎ ((p ≢ id) × (sessions p ≡ some v))
          → u.changed ≡ v.changed
          → o ≡ p
      alone o p u v (inl (e, a)) (inl (f, b)) c = e ∙ sym f
      alone o p u v (inl (e, a)) (inr (f, b)) c =
          absurd (omega (arith, h.made p v b, c, fresh, ap (λ (z : Session). z.changed) (is_t u a)))
      alone o p u v (inr (e, a)) (inl (f, b)) c =
          absurd (omega (arith, h.made o u a, c, fresh, ap (λ (z : Session). z.changed) (is_t v b)))
      alone o p u v (inr (e, a)) (inr (f, b)) c = h.apart o p u v a b c
