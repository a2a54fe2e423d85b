-- ===== src/ChatQueue/Lifecycle.antt =====
-- Sessions that begin and end keep the invariant of the queues (internal/httpapi/chat_queue.go).
use mathlib.Core.Path.{subst}
use eino_ops_agent_enterpr1s.Base.{
  ℕ, ◌+◌, false, Option, none, some, List, [], ◌∷◌, length, Text, ◌==◌, ◌≡◌, ◌≢◌, ◌⊎◌, inl, inr,
  sym, ap, ◌∙◌, arith, Bool-cases,
}
use eino_ops_agent_enterpr1s.ChatQueue.{Session, put, member}
use eino_ops_agent_enterpr1s.ChatQueue.Safety.{IsQueue, put-cases}
use eino_ops_agent_enterpr1s.ChatQueue.Order.{IsSteeringFirst}

module _ {sessions : Text → Option Session} {closed : List ℕ} {next : ℕ}
    (h : IsQueue sessions closed next) (id : Text) where
  -- A new session has an empty queue and a channel that no other session has.
  pub begun-IsQueue :
      (t : Session)
      → t.items ≡ []
      → t.changed ≡ next
      → IsQueue (put id (some t) sessions) closed (next + 1)
  begun-IsQueue t no_items fresh = record {
    bounded = λ o u e. elim (put-cases id (some t) sessions o e) [
      | inl (_, new) ↦
          omega (arith, ap length no_items, ap (λ (z : Session). length z.items) (is_t u new))
      | inr (_, kept) ↦ h.bounded o u kept
    ];
    ordered = λ o u e. elim (put-cases id (some t) sessions o e) [
      | inl (_, new) ↦
          subst IsSteeringFirst (sym no_items ∙ ap (λ (z : Session). z.items) (is_t u new)) tt
      | inr (_, kept) ↦ h.ordered o u kept
    ];
    open_channel = λ o u e. elim (put-cases id (some t) sessions o e) [
      | inl (_, new) ↦ opened u.changed (sym (ap (λ (z : Session). z.changed) (is_t u new)) ∙ fresh)
      | inr (_, kept) ↦ h.open_channel o u kept
    ];
    made = λ o u e. elim (put-cases id (some t) sessions o e) [
      | inl (_, new) ↦ omega (arith, fresh, ap (λ (z : Session). z.changed) (is_t u new))
      | inr (_, kept) ↦ omega (arith, h.made o u kept)
    ];
    closed_made = λ n e. omega (arith, h.closed_made n e);
    apart = λ o p u v e f c.
        alone o p u v (put-cases id (some t) sessions o e) (put-cases id (some t) sessions p f) c;
  }
    where
      is_t : (u : Session) → some t ≡ some u → t ≡ u
      is_t u e = cc

      opened : (n : ℕ) → n ≡ next → member n closed ≡ false
      opened n e = elim (Bool-cases (member n closed)) [
        | inl bad ↦ absurd (omega (arith, e, h.closed_made n bad))
        | inr good ↦ good
      ]

      alone :
          (o p : Text) (u v : Session)
          → ((o ≡ id) × (some t ≡ some u)) ⊎ ((o ≢ id) × (sessions o ≡ some u))
          → ((p ≡ id) × (some t ≡ some v)) ⊎ ((p ≢ id) × (sessions p ≡ some v))
          → u.changed ≡ v.changed
          → o ≡ p
      alone o p u v (inl (e, a)) (inl (f, b)) c = e ∙ sym f
      alone o p u v (inl (e, a)) (inr (f, b)) c =
          absurd (omega (arith, h.made p v b, c, fresh, ap (λ (z : Session). z.changed) (is_t u a)))
      alone o p u v (inr (e, a)) (inl (f, b)) c =
          absurd (omega (arith, h.made o u a, c, fresh, ap (λ (z : Session). z.changed) (is_t v b)))
      alone o p u v (inr (e, a)) (inr (f, b)) c = h.apart o p u v a b c

  -- A session ends: its channel is closed, which no other session uses.
  pub ended-IsQueue :
      (s : Session)
      → sessions id ≡ some s
      → IsQueue (put id none sessions) (s.changed ∷ closed) next
  unfolding member
  ended-IsQueue s old = record {
    bounded = λ o u e. h.bounded o u (kept o u e).1;
    ordered = λ o u e. h.ordered o u (kept o u e).1;
    open_channel = λ o u e. elim (Bool-cases (u.changed == s.changed)) [
      | inl same ↦ absurd ((kept o u e).0 (h.apart o id u s (kept o u e).1 old (ground arith)))
      | inr differs ↦ ground (arith, h.open_channel o u (kept o u e).1)
    ];
    made = λ o u e. h.made o u (kept o u e).1;
    closed_made = λ n e. elim (Bool-cases (n == s.changed)) [
      | inl same ↦ ground (arith, h.made id s old)
      | inr other ↦ h.closed_made n (rw other at e)
    ];
    apart = λ o p u v e f c. h.apart o p u v (kept o u e).1 (kept p v f).1 c;
  }
    where
      kept :
          (o : Text) (u : Session)
          → put id none sessions o ≡ some u
          → (o ≢ id) × (sessions o ≡ some u)
      kept o u e = elim (put-cases id none sessions o e) [ inl (_, nothing) ↦ cc | inr both ↦ both ]
