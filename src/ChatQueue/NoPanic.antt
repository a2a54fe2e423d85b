-- ===== src/ChatQueue/NoPanic.antt =====
-- No call of the queue's methods panics: no channel is closed twice (internal/httpapi/chat_queue.go).
use mathlib.Core.Path.{subst}
use eino_ops_agent_enterpr1s.Base.{
  ℕ, ◌+◌, ◌≤◌, false, some, Option-cases, List, [], ◌∷◌, List-cases, length, Text, ◌≡◌, ◌⊎◌, inl,
  inr, refl, sym, ap, arith, Bool-cases, is_empty, trim_space, contains, leb, Result, ok, err,
  ◌>>=◌,
}
use eino_ops_agent_enterpr1s.ChatQueue.{
  ChatAttachment, Message, Session, Queue, QueueError, inactive, panic, full, approval_id_required,
  approval_ids_required, max_queued_chat_messages, put, member, close_channel, new_queue, begin,
  pause, accepting_session, approval_set, renew, resume_session, resume, remove, insert, enqueue,
  next_item, next_after_turn, finish, clear, mode_of,
}
use eino_ops_agent_enterpr1s.ChatQueue.Order.{
  IsSteeringFirst, insert-IsSteeringFirst, insert-length, tail-IsSteeringFirst,
}
use eino_ops_agent_enterpr1s.ChatQueue.Safety.{IsQueue, Holds, put-IsQueue, renewed-IsQueue}
use eino_ops_agent_enterpr1s.ChatQueue.Lifecycle.{begun-IsQueue, ended-IsQueue}
use eino_ops_agent_enterpr1s.ChatQueue.Calls.{
  Call, beginning, taking, finishing, clearing, pausing, resuming, enqueuing, perform, carry_on,
  run_calls,
}

-- The call did not panic, and left well-formed queues.
abbrev pub IsSafe : Result QueueError Queue → Type 0
IsSafe (ok after) = Holds after
IsSafe (err panic) = ⊥
IsSafe (err inactive) = Unit
IsSafe (err full) = Unit
IsSafe (err approval_id_required) = Unit
IsSafe (err approval_ids_required) = Unit

-- The steps that return a value beside the queue.
abbrev IsSafeWith : {A : Type 0} → Result QueueError (Queue × A) → Type 0
IsSafeWith r = IsSafe (r >>= λ result. ok result.0)

pub new_queue-IsSafe : Holds new_queue
unfolding new_queue member
new_queue-IsSafe = record {
  bounded = λ id s e. cc;
  ordered = λ id s e. cc;
  open_channel = λ id s e. cc;
  made = λ id s e. cc;
  closed_made = λ n e. cc;
  apart = λ id other s t e f c. cc;
}

pub begin-IsSafe : (raw : Text) (q : Queue) → Holds q → Holds (begin raw q).0
unfolding begin
begin-IsSafe raw q h = elim (Bool-cases (is_empty (trim_space raw))) [
  | inl nothing ↦ rw nothing h
  | inr named ↦ elim (Option-cases (q.sessions (trim_space raw))) [
    | inl free ↦ rw (named, free) (begun-IsQueue h (trim_space raw) _ refl refl)
    | inr (s, taken) ↦ rw (named, taken) h
  ]
]

next-IsSafe : (raw : Text) (q : Queue) → Holds q → Holds (next_after_turn raw q).0
unfolding next_after_turn next_item
next-IsSafe raw q h = elim (Option-cases (q.sessions (trim_space raw))) [
  | inl gone ↦ rw (next_after_turn, gone) h
  | inr (s, found) ↦ elim (List-cases (s.items)) [
    | inl none_left ↦
        rw (next_after_turn, found, next_item, none_left)
          (put-IsQueue h (trim_space raw) s (record s { accepting = false }) found
            (h.bounded _ s found) (h.ordered _ s found) refl)
    | inr (m, items, some_left) ↦
        rw (next_after_turn, found, next_item, some_left)
          (put-IsQueue h (trim_space raw) s (record s { items = items }) found
            (omega (arith, h.bounded _ s found, ap length some_left))
            (tail-IsSteeringFirst m items (subst IsSteeringFirst some_left (h.ordered _ s found)))
            refl)
  ]
]

-- The channel of a session is open, so that it can be closed.
close-open :
    (q : Queue) (s : Session)
    → member s.changed q.closed ≡ false
    → close_channel s.changed q ≡ ok (record q { closed = s.changed ∷ q.closed })
unfolding close_channel
close-open q s e = rw e

finish-IsSafe : (raw : Text) (q : Queue) → Holds q → IsSafe (finish raw q)
unfolding finish
finish-IsSafe raw q h = elim (Option-cases (q.sessions (trim_space raw))) [
  | inl gone ↦ rw (finish, gone) h
  | inr (s, found) ↦
      rw (finish, found, close-open q s (h.open_channel _ s found))
        (ended-IsQueue h (trim_space raw) s found)
]

renew-ok :
    (id : Text) (s t : Session) (q : Queue)
    → Holds q
    → q.sessions id ≡ some s
    → t.changed ≡ s.changed
    → length t.items ≤ max_queued_chat_messages
    → IsSteeringFirst t.items
    → (after : Queue) × (renew id t q ≡ ok after) × Holds after
unfolding renew
renew-ok id s t q h found same bound order =
    let open_now : member t.changed q.closed ≡ false =
      subst (λ n. member n q.closed ≡ false) (sym same) (h.open_channel id s found) in
    (
      record q {
        closed = t.changed ∷ q.closed;
        sessions = put id (some (record t { changed = q.next })) q.sessions;
        next = q.next + 1;
      },
      rw (close-open q t open_now),
      subst
          (λ n.
            IsQueue (put id (some (record t { changed = q.next })) q.sessions) (n ∷ q.closed)
              (q.next + 1))
          (sym same)
          (renewed-IsQueue h id s (record t { changed = q.next }) found bound order refl),
    )

clear-IsSafe : (raw : Text) (q : Queue) → Holds q → IsSafeWith (clear raw q)
unfolding clear
clear-IsSafe raw q h = elim (Option-cases (q.sessions (trim_space raw))) [
  | inl gone ↦ rw (clear, gone) h
  | inr (s, found) ↦
      let (after, done, safe) =
        renew-ok (trim_space raw) s (record s { items = []; accepting = false }) q h found refl
          (omega arith) tt in
      rw (clear, found, done) safe
]

resume-IsSafe : (raw approval : Text) (q : Queue) → Holds q → IsSafeWith (resume raw approval q)
unfolding resume resume_session
resume-IsSafe raw approval q h = elim (Option-cases (q.sessions (trim_space raw))) [
  | inl gone ↦ rw (resume, gone) h
  | inr (s, found) ↦
      let left = record s { paused_for = remove (trim_space approval) s.paused_for } in
      let bound = h.bounded _ s found in
      let order = h.ordered _ s found in
      elim (Bool-cases (contains s.paused_for (trim_space approval))) [
        | inr other ↦ rw (resume, found, resume_session, other) h
        | inl listed ↦ elim (Bool-cases (is_empty (remove (trim_space approval) s.paused_for))) [
          | inr waits ↦
              rw (resume, found, resume_session, listed, waits)
                (put-IsQueue h (trim_space raw) s left found bound order refl)
          | inl last ↦
              let (after, done, safe) =
                renew-ok (trim_space raw) s left q h found refl bound order in
              rw (resume, found, resume_session, listed, last, done) safe
        ]
      ]
]

accepting-cases :
    (id : Text) (q : Queue)
    → (accepting_session id q ≡ err inactive)
      ⊎ ((s : Session) × (q.sessions id ≡ some s) × (accepting_session id q ≡ ok s))
unfolding accepting_session
accepting-cases id q = elim (Option-cases (q.sessions id)) [
  | inl gone ↦ inl (rw (accepting_session, gone))
  | inr (s, found) ↦ elim (Bool-cases (s.accepting)) [
    | inl open_queue ↦ inr (s, found, rw (accepting_session, found, open_queue))
    | inr shut ↦ inl (rw (accepting_session, found, shut))
  ]
]

approval_set-cases :
    (ids set : List Text)
    → (approval_set ids set ≡ err approval_id_required)
      ⊎ ((all : List Text) × (approval_set ids set ≡ ok all))
unfolding approval_set
approval_set-cases [] set = inr (set, refl)
approval_set-cases (raw ∷ ids) set = elim (Bool-cases (is_empty (trim_space raw))) [
  | inl nothing ↦ inl (rw nothing)
  | inr named ↦ rw named (approval_set-cases ids _)
]

pause-IsSafe : (raw : Text) (ids : List Text) (q : Queue) → Holds q → IsSafeWith (pause raw ids q)
unfolding pause
pause-IsSafe raw ids q h = elim (approval_set-cases ids []) [
  | inl missing ↦ rw missing tt
  | inr (set, listed) ↦ elim (Bool-cases (is_empty set)) [
    | inl nothing ↦ rw (listed, nothing) tt
    | inr some_ids ↦ elim (accepting-cases (trim_space raw) q) [
      | inl shut ↦ rw (listed, some_ids, shut) tt
      | inr (s, found, open_queue) ↦
          rw (listed, some_ids, open_queue)
            (put-IsQueue h (trim_space raw) s (record s { paused_for = set }) found
              (h.bounded _ s found) (h.ordered _ s found) refl)
    ]
  ]
]

enqueue-IsSafe :
    (raw message mode new_id : Text) (attachments : List ChatAttachment) (now : ℕ) (q : Queue)
    → Holds q
    → IsSafe
        (enqueue raw message mode attachments new_id now q >>= λ (r : Queue × Message × ℕ). ok r.0)
unfolding enqueue
enqueue-IsSafe raw message mode new_id attachments now q h =
    elim (accepting-cases (trim_space raw) q) [
      | inl shut ↦ rw shut tt
      | inr (s, found, open_queue) ↦
          elim (Bool-cases (leb max_queued_chat_messages (length s.items))) [
            | inl crowded ↦ rw (open_queue, crowded) tt
            | inr space ↦
                let item : Message = record {
                  id = new_id;
                  message = trim_space message;
                  mode = mode_of mode;
                  attachments = attachments;
                  created_at = now;
                } in
                rw (open_queue, space)
                  (put-IsQueue h (trim_space raw) s (record s { items = (insert item s.items).0 })
                    found (ground (arith, insert-length item s.items (h.ordered _ s found)))
                    (insert-IsSteeringFirst item s.items (h.ordered _ s found)) refl)
          ]
    ]

perform-IsSafe : (c : Call) (q : Queue) → Holds q → IsSafe (perform c q)
unfolding perform
perform-IsSafe (beginning id) q h = begin-IsSafe id q h
perform-IsSafe (taking id) q h = next-IsSafe id q h
perform-IsSafe (finishing id) q h = finish-IsSafe id q h
perform-IsSafe (clearing id) q h = clear-IsSafe id q h
perform-IsSafe (pausing id ids) q h = pause-IsSafe id ids q h
perform-IsSafe (resuming id approval) q h = resume-IsSafe id approval q h
perform-IsSafe (enqueuing id message mode attachments new_id now) q h =
    enqueue-IsSafe id message mode new_id attachments now q h

carry_on-IsSafe :
    (q : Queue) (r : Result QueueError Queue)
    → Holds q
    → IsSafe r
    → (after : Queue) × (carry_on q r ≡ ok after) × Holds after
carry_on-IsSafe q (ok after) h safe = (after, refl, safe)
carry_on-IsSafe q (err panic) h safe = absurd safe
carry_on-IsSafe q (err inactive) h safe = (q, refl, h)
carry_on-IsSafe q (err full) h safe = (q, refl, h)
carry_on-IsSafe q (err approval_id_required) h safe = (q, refl, h)
carry_on-IsSafe q (err approval_ids_required) h safe = (q, refl, h)

run_calls-Holds :
    (calls : List Call) (q : Queue)
    → Holds q
    → (after : Queue) × (run_calls calls q ≡ ok after) × Holds after
unfolding run_calls
run_calls-Holds [] q h = (q, refl, h)
run_calls-Holds (c ∷ calls) q h =
    let (next, done, safe) = carry_on-IsSafe q (perform c q) h (perform-IsSafe c q h) in
    rw done (run_calls-Holds calls next safe)

-- Whatever calls of the queue's methods follow each other, from the empty queue on, none panics by
-- closing a channel twice. Afterwards each session holds at most 20 messages, with the steering
-- messages before the others, and has an open channel that no other session has.
pub no_panic :
    (calls : List Call) → (after : Queue) × (run_calls calls new_queue ≡ ok after) × Holds after
no_panic calls = run_calls-Holds calls new_queue new_queue-IsSafe
