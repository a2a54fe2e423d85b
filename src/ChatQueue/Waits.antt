-- ===== src/ChatQueue/Waits.antt =====
-- What a message that is queued, and a turn that waits for an approval, can rely on
-- (internal/httpapi/chat_queue.go).
use eino_ops_agent_enterpr1s.Base.{
  ℕ, ◌+◌, ◌<◌, true, false, none, some, List, [], ◌∷◌, length, Text, ◌≡◌, ◌≢◌, refl, arith, equal,
  equal_iff, equal_refl, is_empty, trim_space, contains, leb, ok,
}
use eino_ops_agent_enterpr1s.ChatQueue.{
  ChatAttachment, Message, Session, Queue, max_queued_chat_messages, put, notify, member,
  close_channel, pause, accepting_session, approval_set, renew, resume_session, resume, remove,
  insert, enqueue, mode_of, public_queued_chat_message, wait_for_resume, inactive_queue, blocked,
  resumed, select_resume,
}
use eino_ops_agent_enterpr1s.ChatQueue.Order.{Inserted, insert-Inserted}
use eino_ops_agent_enterpr1s.ChatQueue.Safety.{Holds}

accepting_session-ok :
    (id : Text) (q : Queue) {s : Session}
    → q.sessions id ≡ some s
    → s.accepting ≡ true
    → accepting_session id q ≡ ok s
unfolding accepting_session
accepting_session-ok id q found open_queue = rw (accepting_session, found, open_queue)

-- In well-formed queues, a message for a session that accepts messages and holds fewer than 20 is
-- queued: a steering one behind the steering messages, any other one at the end. The place that
-- `enqueue` returns, from 1, is the message's, and no other session changes.
pub enqueue-Inserted :
    (raw message mode new_id : Text) (attachments : List ChatAttachment) (now : ℕ) (q : Queue)
    (s : Session)
    → Holds q
    → q.sessions (trim_space raw) ≡ some s
    → s.accepting ≡ true
    → length s.items < 20
    → let item : Message = record {
      id = new_id;
      message = trim_space message;
      mode = mode_of mode;
      attachments = attachments;
      created_at = now;
    } in
      (items : List Message) × (position : ℕ) × (enqueue raw message mode attachments new_id now q
        ≡ ok (
          notify (trim_space raw) (record q {
            sessions = put (trim_space raw) (some (record s { items = items })) q.sessions;
          }),
          public_queued_chat_message item,
          position,
        ))
      × Inserted item s.items items position
unfolding enqueue
enqueue-Inserted raw message mode new_id attachments now q s h found open_queue space =
    let item : Message = record {
      id = new_id;
      message = trim_space message;
      mode = mode_of mode;
      attachments = attachments;
      created_at = now;
    } in
    let few : leb max_queued_chat_messages (length s.items) ≡ false = ground arith in
    (
      (insert item s.items).0,
      (insert item s.items).1,
      rw (accepting_session-ok (trim_space raw) q found open_queue, few),
      insert-Inserted item s.items (h.ordered _ s found),
    )

-- The queues after a turn of the session has paused for one approval.
abbrev paused : Text → Text → Session → Queue → Queue
paused raw approval s q = notify (trim_space raw) (record q {
  sessions =
      put (trim_space raw) (some (record s { paused_for = trim_space approval ∷ [] })) q.sessions;
})

pause-one :
    (raw approval : Text) (q : Queue) (s : Session)
    → q.sessions (trim_space raw) ≡ some s
    → s.accepting ≡ true
    → is_empty (trim_space approval) ≡ false
    → pause raw (approval ∷ []) q ≡ ok (paused raw approval s q, s.changed)
unfolding pause approval_set contains
pause-one raw approval q s found open_queue named =
    rw (named, accepting_session-ok (trim_space raw) q found open_queue)

-- The queues after that approval has been resumed.
abbrev resumed_queue : Text → Text → Session → Queue → Queue
resumed_queue raw approval s q = record q {
  sessions =
      put (trim_space raw) (some (record s { paused_for = []; changed = q.next })) (
        put (trim_space raw) (some (record s { paused_for = trim_space approval ∷ [] }))
          q.sessions);
  closed = s.changed ∷ q.closed;
  next = q.next + 1;
  notified = trim_space raw ∷ (trim_space raw ∷ q.notified);
}

resume-one :
    (raw approval : Text) (q : Queue) (s : Session)
    → member s.changed q.closed ≡ false
    → (after : Queue) × (resume raw approval (paused raw approval s q) ≡ ok (after, true))
      × (after.closed ≡ s.changed ∷ q.closed)
      × (after.cancelled ≡ q.cancelled)
unfolding resume resume_session remove contains renew close_channel
resume-one raw approval q s open_now = (
  resumed_queue raw approval s q,
  rw (
    resume,
    equal_refl (trim_space raw),
    resume_session,
    contains,
    remove,
    equal_refl (trim_space approval),
    renew,
    close_channel,
    open_now,
  ),
  refl,
  refl,
)

-- `resume` with another approval does nothing.
resume-other :
    (raw approval other : Text) (q : Queue) (s : Session)
    → trim_space other ≢ trim_space approval
    → resume raw other (paused raw approval s q) ≡ ok (paused raw approval s q, false)
unfolding resume resume_session contains
resume-other raw approval other q s apart =
    let missing : equal (trim_space approval) (trim_space other) ≡ false =
      ground (arith, equal_iff (trim_space approval) (trim_space other)) in
    rw (resume, equal_refl (trim_space raw), resume_session, contains, missing)

-- In well-formed queues, a turn of a session that accepts messages and is not cancelled can pause for an approval.
-- Its `waitForResume` is then blocked; `resume` of the session with any other approval answers false and changes
-- nothing; `resume` with that approval succeeds, and the wait goes on. Without a channel, the wait is an error.
pub pause-resume :
    (raw approval other : Text) (q : Queue) (s : Session)
    → Holds q
    → q.sessions (trim_space raw) ≡ some s
    → s.accepting ≡ true
    → is_empty (trim_space approval) ≡ false
    → trim_space other ≢ trim_space approval
    → member s.ctx q.cancelled ≡ false
    → (waiting after : Queue) × (channel : ℕ) × (pause raw (approval ∷ []) q
        ≡ ok (waiting, channel))
      × (wait_for_resume raw (some channel) waiting waiting ≡ blocked)
      × (resume raw other waiting ≡ ok (waiting, false))
      × (resume raw approval waiting ≡ ok (after, true))
      × (wait_for_resume raw (some channel) waiting after ≡ resumed)
      × (wait_for_resume raw none waiting after ≡ inactive_queue)
unfolding wait_for_resume select_resume
pause-resume raw approval other q s h found open_queue named apart running =
    let open_now = h.open_channel (trim_space raw) s found in
    let (after, done, closed, cancelled) = resume-one raw approval q s open_now in
    (
      paused raw approval s q,
      after,
      s.changed,
      pause-one raw approval q s found open_queue named,
      rw (wait_for_resume, equal_refl (trim_space raw), select_resume, running, open_now),
      resume-other raw approval other q s apart,
      done,
      rw (wait_for_resume, equal_refl (trim_space raw), select_resume, cancelled, running, closed)
          (ground arith),
      refl,
    )
