-- ===== src/ChatQueue/Examples.antt =====
-- A conversation `s` that has just begun.
use eino_ops_agent_enterpr1s.Base.{
  ℕ, true, false, none, some, List, [], ◌∷◌, Text, ◌≡◌, ◌≢◌, refl, ap, arith, equal, trim_space, ok,
}
use eino_ops_agent_enterpr1s.ChatQueue.{
  Message, Session, Queue, put, notify, member, new_queue, begin, pause, resume, enqueue,
  public_queued_chat_message, wait_for_resume, inactive_queue, blocked, resumed, steering,
}
use eino_ops_agent_enterpr1s.ChatQueue.Order.{Inserted}
use eino_ops_agent_enterpr1s.ChatQueue.Safety.{Holds}
use eino_ops_agent_enterpr1s.ChatQueue.Calls.{
  Call, beginning, enqueuing, clearing, finishing, run_calls,
}
use eino_ops_agent_enterpr1s.ChatQueue.NoPanic.{no_panic, begin-IsSafe, new_queue-IsSafe}
use eino_ops_agent_enterpr1s.ChatQueue.Waits.{enqueue-Inserted, pause-resume}

abbrev key : Text
key = b's' ∷ []

abbrev begun : Queue
begun = (begin key new_queue).0

abbrev begun_session : Session
begun_session = record { items = []; ctx = 0; accepting = true; paused_for = []; changed = 0 }

begun_found : begun.sessions (trim_space key) ≡ some begun_session
unfolding begin new_queue trim_space equal
begun_found = refl

abbrev calls : List Call
calls =
    beginning key
    ∷ (enqueuing key (b'm' ∷ []) steering [] (b'1' ∷ []) 3
        ∷ (clearing key ∷ (finishing key ∷ (finishing key ∷ []))))

no_panic_example : (after : Queue) × (run_calls calls new_queue ≡ ok after) × Holds after
no_panic_example = no_panic calls

abbrev an_item : Message
an_item = record {
  id = b'1' ∷ [];
  message = trim_space (b'm' ∷ []);
  mode = steering;
  attachments = [];
  created_at = 3;
}

enqueue-Inserted_example :
    (items : List Message) × (position : ℕ) × (enqueue key
        (b'm' ∷ [])
        steering
        []
        (b'1' ∷ [])
        3
        begun
      ≡ ok (
        notify (trim_space key) (record begun {
          sessions =
              put (trim_space key) (some (record begun_session { items = items })) begun.sessions;
        }),
        public_queued_chat_message an_item,
        position,
      ))
    × Inserted an_item [] items position
unfolding trim_space
enqueue-Inserted_example =
    enqueue-Inserted key (b'm' ∷ []) steering (b'1' ∷ []) [] 3 begun begun_session
      (begin-IsSafe key new_queue new_queue-IsSafe) begun_found refl (omega arith)

another_approval : trim_space (b'b' ∷ []) ≢ trim_space (b'a' ∷ [])
unfolding trim_space
another_approval e = absurd (omega (arith, ap first e))
  where
    first : Text → ℕ
    first [] = 0
    first (c ∷ s) = c

pause-resume_example :
    (waiting after : Queue) × (channel : ℕ) × (pause key ((b'a' ∷ []) ∷ []) begun
      ≡ ok (waiting, channel))
    × (wait_for_resume key (some channel) waiting waiting ≡ blocked)
    × (resume key (b'b' ∷ []) waiting ≡ ok (waiting, false))
    × (resume key (b'a' ∷ []) waiting ≡ ok (after, true))
    × (wait_for_resume key (some channel) waiting after ≡ resumed)
    × (wait_for_resume key none waiting after ≡ inactive_queue)
unfolding trim_space begin new_queue member
pause-resume_example =
    pause-resume key (b'a' ∷ []) (b'b' ∷ []) begun begun_session
      (begin-IsSafe key new_queue new_queue-IsSafe) begun_found refl refl another_approval refl
