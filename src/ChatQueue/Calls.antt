-- ===== src/ChatQueue/Calls.antt =====
-- Sequences of calls of the queue's methods (internal/httpapi/chat_queue.go).
use eino_ops_agent_enterpr1s.Base.{ℕ, Bool, Option, List, [], ◌∷◌, Text, Result, ok, err, ◌>>=◌}
use eino_ops_agent_enterpr1s.ChatQueue.{
  ChatAttachment, Message, Queue, QueueError, inactive, full, approval_id_required,
  approval_ids_required, panic, begin, pause, resume, enqueue, next_after_turn, finish, clear,
}

-- A call of a method that changes the queue, with its arguments.
pub data Call : Type 0 where
  beginning taking finishing clearing : Text → Call
  pausing : Text → List Text → Call
  resuming : Text → Text → Call
  enqueuing : Text → Text → Text → List ChatAttachment → Text → ℕ → Call

unfoldable pub perform : Call → Queue → Result QueueError Queue
unfolding begin pause resume enqueue next_after_turn finish clear
perform (beginning id) q = ok (begin id q).0
perform (taking id) q = ok (next_after_turn id q).0
perform (finishing id) q = finish id q
perform (clearing id) q = clear id q >>= λ (r : Queue × Option ℕ). ok r.0
perform (pausing id ids) q = pause id ids q >>= λ (r : Queue × ℕ). ok r.0
perform (resuming id approval_id) q = resume id approval_id q >>= λ (r : Queue × Bool). ok r.0
perform (enqueuing id message mode attachments new_id now) q =
    enqueue id message mode attachments new_id now q >>= λ (r : Queue × Message × ℕ). ok r.0

-- A call that returns an error leaves the queue as it was; a panic ends the program.
abbrev pub carry_on : Queue → Result QueueError Queue → Result QueueError Queue
carry_on before (ok after) = ok after
carry_on before (err panic) = err panic
carry_on before (err inactive) = ok before
carry_on before (err full) = ok before
carry_on before (err approval_id_required) = ok before
carry_on before (err approval_ids_required) = ok before

unfoldable pub run_calls : List Call → Queue → Result QueueError Queue
unfolding perform
run_calls [] q = ok q
run_calls (c ∷ calls) q = carry_on q (perform c q) >>= run_calls calls
