-- ===== src/Tasks/Calls.antt =====
-- Sequences of the sections of internal/service/tasks.go, and what they do to the state of one task.
use eino_ops_agent_enterpr1s.Base.{
  ℕ, Bool, Option, none, some, List, [], Text, Bytes, Result, ok, err, ◌≡◌, ◌≢◌,
}
use eino_ops_agent_enterpr1s.Tasks.{
  ExecResult, TaskState, Stream, Change, run_started, run_output, Failure, StoredRun,
}
use eino_ops_agent_enterpr1s.Tasks.Rows.{Row, TaskError}
use eino_ops_agent_enterpr1s.Tasks.Service.{
  TaskService, change_task, forget_task, open_task, returned, cancel_task,
}
use eino_ops_agent_enterpr1s.Tasks.Projection.{ExecutionEvent, project_event, settle}

-- The sections; a cancellation also reads the table of rows.
pub data Call : Type 0 where
  opening : Text → Text → Text → ℕ → Call
  starting : Text → Text → Call
  printing : Text → Stream → Bytes → ℕ → Call
  returning : Text → ExecResult → Option Failure → ℕ → Call
  cancelling : Option Text → Text → ℕ → List Row → Call
  forgetting : Text → Call
  projecting : ExecutionEvent → ℕ → Call
  settling : Text → Text → Bool → Text → StoredRun → ℕ → Call

abbrev pub cancelled_outcome :
    TaskService → Result TaskError (TaskService × Change) → TaskService × Option Change
cancelled_outcome s (ok (next, c)) = (next, some c)
cancelled_outcome s (err e) = (s, none)

unfoldable pub perform : Call → TaskService → TaskService × Option Change
unfolding open_task change_task forget_task returned cancel_task project_event settle run_started
    run_output
perform (opening id session_id host_id now) s = ((open_task id session_id host_id now s []).0, none)
perform (starting id run_id) s = change_task id (run_started run_id) s
perform (printing id stream chunk now) s = change_task id (run_output stream chunk now) s
perform (returning id result failure now) s = returned id result failure now s
perform (cancelling session id now rows) s = cancelled_outcome s (cancel_task session id now rows s)
perform (forgetting id) s = (forget_task id s, none)
perform (projecting event now) s = project_event event now s
perform (settling run_id id approval_rejected reason run now) s =
    settle run_id id approval_rejected reason run now s

-- The call does not start a task with the id of this one.
abbrev pub Keeps : Text → Call → Type 0
Keeps id (opening other session_id host_id now) = other ≢ id
Keeps id _ = Unit

-- The states stand under the ids of their tasks.
abbrev pub Keyed : TaskService → Type 0
Keyed s = (key : Text) (state : TaskState) → s.tasks key ≡ some state → state.task.id ≡ key
