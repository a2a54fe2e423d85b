-- ===== src/Tasks/Waiting.antt =====
-- Reading a task, and waiting for it (internal/service/tasks.go).
use eino_ops_agent_enterpr1s.Base.{
  ℕ, Bool, true, false, not, ◌&&◌, ◌||◌, Option, none, some, List, [], ◌∷◌, Text, equal, length,
  ltb, leb, if◌then◌else◌, Result, ok, err,
}
use eino_ops_agent_enterpr1s.Tasks.{terminal_execution_status, Snapshot, task_snapshot}
use eino_ops_agent_enterpr1s.Tasks.Rows.{Row, TaskError, not_found, context_ended, get_task}
use eino_ops_agent_enterpr1s.Tasks.Service.{TaskService}

-- `taskForContext`: the state, or else the stored task. The Boolean says that there is a channel to wait on.
unfoldable pub task_for_context :
    Text → Text → List Row → TaskService → Result TaskError (Snapshot × Bool)
unfolding get_task task_snapshot
task_for_context session_id id rows s = elim (s.tasks id) [
  | some state ↦
      if equal state.task.session_id session_id
      then ok (task_snapshot state, true)
      else err not_found
  | none ↦ elim (get_task id rows) [
    | err e ↦ err e
    | ok stored ↦
        if equal stored.task.session_id session_id then ok (stored, false) else err not_found
  ]
]

-- The test of `WaitTask` on what `task_for_context` gives; a negative `wait` is 0.
unfoldable pub wait_is_over : ℕ → ℕ → ℕ → Bool → Snapshot × Bool → Bool
unfolding terminal_execution_status
wait_is_over wait after_stdout after_stderr for_output (snapshot, waits) =
    leb wait 0
    || terminal_execution_status snapshot.task.status
    || (for_output
        && (ltb after_stdout (length snapshot.result.stdout)
            || ltb after_stderr (length snapshot.result.stderr)))
    || not waits

-- What ends a wait in the `select` of `WaitTask`.
pub data Wake : Type 0 where
  context_done deadline notified : Wake

-- `WaitTask`, over what its rounds read and how they end. The Boolean says that the time is over; `none` says
-- that it still waits.
pub wait_task :
    ℕ
    → ℕ
    → ℕ
    → Bool
    → List (Result TaskError (Snapshot × Bool) × Wake)
    → Option (Result TaskError (Snapshot × Bool))
unfolding wait_is_over
wait_task wait after_stdout after_stderr for_output [] = none
wait_task wait after_stdout after_stderr for_output ((err e, wake) ∷ rounds) = some (err e)
wait_task wait after_stdout after_stderr for_output ((ok read, wake) ∷ rounds) =
    let rest = wait_task wait after_stdout after_stderr for_output rounds in
    let ended : Option (Result TaskError (Snapshot × Bool)) = elim wake [
      | context_done ↦ some (err context_ended)
      | deadline ↦ some (ok (read.0, true))
      | notified ↦ rest
    ] in
    if wait_is_over wait after_stdout after_stderr for_output read
    then some (ok (read.0, false))
    else ended
