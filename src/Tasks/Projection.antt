-- ===== src/Tasks/Projection.antt =====
-- What the events and the end of an approved execution do to its task: `updateApprovalTask` (internal/service/tasks.go).
use eino_ops_agent_enterpr1s.Base.{
  ℕ, Bool, false, not, ◌&&◌, Option, none, some, [], Text, Bytes, equal, is_empty, if◌then◌else◌,
}
use eino_ops_agent_enterpr1s.Tasks.{
  Status, is_running, terminal_execution_status, TaskState, Stream, Change, approved_output,
  approved_running, StoredRun, settled_run,
}
use eino_ops_agent_enterpr1s.Tasks.Service.{TaskService, put, change_task}

-- `ExecutionEvent`, as far as `updateApprovalTask` reads it.
pub record ExecutionEvent : Type 0 where
  pub run_id : Text
  pub stream : Option Stream
  pub content : Bytes
  pub status : Status

abbrev pub for_run :
    Text
    → (Text → TaskService → TaskService × Option Change)
    → TaskService
    → TaskService × Option Change
for_run run_id section s = elim (s.approval_tasks run_id) [
  | none ↦ (s, none)
  | some id ↦ section id s
]

-- The first section of `updateApprovalTask`.
unfoldable pub project_event : ExecutionEvent → ℕ → TaskService → TaskService × Option Change
unfolding change_task approved_output approved_running
project_event event now s =
    let other : TaskService × Option Change =
      if is_running event.status
      then for_run event.run_id (λ id. change_task id approved_running) s
      else (s, none) in
    elim event.stream [
      | none ↦ other
      | some stream ↦
          if is_empty event.content
          then other
          else for_run event.run_id
              (λ id. change_task id (approved_output stream event.content now)) s
    ]

-- Whether `updateApprovalTask` goes on to read the run again.
pub reads_run : ExecutionEvent → TaskService → Bool
unfolding terminal_execution_status
reads_run event s =
    let output : Bool = elim event.stream [
      | none ↦ false
      | some stream ↦ not (is_empty event.content)
    ] in
    let live : Bool = elim (s.approval_tasks event.run_id) [
      | none ↦ false
      | some id ↦ elim (s.tasks id) [
        | none ↦ false
        | some state ↦ not (terminal_execution_status state.task.status)
      ]
    ] in
    live && not output && not (is_running event.status) && terminal_execution_status event.status

-- The run must still be registered for the task.
abbrev pub settle_task :
    Text → (TaskState → Option Change) → Text → TaskService → TaskService × Option Change
settle_task id change found s = if equal found id then change_task id change s else (s, none)

-- The second section of `updateApprovalTask`, for the task that the first one found, with the approval and the run that the store has; the
-- registration of the run is deleted when it is over.
unfoldable pub settle :
    Text → Text → Bool → Text → StoredRun → ℕ → TaskService → TaskService × Option Change
unfolding change_task settled_run terminal_execution_status
settle run_id id approval_rejected reason run now s =
    let instruction = if approval_rejected then reason else [] in
    let (next, change) = for_run run_id (settle_task id (settled_run run instruction now)) s in
    elim change [
      | none ↦ (s, none)
      | some c ↦ (
        if terminal_execution_status run.status
            then record next { approval_tasks = put run_id none next.approval_tasks }
            else next,
        some c,
      )
    ]
