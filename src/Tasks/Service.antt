-- ===== src/Tasks/Service.antt =====
-- The tables of tasks of the service, and its operations (internal/service/tasks.go). A section that `taskMu`
-- guards is one function; what a goroutine does with the store, the events and the approvals comes after it.
-- Ids are new, so that a state is known by the id of its task, and `s.tasks[id] == state` says that `id` has a state.
use eino_ops_agent_enterpr1s.Base.{
  ℕ, ◌+◌, Bool, true, false, not, ◌&&◌, Option, none, some, List, [], ◌∷◌, Text, codes, equal,
  is_empty, if◌then◌else◌, Result, ok, err,
}
use eino_ops_agent_enterpr1s.Tasks.{
  running, interrupted, is_approval_required, Task, ExecResult, TaskState, Change, task_snapshot,
  await_approval, Failure, end_task, cancelled_task,
}
use eino_ops_agent_enterpr1s.Tasks.Rows.{
  Row, TaskError, not_found, not_running, no_session, shutting_down, get_task, upsert_task,
}

-- `tasks`, by the id of the task, and `approvalTasks`, by the id of the run.
pub record TaskService : Type 0 where
  pub tasks : Text → Option TaskState
  pub approval_tasks : Text → Option Text
  pub execution_closed : Bool

abbrev pub put : {A : Type 0} → Text → Option A → (Text → Option A) → Text → Option A
put key value table k = if equal k key then value else table k

-- A section that changes the state of one task, or returns early.
unfoldable pub change_task :
    Text → (TaskState → Option Change) → TaskService → TaskService × Option Change
change_task id change s = elim (s.tasks id) [
  | none ↦ (s, none)
  | some state ↦ elim (change state) [
    | none ↦ (s, none)
    | some c ↦ (record s { tasks = put id (some c.state) s.tasks }, some c)
  ]
]

-- `delete(s.tasks, id)` after the last write.
unfoldable pub forget_task : Text → TaskService → TaskService
forget_task id s = record s { tasks = put id none s.tasks }

abbrev pub new_state : Text → Text → Text → ℕ → TaskState
new_state id session_id host_id now = record {
  task = record {
    id = id;
    run_id = [];
    session_id = session_id;
    host_id = host_id;
    status = running;
    revision = 1;
    operator_instruction = [];
    started_at = now;
    ended_at = none;
  };
  result = record {
    run_id = [];
    status = running;
    approval_id = [];
    operator_instruction = [];
    stdout = [];
    stderr = [];
    completed_at = none;
  };
  error = [];
  approval_id = [];
  notify = 0;
  checkpoint = now;
}

-- The first part of `StartTask`: the row is written, then the state is put in the table.
unfoldable pub open_task : Text → Text → Text → ℕ → TaskService → List Row → TaskService × List Row
unfolding upsert_task task_snapshot
open_task id session_id host_id now s rows =
    let state = new_state id session_id host_id now in
    (record s { tasks = put id (some state) s.tasks }, upsert_task (task_snapshot state) rows)

-- The second part, where the service is shutting down: the state is deleted and the row is closed.
unfoldable pub refuse_task :
    Text → Text → Text → ℕ → ℕ → TaskService → List Row → TaskService × List Row
unfolding upsert_task forget_task
refuse_task id session_id host_id started now s rows =
    let task = (new_state id session_id host_id started).task in
    (
      forget_task id s,
      upsert_task
          (record {
            task = record task {
              status = interrupted;
              ended_at = some now;
              revision = task.revision + 1;
            };
            result = record {
              run_id = [];
              status = interrupted;
              approval_id = [];
              operator_instruction = [];
              stdout = [];
              stderr = [];
              completed_at = some now;
            };
            error = codes "service is shutting down";
          })
          rows,
    )

-- `StartTask` without another section between its parts, with the task that it returns and runs.
unfoldable pub start_task :
    Text
    → Text
    → Text
    → Bool
    → ℕ
    → ℕ
    → TaskService
    → List Row
    → Result TaskError Task × (TaskService × List Row)
unfolding open_task refuse_task
start_task id session_id host_id from_agent started now s rows =
    if from_agent && is_empty session_id
    then (err no_session, (s, rows))
    else (let (next, written) = open_task id session_id host_id started s rows in
        if s.execution_closed
        then (err shutting_down, refuse_task id session_id host_id started now next written)
        else (ok (new_state id session_id host_id started).task, (next, written)))

-- The end of `runTask`: a result that waits for an approval is registered under its run.
unfoldable pub returned :
    Text → ExecResult → Option Failure → ℕ → TaskService → TaskService × Option Change
unfolding change_task await_approval end_task
returned id result failure now s =
    let waits : Bool = elim failure [
      | none ↦ is_approval_required result.status && not (is_empty result.approval_id)
      | some f ↦ false
    ] in
    if waits
    then (let (next, change) = change_task id (await_approval result) s in
        elim change [
          | none ↦ (s, none)
          | some c ↦ (
            record next { approval_tasks = put result.run_id (some id) next.approval_tasks },
            some c,
          )
        ])
    else change_task id (end_task result failure now) s

-- `requireTaskSession`, where the session is enforced.
abbrev pub same_session : Option Text → Task → Bool
same_session session task = elim session [ none ↦ true | some id ↦ equal task.session_id id ]

-- `cancelTask` up to the end of its first section. Without a state, the stored task decides on the error.
unfoldable pub cancel_task :
    Option Text → Text → ℕ → List Row → TaskService → Result TaskError (TaskService × Change)
unfolding get_task cancelled_task
cancel_task session id now rows s = elim (s.tasks id) [
  | none ↦ elim (get_task id rows) [
    | err e ↦ err e
    | ok stored ↦ if same_session session stored.task then err not_running else err not_found
  ]
  | some state ↦
      if not (same_session session state.task)
      then err not_found
      else elim (cancelled_task now state) [
        | none ↦ err not_running
        | some c ↦ ok (
          record s {
            tasks = put id (some c.state) s.tasks;
            approval_tasks = put state.task.run_id none s.approval_tasks;
          },
          c,
        )
      ]
]

-- `CancelTaskForContext`: an Agent must have a session.
pub cancel_task_for_context :
    Bool → Text → Text → ℕ → List Row → TaskService → Result TaskError (TaskService × Change)
unfolding cancel_task
cancel_task_for_context from_agent session_id id now rows s =
    if from_agent && is_empty session_id
    then err no_session
    else cancel_task (some session_id) id now rows s

-- What `cancelTask` does about the approval of a task, after its section: `Reject`, and
-- `cancelApprovedExecution`. `pending` says that the approval was read as pending, `refused` that `Reject` failed.
pub data Stop : Type 0 where
  reject_approval : Text → Stop
  cancel_execution : Text → Stop

pub stop_approval : Text → Text → Bool → Bool → List Stop
stop_approval approval_id run_id pending refused =
    if is_empty approval_id
    then []
    else if pending
    then reject_approval approval_id ∷ (if refused then cancel_execution run_id ∷ [] else [])
    else cancel_execution run_id ∷ []
