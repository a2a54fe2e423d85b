-- ===== src/Tasks.antt =====
-- The background tasks of internal/service/tasks.go. Here are the state of one task and the changes that the
-- sections under `taskMu` make to it; Service.antt has the tables of the service, Rows.antt the table of
-- internal/store/tasks.go. Times are numbers of nanoseconds. Of a result there are the fields that this code
-- reads or writes; a revision stays below 2^64. A waiters' channel is a number: closing it and making a new one adds 1.
pub mod Rows
pub mod Service
pub mod Projection
pub mod Waiting
pub mod Changes
pub mod Rising
pub mod Durable
pub mod Access
pub mod Subscribers
pub mod Snapshots
pub mod Feeds
pub mod Follow
pub mod Calls
pub mod Sections
pub mod Turns
pub mod Traces
pub mod Examples
use eino_ops_agent_enterpr1s.Base.{
  ℕ, ◌+◌, ◌-◌, ◌*◌, Bool, true, false, not, ◌&&◌, ◌||◌, Option, none, some, Text, Bytes, ◌++◌,
  equal, is_empty, length, leb, if◌then◌else◌,
}

-- The strings of a status; `unset` is the empty one.
pub data Status : Type 0 where
  unset running approval_required : Status
  completed partial failed interrupted rejected denied expired cancelled : Status
  other : Text → Status

-- `terminalExecutionStatus`.
pub terminal_execution_status : Status → Bool
terminal_execution_status completed = true
terminal_execution_status partial = true
terminal_execution_status failed = true
terminal_execution_status interrupted = true
terminal_execution_status rejected = true
terminal_execution_status denied = true
terminal_execution_status expired = true
terminal_execution_status cancelled = true
terminal_execution_status _ = false

abbrev pub is_running : Status → Bool
is_running running = true
is_running _ = false

abbrev pub is_approval_required : Status → Bool
is_approval_required approval_required = true
is_approval_required _ = false

abbrev pub is_unset : Status → Bool
is_unset unset = true
is_unset _ = false

abbrev pub is_rejected : Status → Bool
is_rejected rejected = true
is_rejected _ = false

pub record Task : Type 0 where
  pub id : Text
  pub run_id : Text
  pub session_id : Text
  pub host_id : Text
  pub status : Status
  pub revision : ℕ
  pub operator_instruction : Text
  pub started_at : ℕ
  pub ended_at : Option ℕ

-- `ExecResult`.
pub record ExecResult : Type 0 where
  pub run_id : Text
  pub status : Status
  pub approval_id : Text
  pub operator_instruction : Text
  pub stdout : Bytes
  pub stderr : Bytes
  pub completed_at : Option ℕ

-- `TaskSnapshot`.
pub record Snapshot : Type 0 where
  pub task : Task
  pub result : ExecResult
  pub error : Text

-- `taskState`; `notify` is the waiters' channel.
pub record TaskState : Type 0 where
  pub task : Task
  pub result : ExecResult
  pub error : Text
  pub approval_id : Text
  pub notify : ℕ
  pub checkpoint : ℕ

pub data Stream : Type 0 where
  stdout stderr : Stream

-- `TaskEvent`: of an output, the stream, the offset, the total and the content.
pub data TaskEvent : Type 0 where
  status_event : Snapshot → TaskEvent
  output_event : ℕ → Stream → ℕ → ℕ → Bytes → TaskEvent

-- What a section leaves: the state, the event to publish, and the snapshot to store, if there is one.
pub record Change : Type 0 where
  pub state : TaskState
  pub event : TaskEvent
  pub saved : Option Snapshot

-- `taskSnapshot`.
pub task_snapshot : TaskState → Snapshot
task_snapshot s = record { task = s.task; result = s.result; error = s.error }

-- `notifyTaskWaitersLocked`.
pub notify_task_waiters : TaskState → TaskState
notify_task_waiters s = record s { notify = s.notify + 1 }

-- The end of a section that changes the status: the waiters are woken, and the snapshot is stored and published.
pub reported : TaskState → Change
unfolding notify_task_waiters task_snapshot
reported before =
    let s = notify_task_waiters before in
    record { state = s; event = status_event (task_snapshot s); saved = some (task_snapshot s) }

abbrev pub next_revision : Task → Task
next_revision t = record t { revision = t.revision + 1 }

-- `taskOutputCheckpointInterval`, 500 ms.
abbrev pub checkpoint_interval : ℕ
checkpoint_interval = 500 * 1000000

abbrev pub stream_of : Stream → ExecResult → Bytes
stream_of stdout r = r.stdout
stream_of stderr r = r.stderr

abbrev pub add_output : Stream → Bytes → ExecResult → ExecResult
add_output stdout chunk r = record r { stdout = r.stdout ++ chunk }
add_output stderr chunk r = record r { stderr = r.stderr ++ chunk }

-- `appendTaskOutputLocked`; the clock is read once.
pub append_task_output : Stream → Bytes → ℕ → TaskState → Change
unfolding notify_task_waiters task_snapshot
append_task_output stream chunk now s =
    let offset = length (stream_of stream s.result) in
    let due = leb checkpoint_interval (now - s.checkpoint) in
    let after = notify_task_waiters (record s {
      result = add_output stream chunk s.result;
      task = next_revision s.task;
      checkpoint = if due then now else s.checkpoint;
    }) in
    record {
      state = after;
      event = output_event after.task.revision stream offset (offset + length chunk) chunk;
      saved = if due then some (task_snapshot after) else none;
    }

-- The observer `RunStarted` of `runTask`.
pub run_started : Text → TaskState → Option Change
unfolding terminal_execution_status reported
run_started run_id s =
    if terminal_execution_status s.task.status
    then none
    else some (
        reported (record s {
          task = next_revision (record s.task { run_id = run_id });
          result = record s.result { run_id = run_id };
        }))

-- The observer `Output` of `runTask`.
pub run_output : Stream → Bytes → ℕ → TaskState → Option Change
unfolding append_task_output
run_output stream chunk now s =
    if is_empty chunk || not (is_running s.task.status)
    then none
    else some (append_task_output stream chunk now s)

-- `runTask` where `submit` returned a result that waits for an approval.
pub await_approval : ExecResult → TaskState → Option Change
unfolding terminal_execution_status reported
await_approval result s =
    if terminal_execution_status s.task.status
    then none
    else some (
        reported (record s {
          result = result;
          task =
              next_revision (record s.task { run_id = result.run_id; status = approval_required });
          approval_id = result.approval_id;
        }))

-- An error of `submit`: its text, and whether it is a cancellation or a deadline.
pub record Failure : Type 0 where
  pub message : Text
  pub is_context : Bool

-- The status of a task whose submission has returned.
abbrev pub ended_status : Status → Option Failure → Status
ended_status status failure = elim failure [
  | none ↦ status
  | some f ↦ if is_unset status then (if f.is_context then interrupted else failed) else status
]

-- `runTask` where `submit` returned anything else.
pub end_task : ExecResult → Option Failure → ℕ → TaskState → Option Change
unfolding terminal_execution_status reported
end_task result failure now s =
    if terminal_execution_status s.task.status
    then none
    else (let status = ended_status result.status failure in
        some (
          reported (record s {
            result = record result { status = status };
            task =
                next_revision
                  (record s.task { run_id = result.run_id; ended_at = some now; status = status });
            error = elim failure [ none ↦ s.error | some f ↦ f.message ];
          })))

abbrev pub stopped_task : ℕ → TaskState → TaskState
stopped_task now s = record s {
  task = next_revision (record s.task { status = cancelled; ended_at = some now });
  result = record s.result { status = cancelled; completed_at = some now };
}

-- `cancelTask`, under the lock.
pub cancelled_task : ℕ → TaskState → Option Change
unfolding reported
cancelled_task now s =
    if not (is_running s.task.status) && not (is_approval_required s.task.status)
    then none
    else some (reported (stopped_task now s))

-- `updateApprovalTask` for an output.
pub approved_output : Stream → Bytes → ℕ → TaskState → Option Change
unfolding terminal_execution_status append_task_output
approved_output stream chunk now s =
    if terminal_execution_status s.task.status || is_empty chunk
    then none
    else some (append_task_output stream chunk now s)

-- `updateApprovalTask` for the status "running".
pub approved_running : TaskState → Option Change
unfolding terminal_execution_status reported
approved_running s =
    if terminal_execution_status s.task.status || is_running s.task.status
    then none
    else some (
        reported (record s {
          task = next_revision (record s.task { status = running });
          result = record s.result { status = running };
        }))

-- The run as the store has it: `execResultFromRun` gives its result, without the instruction.
pub record StoredRun : Type 0 where
  pub id : Text
  pub status : Status
  pub completed_at : Option ℕ
  pub result : ExecResult

-- `updateApprovalTask` after the approval and the run are read again.
pub settled_run : StoredRun → Text → ℕ → TaskState → Option Change
unfolding terminal_execution_status reported
settled_run run instruction now s =
    if terminal_execution_status s.task.status
    then none
    else (let ended : ℕ = elim run.completed_at [ none ↦ now | some time ↦ time ] in
        some (
          reported (record s {
            task = next_revision (record s.task {
              run_id = run.id;
              status = run.status;
              operator_instruction = instruction;
              ended_at =
                  if terminal_execution_status run.status then some ended else s.task.ended_at;
            });
            result = record run.result { operator_instruction = instruction };
          })))
