-- ===== src/Tasks/Rows.antt =====
-- The table `tasks` of internal/store/tasks.go: a list of rows in the order of insertion. A result stands in
-- its row as it is, where the Go code writes it as JSON; the row of the host is taken to be there.
use eino_ops_agent_enterpr1s.Base.{
  ℕ, ◌+◌, Bool, ◌||◌, Option, none, some, List, [], ◌∷◌, map, Text, codes, equal, is_empty, leb,
  if◌then◌else◌, Result, ok, err,
}
use eino_ops_agent_enterpr1s.Tasks.{
  Status, interrupted, is_running, is_approval_required, ExecResult, Snapshot,
}

pub record Row : Type 0 where
  pub id : Text
  pub run_id : Text
  pub session_id : Text
  pub host_id : Text
  pub status : Status
  pub revision : ℕ
  pub result : ExecResult
  pub error : Text
  pub started_at : ℕ
  pub ended_at : Option ℕ

-- The values that `UpsertTask` inserts.
unfoldable pub row_of : Snapshot → Row
row_of w = record {
  id = w.task.id;
  run_id = w.task.run_id;
  session_id = w.task.session_id;
  host_id = w.task.host_id;
  status = w.task.status;
  revision = w.task.revision;
  result = w.result;
  error = w.error;
  started_at = w.task.started_at;
  ended_at = w.task.ended_at;
}

-- `ON CONFLICT(id) DO UPDATE … WHERE excluded.revision >= tasks.revision`.
unfoldable pub on_conflict : Snapshot → Row → Row
on_conflict w r =
    if leb r.revision w.task.revision
    then record r {
      run_id = w.task.run_id;
      session_id = w.task.session_id;
      status = w.task.status;
      revision = w.task.revision;
      result = w.result;
      error = w.error;
      ended_at = w.task.ended_at;
    }
    else r

-- `UpsertTask`.
unfoldable pub upsert_task : Snapshot → List Row → List Row
unfolding row_of on_conflict
upsert_task w [] = row_of w ∷ []
upsert_task w (r ∷ rows) =
    if equal r.id w.task.id then on_conflict w r ∷ rows else r ∷ upsert_task w rows

pub data TaskError : Type 0 where
  not_found not_running no_session shutting_down context_ended : TaskError

unfoldable pub find_row : Text → List Row → Option Row
find_row id [] = none
find_row id (r ∷ rows) = if equal r.id id then some r else find_row id rows

-- What `GetTask` reads from a row. The operator's instruction has no column.
unfoldable pub snapshot_of : Row → Snapshot
snapshot_of r = record {
  task = record {
    id = r.id;
    run_id = r.run_id;
    session_id = r.session_id;
    host_id = r.host_id;
    status = r.status;
    revision = r.revision;
    operator_instruction = [];
    started_at = r.started_at;
    ended_at = r.ended_at;
  };
  result = r.result;
  error = r.error;
}

-- `GetTask` of the store.
unfoldable pub get_task : Text → List Row → Result TaskError Snapshot
unfolding find_row snapshot_of
get_task id rows = elim (find_row id rows) [ none ↦ err not_found | some r ↦ ok (snapshot_of r) ]

abbrev pub is_active : Row → Bool
is_active r = is_running r.status || is_approval_required r.status

abbrev pub interrupt_row : ℕ → Row → Row
interrupt_row now r =
    if is_active r
    then record r {
      status = interrupted;
      revision = r.revision + 1;
      error =
          if is_empty r.error
          then codes "control plane restarted before the task completed"
          else r.error;
      ended_at = some now;
    }
    else r

-- `InterruptActiveTasks`.
pub interrupt_active_tasks : ℕ → List Row → List Row
interrupt_active_tasks now rows = map (interrupt_row now) rows
