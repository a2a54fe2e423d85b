-- ===== src/ApprovalService/Execution.antt =====
-- How an execution is started, cancelled and finished (internal/service/approval_execution.go,
-- internal/service/execution_completion.go).
use eino_ops_agent_enterpr1s.Base.{
  ℕ, zero, suc, ◌+◌, ◌/◌, ◌%◌, Bool, true, false, Option, none, some, [], ◌∷◌, ◌++◌, Text, codes,
  is_empty, trim_space, ltb, ◌==◌, if◌then◌else◌, Result, ok, err,
}
use eino_ops_agent_enterpr1s.Approvals.{
  ℤ, pos, negsuc, Run, RunStatus, created, approval_required, running, completed, partial, failed,
  interrupted,
}
use eino_ops_agent_enterpr1s.Approvals.Store.{get_run, update_run}
use eino_ops_agent_enterpr1s.ApprovalService.{
  ServiceState, Fault, store_fault, shutting_down, context_canceled, Answer, with_error, member,
  delete,
}

-- `terminalExecutionStatus` on the statuses of a run.
abbrev pub is_terminal : RunStatus → Bool
is_terminal created = false
is_terminal approval_required = false
is_terminal running = false
is_terminal _ = true

-- The digits of a number, on fuel.
pub digits : ℕ → ℕ → Text → Text
digits zero n rest = rest
digits (suc fuel) n rest =
    let longer = digits fuel (n / 10) ((b'0' + n % 10) ∷ rest) in
    if ltb n 10 then (b'0' + n) ∷ rest else longer

-- `strconv.Itoa`.
pub itoa : ℤ → Text
unfolding digits
itoa (pos n) = digits (n + 1) n []
itoa (negsuc n) = b'-' ∷ digits (n + 2) (n + 1) []

abbrev pub is_zero : ℤ → Bool
is_zero (pos n) = n == 0
is_zero (negsuc n) = false

-- `sshx.RawResult`.
pub record RawResult : Type 0 where
  pub exit_code : ℤ
  pub stdout : Text
  pub stderr : Text

-- An execution error: its text, and whether it is a cancellation or a deadline, or the context is over.
pub record Failure : Type 0 where
  pub message : Text
  pub is_context : Bool

-- `errors.Join` with another error.
abbrev pub join_failure : Option Failure → Text → Bool → Option Failure
join_failure failure message context_over = elim failure [
  | none ↦ some (record { message = message; is_context = context_over })
  | some f ↦ some (record f { message = f.message ++ (b'\n' ∷ message) })
]

module _ (redact : Text → Text) (encrypt : Text → Result Text Text) where
  -- The text in the column, and the error with that of the cipher.
  abbrev pub encrypted : Text → Text → Bool → Option Failure → Text × Option Failure
  encrypted output label context_over failure = elim (encrypt output) [
    | ok cipher ↦ (cipher, failure)
    | err message ↦ ([], join_failure failure (label ++ message) context_over)
  ]

  abbrev pub status_of : RawResult → Option Failure → RunStatus
  status_of raw failure = elim failure [
    | some f ↦ if f.is_context then interrupted else failed
    | none ↦
        if is_zero raw.exit_code
        then completed
        else if is_empty (trim_space raw.stdout)
        then failed
        else partial
  ]

  -- The run that `finishExecution` stores.
  unfoldable pub finished_run : RawResult → Option Failure → Bool → Text → Run → Run
  unfolding itoa trim_space
  finished_run raw failure context_over now run =
      let (stdout_cipher, second) =
        encrypted raw.stdout (codes "encrypt execution stdout: ") context_over failure in
      let (stderr_cipher, last) =
        encrypted raw.stderr (codes "encrypt execution stderr: ") context_over second in
      record run {
        exit_code = raw.exit_code;
        stdout_redacted = redact raw.stdout;
        stderr_redacted = redact raw.stderr;
        stdout_cipher = stdout_cipher;
        stderr_cipher = stderr_cipher;
        completed_at = some now;
        status = status_of raw last;
        error = elim last [
          | some f ↦ redact f.message
          | none ↦
              if is_zero raw.exit_code
              then []
              else codes "remote command exited with code " ++ itoa raw.exit_code
        ];
      }

  -- `finishExecution`.
  unfoldable pub finish_execution :
      RawResult → Option Failure → Bool → Text → Run → ServiceState → ServiceState
  unfolding finished_run update_run
  finish_execution raw failure context_over now run s = record s {
    db = update_run (finished_run raw failure context_over now run) s.db;
  }

  -- `finishApprovedExecutionError`.
  unfoldable pub finish_approved_execution_error :
      Text → Failure → Text → ServiceState → ServiceState × Result Fault Answer
  unfolding finish_execution get_run
  finish_approved_execution_error run_id cause now s = elim (get_run run_id s.db) [
    | err e ↦ (s, err (store_fault e))
    | ok run ↦
        if is_terminal run.status
        then (s, ok (with_error run))
        else (let raw : RawResult = record { exit_code = negsuc 0; stdout = []; stderr = [] } in
            (
              finish_execution raw (some cause) cause.is_context now run s,
              ok (with_error (finished_run raw (some cause) cause.is_context now run)),
            ))
  ]

-- `startApprovedExecution`, up to the start of its goroutine.
unfoldable pub start_approved_execution : Text → ServiceState → ServiceState × Option Fault
start_approved_execution run_id s =
    if s.execution_closed
    then (s, some shutting_down)
    else if member run_id s.cancelled_executions
    then (
      record s { cancelled_executions = delete run_id s.cancelled_executions },
      some context_canceled,
    )
    else (record s { execution_cancels = run_id ∷ s.execution_cancels }, none)

-- The end of that goroutine.
unfoldable pub end_approved_execution : Text → ServiceState → ServiceState
end_approved_execution run_id s = record s {
  execution_cancels = delete run_id s.execution_cancels;
  cancelled_executions = delete run_id s.cancelled_executions;
}

-- `cancelApprovedExecution`, with whether the run has a cancellation to call.
unfoldable pub cancel_approved_execution : Text → ServiceState → ServiceState × Bool
cancel_approved_execution run_id s =
    if is_empty run_id
    then (s, false)
    else if member run_id s.execution_cancels
    then (s, true)
    else (record s { cancelled_executions = run_id ∷ s.cancelled_executions }, false)
