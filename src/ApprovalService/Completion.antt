-- ===== src/ApprovalService/Completion.antt =====
-- What the end of an execution leaves in the table of runs (internal/service/execution_completion.go).
use eino_ops_agent_enterpr1s.Base.{
  Bool, true, false, Option, none, some, Text, codes, equal, is_empty, trim_space, Result, ok, err,
  ok-injective, ◌≡◌, ◌⊎◌, inl, inr, refl, sym, ap, ◌∙◌, Bool-cases, Option-cases, Result-cases,
  ◌++◌,
}
use eino_ops_agent_enterpr1s.Approvals.{
  StoreError, not_found, Run, RunStatus, completed, find_where,
}
use eino_ops_agent_enterpr1s.Approvals.Store.{get_run, update_run}
use eino_ops_agent_enterpr1s.Approvals.Pairs.{find_where-update_where}
use eino_ops_agent_enterpr1s.ApprovalService.{ServiceState}
use eino_ops_agent_enterpr1s.ApprovalService.Execution.{
  is_terminal, is_zero, RawResult, Failure, join_failure, encrypted, status_of, finished_run,
  finish_execution,
}

abbrev pub is_completed : RunStatus → Bool
is_completed completed = true
is_completed _ = false

-- The columns that `UpdateRun` does not write.
abbrev pub SameRequest : Run → Run → Type 0
SameRequest old new =
    (new.id ≡ old.id)
    × (new.session_id ≡ old.session_id)
    × (new.host_id ≡ old.host_id)
    × (new.tool_name ≡ old.tool_name)
    × (new.tool_arguments_json ≡ old.tool_arguments_json)
    × (new.request_json ≡ old.request_json)
    × (new.request_cipher ≡ old.request_cipher)
    × (new.search_text ≡ old.search_text)
    × (new.request_digest ≡ old.request_digest)
    × (new.ai_review_json ≡ old.ai_review_json)
    × (new.started_at ≡ old.started_at)

module _ (redact : Text → Text) (encrypt : Text → Result Text Text) where
  -- The run as it is stored.
  abbrev pub IsFinished : RawResult → Option Failure → Text → Run → Run → Type 0
  IsFinished raw failure now old new =
      (is_terminal new.status ≡ true)
      × (new.stdout_redacted ≡ redact raw.stdout)
      × (new.stderr_redacted ≡ redact raw.stderr)
      × (new.completed_at ≡ some now)
      × (new.exit_code ≡ raw.exit_code)
      × SameRequest old new
      × ((failure ≡ none) × (is_zero raw.exit_code ≡ true) ⊎ (is_completed new.status ≡ false))

  terminal_status :
      (raw : RawResult) (failure : Option Failure)
      → is_terminal (status_of redact encrypt raw failure) ≡ true
  terminal_status raw (some f) = elim (Bool-cases f.is_context) [
    | inl over ↦ rw over
    | inr other ↦ rw other
  ]
  terminal_status raw none = elim (Bool-cases (is_zero raw.exit_code)) [
    | inl zero_code ↦ rw zero_code
    | inr code ↦ elim (Bool-cases (is_empty (trim_space raw.stdout))) [
      | inl nothing ↦ rw (code, nothing)
      | inr output ↦ rw (code, output)
    ]
  ]

  encrypted-none :
      (output label : Text) (over : Bool) (failure : Option Failure)
      → (encrypted redact encrypt output label over failure).1 ≡ none
      → failure ≡ none
  encrypted-none output label over failure h = elim (Result-cases (encrypt output)) [
    | inl (cipher, fine) ↦ sym (rw (encrypted, fine) refl) ∙ h
    | inr (message, failed) ↦
        absurd (joined failure message (sym (rw (encrypted, failed) refl) ∙ h))
  ]
    where
      joined :
          (f : Option Failure) (message : Text) → join_failure f (label ++ message) over ≡ none → ⊥
      joined none message e = cc
      joined (some f) message e = cc

  completed_status :
      (raw : RawResult) (failure last : Option Failure)
      → ((last ≡ none) → failure ≡ none)
      → ((failure ≡ none) × (is_zero raw.exit_code ≡ true))
        ⊎ (is_completed (status_of redact encrypt raw last) ≡ false)
  completed_status raw failure (some f) h =
      inr (elim (Bool-cases f.is_context) [ inl over ↦ rw over | inr other ↦ rw other ])
  completed_status raw failure none h = elim (Bool-cases (is_zero raw.exit_code)) [
    | inl zero_code ↦ inl (h refl, zero_code)
    | inr code ↦ inr (elim (Bool-cases (is_empty (trim_space raw.stdout))) [
      | inl nothing ↦ rw (code, nothing)
      | inr output ↦ rw (code, output)
    ])
  ]

  -- A run that is in the table and whose execution ends is read back with a terminal status, the redacted
  -- outputs, the exit code and the time; its ids, tool, arguments, request, digest, review and start are as they
  -- were; it is completed only if the execution had no error and the exit code is 0.
  pub finish_execution-get_run :
      (raw : RawResult) (failure : Option Failure) (over : Bool) (now : Text) (run old : Run)
      (s : ServiceState)
      → get_run run.id s.db ≡ ok old
      → (new : Run) × (get_run run.id
            (finish_execution redact encrypt raw failure over now run s).db
          ≡ ok new)
        × IsFinished raw failure now old new
  unfolding finish_execution get_run update_run finished_run
  finish_execution-get_run raw failure over now run old s read =
      let given = finished_run redact encrypt raw failure over now run in
      let second =
        (encrypted redact encrypt raw.stdout (codes "encrypt execution stdout: ") over failure).1 in
      let last =
        (encrypted redact encrypt raw.stderr (codes "encrypt execution stderr: ") over second).1 in
      let found =
        find_where-update_where (λ (r : Run). equal r.id run.id) (written given) s.db.runs
          (λ y. refl) (there read) in
      (
        written given old,
        rw (get_run, found) refl,
        (
          terminal_status raw last,
          refl,
          refl,
          refl,
          refl,
          (refl, refl, refl, refl, refl, refl, refl, refl, refl, refl, refl),
          completed_status raw failure last (λ h.
              encrypted-none raw.stdout (codes "encrypt execution stdout: ") over failure
                (encrypted-none raw.stderr (codes "encrypt execution stderr: ") over second h)),
        ),
      )
    where
      written : Run → Run → Run
      written given r = record r {
        status = given.status;
        exit_code = given.exit_code;
        stdout_redacted = given.stdout_redacted;
        stderr_redacted = given.stderr_redacted;
        stdout_cipher = given.stdout_cipher;
        stderr_cipher = given.stderr_cipher;
        error = given.error;
        completed_at = given.completed_at;
      }

      no_run : ◌≡◌ {A = Result StoreError Run} (err not_found) (ok old) → ⊥
      no_run e = cc

      there :
          get_run run.id s.db ≡ ok old
          → find_where (λ (r : Run). equal r.id run.id) s.db.runs ≡ some old
      there h = elim (Option-cases (find_where (λ (r : Run). equal r.id run.id) s.db.runs)) [
        | inl missing ↦ absurd (no_run (sym (rw (get_run, missing) refl) ∙ h))
        | inr (r, here) ↦ here ∙ ap some (ok-injective (sym (rw (get_run, here) refl) ∙ h))
      ]
