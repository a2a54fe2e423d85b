-- ===== src/ApprovalService/Examples.antt =====
-- An operator's approval of one run, with a cipher that changes nothing.
use eino_ops_agent_enterpr1s.Base.{
  ℕ, ap, arith, ◌≤◌, false, Option, none, some, List, [], ◌∷◌, Text, equal, Result, ok, ◌≡◌, ◌≢◌,
  inr, refl,
}
use eino_ops_agent_enterpr1s.Approvals.{
  pending, approval_required, pos, Approval, Run, is_agent, find_where, count_where, update_where,
  exists_where,
}
use eino_ops_agent_enterpr1s.Approvals.Store.{get_run, get_approval}
use eino_ops_agent_enterpr1s.ApprovalService.{ServiceState, stored}
use eino_ops_agent_enterpr1s.ApprovalService.Execution.{RawResult, Failure, finish_execution}
use eino_ops_agent_enterpr1s.ApprovalService.Decisions.{reject}
use eino_ops_agent_enterpr1s.ApprovalService.Submission.{allowed}
use eino_ops_agent_enterpr1s.ApprovalService.Once.{
  Call, submitting, approving, approving_later, rejecting, finishing, executions,
  executions_at_most_once, reject-final, call_service,
}
use eino_ops_agent_enterpr1s.ApprovalService.Completion.{IsFinished, finish_execution-get_run}

abbrev same : Text → Option Text
same s = some s

abbrev fitting : Approval → Run → Option Failure
fitting a run = none

abbrev plain : Text → Text
plain s = s

abbrev as_it_is : Text → Result Text Text
as_it_is s = ok s

abbrev a_run : Run
a_run = record {
  id = b'r' ∷ [];
  session_id = b's' ∷ [];
  host_id = b'h' ∷ [];
  tool_name = [];
  tool_arguments_json = [];
  request_json = [];
  request_cipher = [];
  search_text = [];
  request_digest = b'q' ∷ [];
  status = approval_required;
  exit_code = pos 0;
  stdout_redacted = [];
  stderr_redacted = [];
  stdout_cipher = [];
  stderr_cipher = [];
  error = [];
  ai_review_json = [];
  started_at = b'1' ∷ [];
  completed_at = none;
}

abbrev approval : Approval
approval = record {
  id = b'a' ∷ [];
  run_id = b'r' ∷ [];
  host_id = b'h' ∷ [];
  request_json = [];
  request_cipher = b'q' ∷ [];
  request_digest = b'q' ∷ [];
  status = pending;
  reason = [];
  continuation_kind = [];
  checkpoint_id = [];
  interrupt_id = [];
  created_at = b'1' ∷ [];
  decided_at = none;
}

abbrev service : ServiceState
service = record {
  db = record {
    approvals = approval ∷ [];
    runs = a_run ∷ [];
    checkpoints = [];
    hosts = (b'h' ∷ []) ∷ [];
    changes = [];
  };
  execution_closed = false;
  execution_cancels = [];
  cancelled_executions = [];
  explanation_active = [];
}

abbrev output : RawResult
output = record { exit_code = pos 0; stdout = b'k' ∷ []; stderr = [] }

-- Another run is submitted, the run is approved twice, finished, and rejected.
abbrev calls : List Call
calls =
    submitting allowed (record a_run { id = b'x' ∷ [] }) (b'2' ∷ [])
    ∷ (approving_later (b'a' ∷ []) [] (b'2' ∷ [])
        ∷ (approving (b'a' ∷ []) [] (b'3' ∷ [])
            ∷ (finishing output none false (b'4' ∷ []) a_run
                ∷ (rejecting (b'a' ∷ []) [] (b'5' ∷ []) ∷ []))))

not_the_run : ◌≢◌ {A = Text} (b'x' ∷ []) (b'r' ∷ [])
not_the_run e = absurd (omega (arith, ap first e))
  where
    first : Text → ℕ
    first [] = 0
    first (c ∷ s) = c

executions_at_most_once_example :
    executions same same fitting plain as_it_is calls service (b'r' ∷ []) ≤ 1
executions_at_most_once_example =
    executions_at_most_once same same fitting plain as_it_is calls service (b'r' ∷ [])
      (tt, (tt, (tt, (tt, (tt, tt)))))
      (
        inr (tt, (tt, (tt, (tt, tt)))),
        (inr (tt, (tt, (tt, tt))), (inr (tt, (tt, tt)), (inr (tt, tt), (inr tt, tt)))),
      )

-- It is executed.
executions-calls : executions same same fitting plain as_it_is calls service (b'r' ∷ []) ≡ 1
unfolding call_service equal find_where update_where count_where exists_where is_agent
executions-calls = refl

reject-final_example :
    executions same same fitting plain as_it_is calls
      (reject same same (b'a' ∷ []) (b'n' ∷ []) (b'2' ∷ []) service).0
      (b'r' ∷ [])
    ≡ 0
unfolding reject equal get_approval is_agent find_where update_where count_where exists_where
reject-final_example =
    reject-final same same fitting plain as_it_is (b'a' ∷ []) (b'n' ∷ []) (b'2' ∷ []) service
      (approval, b's' ∷ []) (stored _ []) calls refl refl refl (tt, (tt, (tt, (tt, (tt, tt)))))
      (not_the_run, (tt, (tt, (tt, (tt, tt)))))

finish_execution-get_run_example :
    (new : Run) × (get_run
        (b'r' ∷ [])
        (finish_execution plain as_it_is output none false (b'4' ∷ []) a_run service).db
      ≡ ok new)
    × IsFinished plain as_it_is output none (b'4' ∷ []) a_run new
unfolding get_run equal find_where
finish_execution-get_run_example =
    finish_execution-get_run plain as_it_is output none false (b'4' ∷ []) a_run a_run service refl
