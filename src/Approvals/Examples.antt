-- ===== src/Approvals/Examples.antt =====
-- A database with one host, one run that awaits, and its pending Agent approval.
use mathlib.Core.Path.{subst, sym}
use eino_ops_agent_enterpr1s.Base.{
  ◌≤◌, List, [], ◌∷◌, ◌≡◌, inl, inr, refl, Text, none, some, equal, map,
}
use eino_ops_agent_enterpr1s.Approvals.{
  ApprovalStatus, preparing, pending, approved, rejected, approval_required, run_rejected,
  completed, pos, Approval, Run, Db, is_agent, update_where, count_where, exists_where,
}
use eino_ops_agent_enterpr1s.Approvals.Store.{reject_pending_approval_and_run}
use eino_ops_agent_enterpr1s.Approvals.Calls.{
  Op, activating, claiming, deciding, rejecting, interrupting, writing, perform, count_starts,
}
use eino_ops_agent_enterpr1s.Approvals.Consistency.{Fits}
use eino_ops_agent_enterpr1s.Approvals.Consistency.Updates.{
  insert_run-IsConsistent, insert_approval-IsConsistent,
}
use eino_ops_agent_enterpr1s.Approvals.Consistency.Decisions.{IsDb}
use eino_ops_agent_enterpr1s.Approvals.Consistency.Groups.{no_rows-IsConsistent}
use eino_ops_agent_enterpr1s.Approvals.Traces.{perform_next, perform_all, perform_all-IsConsistent}
use eino_ops_agent_enterpr1s.Approvals.Once.{at_most_once, rejection_is_final}

abbrev run_key : Text
run_key = b'r' ∷ []

abbrev approval_key : Text
approval_key = b'a' ∷ []

abbrev a_run : Run
a_run = record {
  id = run_key;
  session_id = b's' ∷ [];
  host_id = b'h' ∷ [];
  tool_name = [];
  tool_arguments_json = [];
  request_json = [];
  request_cipher = [];
  search_text = [];
  request_digest = [];
  status = approval_required;
  exit_code = pos 0;
  stdout_redacted = [];
  stderr_redacted = [];
  stdout_cipher = [];
  stderr_cipher = [];
  error = [];
  ai_review_json = [];
  started_at = b'1' ∷ [];
  completed_at = none;
}

abbrev with_status : ApprovalStatus → Text → Approval
with_status status interrupt_id = record {
  id = approval_key;
  run_id = run_key;
  host_id = b'h' ∷ [];
  request_json = [];
  request_cipher = [];
  request_digest = [];
  status = status;
  reason = [];
  continuation_kind = b'a' ∷ (b'g' ∷ (b'e' ∷ (b'n' ∷ (b't' ∷ []))));
  checkpoint_id = b'c' ∷ [];
  interrupt_id = interrupt_id;
  created_at = b'1' ∷ [];
  decided_at = none;
}

abbrev tables : ApprovalStatus → Db
tables status = record {
  approvals = with_status status (b'i' ∷ []) ∷ [];
  runs = a_run ∷ [];
  checkpoints = [];
  hosts = (b'h' ∷ []) ∷ [];
  changes = [];
}

tables-IsDb : (status : ApprovalStatus) → Fits status approval_required → IsDb (tables status)
unfolding exists_where equal
tables-IsDb status fits =
    insert_approval-IsConsistent (insert_run-IsConsistent no_rows-IsConsistent a_run refl)
      (with_status status (b'i' ∷ [])) refl refl
      (λ r ir e. elim ir [
        | inl same ↦ subst (λ (x : Run). Fits status x.status) (sym same) fits
        | inr nowhere ↦ absurd nowhere
      ])

abbrev calls : List Op
calls =
    deciding approval_key approved [] (b'2' ∷ [])
    ∷ (claiming approval_key run_key
        ∷ (claiming approval_key run_key ∷ (writing (record a_run { status = completed }) ∷ [])))

calls_start_once : count_starts run_key calls (tables pending) ≡ 1
unfolding count_starts count_where equal exists_where update_where is_agent
calls_start_once = refl

at_most_once_example : count_starts run_key calls (tables pending) ≤ 1
at_most_once_example =
    at_most_once run_key calls (tables pending) (tt, (tt, (tt, (refl, tt))))
      (inr (tt, (tt, (tt, tt))), (inr (tt, (tt, tt)), (inr (tt, tt), (inr tt, tt))))

abbrev after_rejection : Db
after_rejection = record (tables pending) {
  approvals =
      record (with_status rejected (b'i' ∷ [])) {
        reason = b'n' ∷ [];
        decided_at = some (b'2' ∷ []);
      }
      ∷ [];
  runs =
      record a_run { status = run_rejected; error = b'n' ∷ []; completed_at = some (b'2' ∷ []) }
      ∷ [];
  changes = [] ∷ [];
}

rejection_is_final_example : count_starts run_key calls after_rejection ≡ 0
unfolding reject_pending_approval_and_run count_where equal update_where
rejection_is_final_example =
    rejection_is_final approval_key run_key (b'n' ∷ []) (b'2' ∷ []) (tables pending) after_rejection
      calls refl (tt, (tt, (tt, (refl, tt)))) (tt, (tt, (tt, (tt, tt))))

-- The approval is decided, the run is started and ends; a second decision fails.
abbrev lifetime : List Op
lifetime =
    activating (b'c' ∷ []) ((approval_key, b'i' ∷ []) ∷ [])
    ∷ (deciding approval_key approved [] (b'2' ∷ [])
        ∷ (claiming approval_key run_key
            ∷ (writing (record a_run { status = completed })
                ∷ (rejecting approval_key run_key [] (b'3' ∷ [])
                    ∷ (interrupting [] (b'4' ∷ []) ∷ [])))))

preparing-IsDb : IsDb (tables preparing)
preparing-IsDb = tables-IsDb preparing ((λ e. cc), (λ e. refl))

lifetime_status :
    map (λ (a : Approval). a.status) (perform_all lifetime (tables preparing)).approvals
    ≡ approved ∷ []
unfolding perform_all perform_next perform count_where equal exists_where update_where is_agent
lifetime_status = refl

perform_all-IsConsistent_example : IsDb (perform_all lifetime (tables preparing))
perform_all-IsConsistent_example =
    perform_all-IsConsistent lifetime (tables preparing) preparing-IsDb
      (tt, (tt, (tt, ((refl, refl), (tt, (tt, tt))))))
