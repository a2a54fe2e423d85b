-- ===== src/Approvals.antt =====
-- Runs and approvals: the rows of internal/domain/types.go and the tables of
-- internal/store/schema.go. A table is the list of its rows in the order of insertion, a TEXT column
-- is a list of code points, and so is a time, as `formatTime` writes it. The database's own failures (I/O, locks) are
-- left out: a statement runs, or breaks one of the constraints that are written out here.
pub mod Store
pub mod Sessions
pub mod Pairs
pub mod Consistency
pub mod Deletions
pub mod Calls
pub mod Settled
pub mod Once
pub mod Traces
pub mod Examples
use eino_ops_agent_enterpr1s.Base.{
  ℕ, suc, Bool, true, false, List, [], ◌∷◌, ◌||◌, Option, none, some, Text, Bytes, equal,
  if◌then◌else◌, ◌≡◌, ◌⊎◌, inl, inr, refl, arith, Bool-cases,
}

-- The constants `ApprovalStatus…`; `other` is a string that the program never writes.
pub data ApprovalStatus : Type 0 where
  preparing pending approved rejected : ApprovalStatus
  other : Text → ApprovalStatus

pub data RunStatus : Type 0 where
  created approval_required running completed partial failed : RunStatus
  interrupted run_rejected denied expired cancelled : RunStatus

-- `exit_code`; `negsuc n` is -(n + 1).
pub data ℤ : Type 0 where
  pos : ℕ → ℤ
  negsuc : ℕ → ℤ

pub record Approval : Type 0 where
  pub id : Text
  pub run_id : Text
  pub host_id : Text
  pub request_json : Text
  pub request_cipher : Text
  pub request_digest : Text
  pub status : ApprovalStatus
  pub reason : Text
  pub continuation_kind : Text
  pub checkpoint_id : Text
  pub interrupt_id : Text
  pub created_at : Text
  pub decided_at : Option Text

pub record Run : Type 0 where
  pub id : Text
  pub session_id : Text
  pub host_id : Text
  pub tool_name : Text
  pub tool_arguments_json : Text
  pub request_json : Text
  pub request_cipher : Text
  pub search_text : Text
  pub request_digest : Text
  pub status : RunStatus
  pub exit_code : ℤ
  pub stdout_redacted : Text
  pub stderr_redacted : Text
  pub stdout_cipher : Text
  pub stderr_cipher : Text
  pub error : Text
  pub ai_review_json : Text
  pub started_at : Text
  pub completed_at : Option Text

-- The tables, and the sessions of the changes published on `ChangeApprovals`, the last one first.
pub record Db : Type 0 where
  pub approvals : List Approval
  pub runs : List Run
  pub checkpoints : List (Text × Bytes)
  pub hosts : List Text
  pub changes : List Text

-- The errors of internal/store/approvals.go, and a broken constraint.
pub data StoreError : Type 0 where
  constraint_failed : StoreError
  not_found : StoreError
  empty_group : StoreError
  invalid_decision : StoreError
  no_longer_resumable : Text → StoreError
  no_longer_pending : StoreError
  not_awaiting : StoreError
  not_claimable : StoreError
  changed_while_stopped : Text → StoreError

-- `ApprovalContinuationAgent`.
abbrev agent_kind : Text
agent_kind = b'a' ∷ (b'g' ∷ (b'e' ∷ (b'n' ∷ (b't' ∷ []))))

-- `continuation_kind='agent'`.
unfoldable pub is_agent : Approval → Bool
unfolding equal
is_agent a = equal a.continuation_kind agent_kind

abbrev pub is_preparing : ApprovalStatus → Bool
is_preparing preparing = true
is_preparing _ = false

abbrev pub is_pending : ApprovalStatus → Bool
is_pending pending = true
is_pending _ = false

abbrev pub is_approved : ApprovalStatus → Bool
is_approved approved = true
is_approved _ = false

abbrev pub is_rejected : ApprovalStatus → Bool
is_rejected rejected = true
is_rejected _ = false

abbrev pub is_awaiting : RunStatus → Bool
is_awaiting approval_required = true
is_awaiting _ = false

abbrev pub is_running : RunStatus → Bool
is_running running = true
is_running _ = false

-- `status IN ('created','running')`.
abbrev pub is_active : RunStatus → Bool
is_active created = true
is_active running = true
is_active _ = false

-- `UPDATE … SET change WHERE test`.
unfoldable pub update_where {ℓ} : {A : Type ℓ} → (A → Bool) → (A → A) → List A → List A
update_where test change [] = []
update_where test change (x ∷ xs) = (if test x then change x else x) ∷ update_where test change xs

-- `RowsAffected` of such an update.
unfoldable pub count_where {ℓ} : {A : Type ℓ} → (A → Bool) → List A → ℕ
count_where test [] = 0
count_where test (x ∷ xs) = let rest = count_where test xs in if test x then suc rest else rest

-- `EXISTS (SELECT 1 … WHERE test)`.
unfoldable pub exists_where {ℓ} : {A : Type ℓ} → (A → Bool) → List A → Bool
exists_where test [] = false
exists_where test (x ∷ xs) = test x || exists_where test xs

-- The first row that passes; by a primary key there is at most one.
unfoldable pub find_where {ℓ} : {A : Type ℓ} → (A → Bool) → List A → Option A
find_where test [] = none
find_where test (x ∷ xs) = let rest = find_where test xs in if test x then some x else rest

-- A change on `ChangeApprovals`, published for a session (empty: for all).
abbrev pub publish : Text → Db → Db
publish session_id db = record db { changes = session_id ∷ db.changes }
