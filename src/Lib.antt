-- ===== src/Lib.antt =====
-- The core of the operations agent, an HTTP service in Go that lets an Agent run commands on hosts
-- under a user's approval: the state that decides what may run, and the text routines it relies on.
--
-- The parts, the files that model them, and the code they model (paths from the repository's root):
--   * Base and its children: the shared helpers. Texts are lists of code points, or of bytes where
--     the Go code works on bytes; `Result` is a Go function that returns a value and an error.
--   * Approvals: runs and approvals as internal/store keeps them. Approvals.antt has the rows and the
--     tables (internal/domain/types.go, internal/store/schema.go). Approvals/Store.antt has the
--     decisions: CreateRun, CreateApproval, ActivateAgentApprovals, DecideAgentApproval,
--     ClaimAgentApprovalRun, RejectPendingApprovalAndRun, ApprovePendingAndStartRun,
--     UpdatePendingApprovalExplanation, UpdateRunAIReview, UpdateRun and InterruptActiveRuns
--     (internal/store/approvals.go, internal/store/runs.go). Approvals/Sessions.antt has the lists,
--     AbortUnactivatedAgentApprovals and AbortAgentApprovalsForSession; Approvals/Deletions.antt has the
--     transactions that delete runs or approvals (internal/store/audit.go, hosts.go and chat_sessions.go
--     there). Approvals/Consistency and its children are about the invariant of the tables, Approvals/Calls, Approvals/Settled, Approvals/Once
--     and Approvals/Traces about sequences of calls.
--   * ApprovalService: what the service does with an approval (internal/service/approvals.go,
--     internal/service/approval_execution.go) and with the end of an execution
--     (internal/service/execution_completion.go), over the tables of Approvals. Execution has the start,
--     the cancellation and the end, Decisions the calls, Submission the submission of a run
--     (internal/service/execution.go) from the choice of its branch on. Explained and Steps say which calls of
--     the store a decision makes, Once is about sequences of calls, Completion about the stored run.
--   * Slots: the slots that an execution takes, one of the service and one of each of its hosts
--     (internal/service/execution_limits.go), by callers that run at the same time: Hosts is about the
--     order of the hosts, Moves and Counts about the channels, Top and Deadlock about callers that wait.
--   * ChatQueue: the queue of messages that wait for the Agent, per conversation
--     (internal/httpapi/chat_queue.go): Order is about the place of a message, Calls about sequences
--     of calls, Safety, Lifecycle and NoPanic about the invariant, Waits about a turn that waits for
--     an approval.
--   * FileEdit: the edit of one exact block of a text file (internal/fileedit/apply.go): Lines is
--     about the cutting of a file into lines, Matches about the search, Splice about the bytes that
--     are put together, Apply about the whole edit; and the contract of an edit with the diff that its
--     approval shows (internal/fileedit/contract.go): Contract with Validation and
--     Diffs.
--   * Plan: the work plan of a session (internal/plan/plan.go, internal/domain/plan.go): Titles,
--     Shape, Steps and Progress.
--   * TerminalText: the stripper of control sequences (internal/terminaltext/strip.go).
--   * Redaction: the stream redactor of internal/security/redact.go, which works line by line: Lines and
--     Chunks are about the lines of a stream and how they are cut into chunks. The regular expressions
--     are parameters.
--   * ShellOutput: the output of an interactive shell (internal/service/shell_output.go). Retention is
--     about what is held back of an output, since it may begin a secret, and Generation about the whole
--     handler; Events is about the parts of a long output, Recent about the recent output, Delivery
--     about the numbers of events and the subscribers.
--   * Tasks: background tasks (internal/service/tasks.go, internal/service/task_events.go,
--     internal/store/tasks.go). Tasks.antt has the state of a task and the changes made to it, Service
--     the tables and operations of the service, Projection its part that follows an approved execution,
--     Waiting its part that reads a task, Rows the stored rows. Changes says what one section
--     does, Calls, Sections, Turns and Traces are about sequences of calls; Follow is about the events
--     of a task, Rising and Durable about its row, Access about sessions; Subscribers has the subscribers, Snapshots
--     is about what they find, and Feeds about what they see.
--   * Tunnels: the life of an SSH tunnel (internal/sshtunnel/lifecycle.go, reconnect.go, manager.go,
--     runtime.go and forward.go there). Tunnels.antt has its state and transitions, Steps
--     its worker and its callers. Stages and Sections are about the stages of the worker, Lifecycle about
--     sequences of steps, Ranks and Endings about its end, Delays about the pauses between the attempts.
--   * Transfer: the progress of a file transfer (internal/transfer/progress.go).
--
-- The parts meet in the service: an Agent's tool call makes a run and its approval, a decision on the
-- approval starts or rejects the run; an approved file edit is validated and applied; messages that
-- arrive while the Agent works wait in the queue. The output of a command is redacted line by line, that
-- of a shell is redacted, numbered, delivered and stripped to plain text; a background task keeps it and
-- follows its approved run.
--
-- A transaction of the store is a function on the tables that returns the new tables or an error;
-- after an error the caller has the old tables. A section under a lock is one step; what a goroutine
-- does after it comes as a step or a write of its own. Most loops are structural recursion. Those on
-- fuel are: the cutting of a file into lines and of a stream into lines, and of an output into parts
-- (the length of the text; each round takes one byte at least); the shortening of the recent output
-- (the number of its runes; each round drops one at least); the next threshold of a transfer (the bytes
-- written and one; each round adds the step, which is not zero). A time is the text that `formatTime` writes in the tables, and a number in a plan.
--
-- Not modelled: the failures of the database engine and of the network, the encryption of requests,
-- the validation and the routing of a submitted request, the calls to model providers, SSH, the HTTP
-- interface and the web interface, the searches over runs, the input and the life cycle of shells, the
-- table of tunnels and their relays, workspaces and skills. Counters stay below the limits of their
-- machine integers. That identifiers of runs are not used twice is a hypothesis where it is needed.
pub mod ApprovalService
pub mod Approvals
pub mod Base
pub mod ChatQueue
pub mod FileEdit
pub mod Plan
pub mod Redaction
pub mod ShellOutput
pub mod Slots
pub mod Tasks
pub mod TerminalText
pub mod Transfer
pub mod Tunnels
