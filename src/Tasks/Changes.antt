-- ===== src/Tasks/Changes.antt =====
-- What a section of internal/service/tasks.go does to the state of a task.
use mathlib.Core.Path.{subst}
use eino_ops_agent_enterpr1s.Base.{
  ℕ, ◌+◌, ◌-◌, Bool, true, false, not, ◌&&◌, ◌||◌, Option, none, some, Text, Bytes, is_empty,
  length, leb, ◌==◌, ==_refl, if◌then◌else◌, ◌≡◌, ◌⊎◌, inl, inr, refl, arith, Bool-cases,
}
use eino_ops_agent_enterpr1s.Tasks.{
  checkpoint_interval, Status, running, approval_required, is_running, is_approval_required,
  terminal_execution_status, ExecResult, Snapshot, TaskState, Stream, TaskEvent, status_event,
  output_event, Change, task_snapshot, stream_of, add_output, append_task_output, run_started,
  run_output, await_approval, Failure, end_task, cancelled_task, approved_output, approved_running,
  StoredRun, settled_run,
}

-- What a subscriber makes of an event: an output must come right behind what it has.
abbrev pub follow : TaskEvent → Snapshot → Option Snapshot
follow (status_event w) before = some w
follow (output_event revision stream offset total content) before =
    if (revision == before.task.revision + 1)
      && (offset == length (stream_of stream before.result))
      && (total == offset + length content)
    then some (record before {
      task = record before.task { revision = revision };
      result = add_output stream content before.result;
    })
    else none

-- The task is not over; its revision goes up by one, its owner stays, its waiters are woken, the event tells
-- the whole change, and what is stored is the new snapshot. Only an output may be left for later.
abbrev pub IsNext : TaskState → Change → Type 0
IsNext before c =
    (c.state.task.revision ≡ before.task.revision + 1)
    × (c.state.task.id ≡ before.task.id)
    × (c.state.task.host_id ≡ before.task.host_id)
    × (c.state.task.started_at ≡ before.task.started_at)
    × (c.state.notify ≡ before.notify + 1)
    × (terminal_execution_status before.task.status ≡ false)
    × (follow c.event (task_snapshot before) ≡ some (task_snapshot c.state))
    × ((c.saved ≡ some (task_snapshot c.state))
        ⊎ ((c.saved ≡ none) × (terminal_execution_status c.state.task.status ≡ false)))

append_task_output-IsNext :
    (stream : Stream) (chunk : Bytes) (now : ℕ) (s : TaskState)
    → terminal_execution_status s.task.status ≡ false
    → IsNext s (append_task_output stream chunk now s)
unfolding append_task_output
append_task_output-IsNext stream chunk now s live =
    let offset = length (stream_of stream s.result) in
    (
      refl,
      refl,
      refl,
      refl,
      refl,
      live,
      rw (==_refl (s.task.revision + 1), ==_refl offset, ==_refl (offset + length chunk)) refl,
      elim (Bool-cases (leb checkpoint_interval (now - s.checkpoint))) [
        | inl due ↦ rw due (inl refl)
        | inr early ↦ rw early (inr (refl, live))
      ],
    )

-- Every change that a section makes is the next one.
abbrev pub Steps : TaskState → Option Change → Type 0
Steps s change = (c : Change) → change ≡ some c → IsNext s c

guarded :
    (s : TaskState) (b : Bool) (change : Change)
    → (b ≡ false → IsNext s change)
    → Steps s (if b then none else some change)
guarded s true change next c h = cc
guarded s false change next c h = subst (IsNext s) (some-injective h) (next refl)
  where
    some-injective : {x y : Change} → ◌≡◌ {A = Option Change} (some x) (some y) → x ≡ y
    some-injective e = cc

or-left : (a b : Bool) → (a || b) ≡ false → a ≡ false
or-left a b h = ground arith

pub run_started-Steps : (run_id : Text) (s : TaskState) → Steps s (run_started run_id s)
unfolding run_started
run_started-Steps run_id s =
    guarded s (terminal_execution_status s.task.status) _
      (λ live. (refl, refl, refl, refl, refl, live, refl, inl refl))

running-live :
    (status : Status) → is_running status ≡ true → terminal_execution_status status ≡ false
unfolding terminal_execution_status
running-live running h = refl
running-live _ h = cc

approval-live :
    (status : Status)
    → (not (is_running status) && not (is_approval_required status)) ≡ false
    → terminal_execution_status status ≡ false
unfolding terminal_execution_status
approval-live running h = refl
approval-live approval_required h = refl
approval-live _ h = cc

pub run_output-Steps :
    (stream : Stream) (chunk : Bytes) (now : ℕ) (s : TaskState)
    → Steps s (run_output stream chunk now s)
unfolding run_output
run_output-Steps stream chunk now s =
    guarded s (is_empty chunk || not (is_running s.task.status)) _ (λ live.
      append_task_output-IsNext stream chunk now s
        (running-live s.task.status (runs (is_empty chunk) (is_running s.task.status) live)))
  where
    runs : (a b : Bool) → (a || not b) ≡ false → b ≡ true
    runs a b h = ground arith

pub await_approval-Steps : (result : ExecResult) (s : TaskState) → Steps s (await_approval result s)
unfolding await_approval
await_approval-Steps result s =
    guarded s (terminal_execution_status s.task.status) _
      (λ live. (refl, refl, refl, refl, refl, live, refl, inl refl))

pub end_task-Steps :
    (result : ExecResult) (failure : Option Failure) (now : ℕ) (s : TaskState)
    → Steps s (end_task result failure now s)
unfolding end_task
end_task-Steps result failure now s =
    guarded s (terminal_execution_status s.task.status) _
      (λ live. (refl, refl, refl, refl, refl, live, refl, inl refl))

pub cancelled_task-Steps : (now : ℕ) (s : TaskState) → Steps s (cancelled_task now s)
unfolding cancelled_task
cancelled_task-Steps now s =
    guarded s (not (is_running s.task.status) && not (is_approval_required s.task.status)) _
      (λ live. (refl, refl, refl, refl, refl, (approval-live s.task.status live), refl, inl refl))

pub approved_output-Steps :
    (stream : Stream) (chunk : Bytes) (now : ℕ) (s : TaskState)
    → Steps s (approved_output stream chunk now s)
unfolding approved_output
approved_output-Steps stream chunk now s =
    guarded s (terminal_execution_status s.task.status || is_empty chunk) _ (λ live.
      append_task_output-IsNext stream chunk now s
        (or-left (terminal_execution_status s.task.status) (is_empty chunk) live))

pub approved_running-Steps : (s : TaskState) → Steps s (approved_running s)
unfolding approved_running
approved_running-Steps s =
    guarded s (terminal_execution_status s.task.status || is_running s.task.status) _ (λ live. (
      refl,
      refl,
      refl,
      refl,
      refl,
      (or-left (terminal_execution_status s.task.status) (is_running s.task.status) live),
      refl,
      inl refl,
    ))

pub settled_run-Steps :
    (run : StoredRun) (instruction : Text) (now : ℕ) (s : TaskState)
    → Steps s (settled_run run instruction now s)
unfolding settled_run
settled_run-Steps run instruction now s =
    guarded s (terminal_execution_status s.task.status) _
      (λ live. (refl, refl, refl, refl, refl, live, refl, inl refl))
