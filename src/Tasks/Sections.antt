-- ===== src/Tasks/Sections.antt =====
-- What a section of internal/service/tasks.go does to the table of states.
use eino_ops_agent_enterpr1s.Base.{
  ℕ, Bool, true, false, not, ◌&&◌, Option, none, some, List, [], Text, equal, is_empty,
  if◌then◌else◌, ◌≡◌, ◌⊎◌, inl, inr, refl, ◌∙◌, Bool-cases, Option-cases, Result-cases,
}
use eino_ops_agent_enterpr1s.Tasks.{
  is_running, is_approval_required, terminal_execution_status, ExecResult, TaskState, Stream,
  Change, run_started, run_output, await_approval, Failure, end_task, cancelled_task,
  approved_output, approved_running, StoredRun, settled_run,
}
use eino_ops_agent_enterpr1s.Tasks.Rows.{Row, get_task}
use eino_ops_agent_enterpr1s.Tasks.Service.{
  TaskService, put, same_session, change_task, returned, cancel_task,
}
use eino_ops_agent_enterpr1s.Tasks.Projection.{
  ExecutionEvent, for_run, project_event, settle, settle_task,
}
use eino_ops_agent_enterpr1s.Tasks.Changes.{
  IsNext, Steps, run_started-Steps, run_output-Steps, await_approval-Steps, end_task-Steps,
  cancelled_task-Steps, approved_output-Steps, approved_running-Steps, settled_run-Steps,
}
use eino_ops_agent_enterpr1s.Tasks.Calls.{
  Call, opening, starting, printing, returning, cancelling, forgetting, projecting, settling,
  cancelled_outcome, perform,
}

-- What a section does: nothing, or the next change of one task, and to the other tasks nothing.
abbrev pub Touches : TaskService → TaskService × Option Change → Type 0
Touches s after =
    ((after.0.tasks ≡ s.tasks) × (after.1 ≡ none))
    ⊎ ((key : Text) × (before : TaskState) × (c : Change) × (s.tasks key ≡ some before)
        × (after.0.tasks ≡ put key (some c.state) s.tasks)
        × (after.1 ≡ some c)
        × IsNext before c)

change_task-Touches :
    (id : Text) (change : TaskState → Option Change) (s : TaskService)
    → ((state : TaskState) → Steps state (change state))
    → Touches s (change_task id change s)
unfolding change_task
change_task-Touches id change s steps = elim (Option-cases (s.tasks id)) [
  | inl missing ↦ rw (change_task, missing) (inl (refl, refl))
  | inr (state, found) ↦ elim (Option-cases (change state)) [
    | inl nothing ↦ rw (change_task, found, nothing) (inl (refl, refl))
    | inr (c, made) ↦
        rw (change_task, found, made) (inr (id, state, c, found, refl, refl, steps state c made))
  ]
]

for_run-Touches :
    (run_id : Text) (section : Text → TaskService → TaskService × Option Change) (s : TaskService)
    → ((id : Text) → Touches s (section id s))
    → Touches s (for_run run_id section s)
for_run-Touches run_id section s touches = elim (Option-cases (s.approval_tasks run_id)) [
  | inl missing ↦ rw (for_run, missing) (inl (refl, refl))
  | inr (id, found) ↦ rw (for_run, found) (touches id)
]

either-Touches :
    (s : TaskService) (test : Bool) (first second : TaskService × Option Change)
    → Touches s first
    → Touches s second
    → Touches s (if test then first else second)
either-Touches s true first second one two = one
either-Touches s false first second one two = two

-- What follows a section and leaves the states alone.
then-Touches :
    (s : TaskService) (after : TaskService × Option Change)
    (more : Change → TaskService → TaskService)
    → ((c : Change) (next : TaskService) → (more c next).tasks ≡ next.tasks)
    → Touches s after
    → Touches s (elim after.1 [ none ↦ (s, none) | some c ↦ (more c after.0, some c) ])
then-Touches s after more same (inl (kept, nothing)) = rw nothing (inl (refl, refl))
then-Touches s after more same (inr (key, before, c, found, placed, made, next)) =
    rw made (inr (key, before, c, found, same c after.0 ∙ placed, refl, next))

returned-Touches :
    (id : Text) (result : ExecResult) (failure : Option Failure) (now : ℕ) (s : TaskService)
    → Touches s (returned id result failure now s)
unfolding returned
returned-Touches id result failure now s =
    either-Touches s (waits failure) _ _
      (then-Touches s (change_task id (await_approval result) s)
        (λ c next. record next { approval_tasks = put result.run_id (some id) next.approval_tasks })
        (λ c next. refl)
        (change_task-Touches id (await_approval result) s (await_approval-Steps result)))
      (change_task-Touches id (end_task result failure now) s (end_task-Steps result failure now))
  where
    waits : Option Failure → Bool
    waits none = is_approval_required result.status && not (is_empty result.approval_id)
    waits (some f) = false

cancel_task-Touches :
    (session : Option Text) (id : Text) (now : ℕ) (rows : List Row) (s : TaskService)
    → Touches s (cancelled_outcome s (cancel_task session id now rows s))
unfolding cancel_task
cancel_task-Touches session id now rows s = elim (Option-cases (s.tasks id)) [
  | inl missing ↦ elim (Result-cases (get_task id rows)) [
    | inr (e, failed) ↦ rw (cancel_task, missing, failed) (inl (refl, refl))
    | inl (stored, read) ↦ elim (Bool-cases (same_session session stored.task)) [
      | inl own ↦ rw (cancel_task, missing, read, own) (inl (refl, refl))
      | inr foreign ↦ rw (cancel_task, missing, read, foreign) (inl (refl, refl))
    ]
  ]
  | inr (state, found) ↦ elim (Bool-cases (same_session session state.task)) [
    | inr foreign ↦ rw (cancel_task, found, foreign) (inl (refl, refl))
    | inl own ↦ elim (Option-cases (cancelled_task now state)) [
      | inl over ↦ rw (cancel_task, found, own, over) (inl (refl, refl))
      | inr (c, made) ↦
          rw (cancel_task, found, own, made)
            (inr (id, state, c, found, refl, refl, cancelled_task-Steps now state c made))
    ]
  ]
]

project_event-Touches :
    (event : ExecutionEvent) (now : ℕ) (s : TaskService) → Touches s (project_event event now s)
unfolding project_event
project_event-Touches event now s = by_stream event.stream refl
  where
    other : Touches s (
        if is_running event.status
        then for_run event.run_id (λ id. change_task id approved_running) s
        else (s, none))
    other =
        either-Touches s (is_running event.status) _ _
          (for_run-Touches event.run_id (λ id. change_task id approved_running) s
            (λ id. change_task-Touches id approved_running s approved_running-Steps))
          (inl (refl, refl))

    by_stream :
        (stream : Option Stream) → event.stream ≡ stream → Touches s (project_event event now s)
    by_stream none e = rw (project_event, e) other
    by_stream (some stream) e =
        rw (project_event, e)
          (either-Touches s (is_empty event.content) _ _ other (
            for_run-Touches event.run_id
              (λ id. change_task id (approved_output stream event.content now)) s
              (λ id.
                change_task-Touches id (approved_output stream event.content now) s
                  (approved_output-Steps stream event.content now))))

settle-Touches :
    (run_id id : Text) (rejected : Bool) (reason : Text) (run : StoredRun) (now : ℕ)
    (s : TaskService)
    → Touches s (settle run_id id rejected reason run now s)
unfolding settle
settle-Touches run_id id rejected reason run now s =
    let instruction = if rejected then reason else [] in
    let change = settled_run run instruction now in
    then-Touches s (for_run run_id (settle_task id change) s)
      (λ c next.
        if terminal_execution_status run.status
        then record next { approval_tasks = put run_id none next.approval_tasks }
        else next)
      (λ c next. elim (Bool-cases (terminal_execution_status run.status)) [
        | inl over ↦ rw over
        | inr live ↦ rw live
      ])
      (for_run-Touches run_id (settle_task id change) s (λ found.
        either-Touches s (equal found id) _ _
          (change_task-Touches id change s (settled_run-Steps run instruction now))
          (inl (refl, refl))))

abbrev pub IsTableCall : Call → Type 0
IsTableCall (opening id session_id host_id now) = Unit
IsTableCall (forgetting id) = Unit
IsTableCall _ = ⊥

-- The calls but for a start and the deletion of a state.
pub section-Touches :
    (call : Call) (s : TaskService) → Touches s (perform call s) ⊎ IsTableCall call
unfolding perform
section-Touches (opening id session_id host_id now) s = inr tt
section-Touches (forgetting id) s = inr tt
section-Touches (starting id run_id) s =
    inl (change_task-Touches id (run_started run_id) s (run_started-Steps run_id))
section-Touches (printing id stream chunk now) s =
    inl (change_task-Touches id (run_output stream chunk now) s (run_output-Steps stream chunk now))
section-Touches (returning id result failure now) s = inl (returned-Touches id result failure now s)
section-Touches (cancelling session id now rows) s = inl (cancel_task-Touches session id now rows s)
section-Touches (projecting event now) s = inl (project_event-Touches event now s)
section-Touches (settling run_id id rejected reason run now) s =
    inl (settle-Touches run_id id rejected reason run now s)
