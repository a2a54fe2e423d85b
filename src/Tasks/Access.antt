-- ===== src/Tasks/Access.antt =====
-- Who reads and stops a task (internal/service/tasks.go).
use mathlib.Core.Path.{subst}
use eino_ops_agent_enterpr1s.Base.{
  ℕ, Bool, true, false, not, ◌&&◌, ◌||◌, none, some, List, Text, equal, equal_iff, ok, err, ◌≡◌,
  ◌≢◌, ◌⊎◌, inl, inr, refl, sym, ap, ◌∙◌, Bool-cases, arith,
}
use eino_ops_agent_enterpr1s.Tasks.{
  Status, cancelled, is_running, is_approval_required, Snapshot, TaskState, Change, task_snapshot,
  reported, stopped_task, cancelled_task,
}
use eino_ops_agent_enterpr1s.Tasks.Rows.{Row, not_found, not_running, get_task}
use eino_ops_agent_enterpr1s.Tasks.Turns.{put-same}
use eino_ops_agent_enterpr1s.Tasks.Service.{put, TaskService, cancel_task}
use eino_ops_agent_enterpr1s.Tasks.Waiting.{task_for_context}

-- The task as the service knows it: its state, or else the stored snapshot.
abbrev pub IsKnown : Text → List Row → TaskService → Snapshot → Type 0
IsKnown id rows s w =
    ((state : TaskState) × (s.tasks id ≡ some state) × (task_snapshot state ≡ w))
    ⊎ ((s.tasks id ≡ none) × (get_task id rows ≡ ok w))

-- A task that is known is read by its own session, and to every other session it is not found.
pub task_for_context-IsKnown :
    (session_id id : Text) (rows : List Row) (s : TaskService) (w : Snapshot)
    → IsKnown id rows s w
    → let read = task_for_context session_id id rows s in
      ((w.task.session_id ≡ session_id) × ((waits : Bool) × (read ≡ ok (w, waits))))
      ⊎ ((w.task.session_id ≢ session_id) × (read ≡ err not_found))
unfolding task_for_context
task_for_context-IsKnown session_id id rows s w known =
    elim (Bool-cases (equal w.task.session_id session_id)) [
      | inl own ↦ inl (
        (equal_iff w.task.session_id session_id).0 own,
        elim known [
          | inl (state, found, same) ↦ (
            true,
            rw (
              task_for_context,
              found,
              ap (λ (v : Snapshot). equal v.task.session_id session_id) same ∙ own,
              same,
            ),
          )
          | inr (gone, stored) ↦ (false, rw (task_for_context, gone, stored, own))
        ],
      )
      | inr foreign ↦ inr (
        λ e. cc (sym foreign, (equal_iff w.task.session_id session_id).1 e),
        elim known [
          | inl (state, found, same) ↦ rw (
            task_for_context,
            found,
            ap (λ (v : Snapshot). equal v.task.session_id session_id) same ∙ foreign,
          )
          | inr (gone, stored) ↦ rw (task_for_context, gone, stored, foreign)
        ],
      )
    ]

abbrev pub is_active : Status → Bool
is_active status = is_running status || is_approval_required status

cancelled_task-some :
    (now : ℕ) (state : TaskState)
    → is_active state.task.status ≡ true
    → (c : Change) × (cancelled_task now state ≡ some c)
      × (c.state.task.status ≡ cancelled)
      × (c.state.result.status ≡ cancelled)
      × (c.state.task.ended_at ≡ some now)
unfolding cancelled_task reported
cancelled_task-some now state active = (
  reported (stopped_task now state),
  rw (not_idle (is_running state.task.status) (is_approval_required state.task.status) active) refl,
  refl,
  refl,
  refl,
)
  where
    not_idle : (a b : Bool) → (a || b) ≡ true → (not a && not b) ≡ false
    not_idle a b h = ground arith

cancelled_task-none :
    (now : ℕ) (state : TaskState)
    → is_active state.task.status ≡ false
    → cancelled_task now state ≡ none
unfolding cancelled_task
cancelled_task-none now state over =
    rw (idle (is_running state.task.status) (is_approval_required state.task.status) over)
  where
    idle : (a b : Bool) → (a || b) ≡ false → (not a && not b) ≡ true
    idle a b h = ground arith

-- The service after the cancellation of a task, and the change that it has made.
abbrev pub IsCancelled : Text → ℕ → Snapshot → TaskService → Change → Type 0
IsCancelled id now w after c =
    (c.state.task.status ≡ cancelled)
    × (c.state.result.status ≡ cancelled)
    × (c.state.task.ended_at ≡ some now)
    × (after.tasks id ≡ some c.state)
    × (after.approval_tasks w.task.run_id ≡ none)

-- With the session enforced, a task of another session is not found, and one that is over, or only stored, is
-- not running. A live task of this session that runs or waits for an approval is cancelled at once, with the
-- time, and the registration of its run is gone.
pub cancel_task-IsCancelled :
    (session_id id : Text) (now : ℕ) (rows : List Row) (s : TaskService) (w : Snapshot)
    → IsKnown id rows s w
    → let result = cancel_task (some session_id) id now rows s in
      ((w.task.session_id ≢ session_id) × (result ≡ err not_found))
      ⊎ (((w.task.session_id ≡ session_id)
            × ((s.tasks id ≡ none) ⊎ (is_active w.task.status ≡ false))
            × (result ≡ err not_running))
          ⊎ ((w.task.session_id ≡ session_id)
              × (is_active w.task.status ≡ true)
              × ((after : TaskService) × (c : Change) × (result ≡ ok (after, c))
                  × IsCancelled id now w after c)))
unfolding cancel_task
cancel_task-IsCancelled session_id id now rows s w known =
    elim (Bool-cases (equal w.task.session_id session_id)) [
      | inr foreign ↦ inl (
        λ e. cc (sym foreign, (equal_iff w.task.session_id session_id).1 e),
        elim known [
          | inl (state, found, same) ↦ rw (
            cancel_task,
            found,
            ap (λ (v : Snapshot). equal v.task.session_id session_id) same ∙ foreign,
          )
          | inr (gone, stored) ↦ rw (cancel_task, gone, stored, foreign)
        ],
      )
      | inl own ↦
          let same_id = (equal_iff w.task.session_id session_id).0 own in
          inr (elim known [
            | inr (gone, stored) ↦ inl (same_id, inl gone, rw (cancel_task, gone, stored, own))
            | inl (state, found, same) ↦
                let here = ap (λ (v : Snapshot). equal v.task.session_id session_id) same ∙ own in
                let status = ap (λ (v : Snapshot). is_active v.task.status) same in
                let run = ap (λ (v : Snapshot). v.task.run_id) same in
                elim (Bool-cases (is_active w.task.status)) [
                  | inr over ↦ inl (
                    same_id,
                    inr over,
                    rw (cancel_task, found, here, cancelled_task-none now state (status ∙ over)),
                  )
                  | inl active ↦
                      let (c, made, stopped, result_stopped, ended) =
                        cancelled_task-some now state (status ∙ active) in
                      inr (
                        same_id,
                        active,
                        (
                          record s {
                            tasks = put id (some c.state) s.tasks;
                            approval_tasks = put state.task.run_id none s.approval_tasks;
                          },
                          c,
                          rw (cancel_task, found, here, made) refl,
                          (
                            stopped,
                            result_stopped,
                            ended,
                            put-same id (some c.state) s.tasks,
                            subst (λ r. put state.task.run_id none s.approval_tasks r ≡ none) run
                                (put-same state.task.run_id none s.approval_tasks),
                          ),
                        ),
                      )
                ]
          ])
    ]
