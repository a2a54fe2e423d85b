-- ===== src/Tasks/Follow.antt =====
-- What a subscriber of a task's events has (internal/service/tasks.go).
use eino_ops_agent_enterpr1s.Base.{Option, none, some, List, [], ◌∷◌, All, Text, map, ◌≡◌, refl}
use eino_ops_agent_enterpr1s.Tasks.{Snapshot, TaskState, TaskEvent, Change, task_snapshot}
use eino_ops_agent_enterpr1s.Tasks.Service.{TaskService}
use eino_ops_agent_enterpr1s.Tasks.Changes.{follow}
use eino_ops_agent_enterpr1s.Tasks.Calls.{Call, Keeps, Keyed}
use eino_ops_agent_enterpr1s.Tasks.Traces.{changes, Linked, last_state, changes-Linked}

abbrev pub event_of : Change → TaskEvent
event_of c = c.event

-- The subscriber follows one event after the other; it has `none` after an event that does not fit.
abbrev pub follow_all : List TaskEvent → Snapshot → Option Snapshot
follow_all [] w = some w
follow_all (e ∷ events) w = elim (follow e w) [ none ↦ none | some v ↦ follow_all events v ]

follow_all-Linked :
    (state : TaskState) (cs : List Change)
    → Linked state cs
    → follow_all (map event_of cs) (task_snapshot state)
      ≡ some (task_snapshot (last_state state cs))
follow_all-Linked state [] links = refl
follow_all-Linked state (c ∷ cs) ((r, i, h, t, n, live, fits, rest), links) =
    rw (follow_all, fits) (follow_all-Linked c.state cs links)

-- A subscriber that has the snapshot of a task and takes the events of its changes in their order, whatever
-- happens to the other tasks, has the snapshot of the last state: every output comes right behind what the
-- subscriber has of its stream, and every other event carries the whole snapshot.
pub follow_all-task_snapshot :
    (id : Text) (calls : List Call) (s : TaskService) (state : TaskState)
    → Keyed s
    → All (Keeps id) calls
    → s.tasks id ≡ some state
    → follow_all (map event_of (changes id calls s)) (task_snapshot state)
      ≡ some (task_snapshot (last_state state (changes id calls s)))
follow_all-task_snapshot id calls s state keyed keeps found =
    follow_all-Linked state (changes id calls s)
      (changes-Linked id calls s state keyed keeps found).0
