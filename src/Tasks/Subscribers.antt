-- ===== src/Tasks/Subscribers.antt =====
-- The subscribers of the events of tasks (internal/service/task_events.go). A subscriber's channel is the list of
-- its messages, of 256 at most. A message that an event of a task carries is known by the task's id and the event.
use eino_ops_agent_enterpr1s.Base.{
  ℕ, ◌+◌, Bool, true, false, not, ◌&&◌, Option, none, some, List, [], ◌∷◌, ◌++◌, map, Text, codes,
  equal, contains, is_empty, length, drop, ltb, ◌==◌, if◌then◌else◌, Result, ok, err,
}
use eino_ops_agent_enterpr1s.Tasks.{unset, Snapshot, TaskState, TaskEvent, task_snapshot}
use eino_ops_agent_enterpr1s.Tasks.Rows.{Row, TaskError, get_task}
use eino_ops_agent_enterpr1s.Tasks.Service.{put, TaskService}

-- What stands in a channel: a `TaskEvent`, or the one of type "resync".
pub data Message : Type 0 where
  event : TaskEvent → Message
  resync : Message

-- `taskSubscriber`; `is_done` says that `done` is closed.
pub record TaskSubscriber : Type 0 where
  pub id : ℕ
  pub task_ids : List Text
  pub events : List Message
  pub is_done : Bool

-- `taskSubscriberID` and `taskSubscribers`.
pub record Subscribers : Type 0 where
  pub last_id : ℕ
  pub all : List TaskSubscriber

abbrev pub task_event_buffer : ℕ
task_event_buffer = 256

abbrev has_room : List Message → Bool
has_room events = ltb (length events) task_event_buffer

-- The three `select` statements of `publishTaskEvent`. A publisher is at one of them, or has left them.
pub data Place : Type 0 where
  offering : TaskEvent → Place
  evicting marking leaving : Place

unfoldable pub publish_step : Place → List Message → Place × List Message
publish_step (offering e) events =
    if has_room events then (leaving, events ++ event e ∷ []) else (evicting, events)
publish_step evicting events = (marking, drop 1 events)
publish_step marking events =
    if has_room events then (leaving, events ++ resync ∷ []) else (leaving, events)
publish_step leaving events = (leaving, events)

-- The three one after the other, if no other publisher comes between.
unfoldable pub publish_steps : TaskEvent → List Message → List Message
unfolding publish_step
publish_steps e events =
    let (second, offered) = publish_step (offering e) events in
    let (third, evicted) = publish_step second offered in (publish_step third evicted).1

-- One subscriber's turn in `publishTaskEvent`.
unfoldable pub deliver_task_event : TaskEvent → TaskSubscriber → TaskSubscriber
unfolding publish_steps
deliver_task_event e s = if s.is_done then s else record s { events = publish_steps e s.events }

-- The part of `publishTaskEvent` that one subscriber sees, of an event of the task `id`.
unfoldable pub take_event : Text → TaskEvent → TaskSubscriber → TaskSubscriber
unfolding deliver_task_event
take_event id e s =
    if not (is_empty id) && contains s.task_ids id then deliver_task_event e s else s

-- `publishTaskEvent`.
unfoldable pub publish_task_event : Text → TaskEvent → Subscribers → Subscribers
unfolding take_event
publish_task_event id e subscribers = record subscribers {
  all = map (take_event id e) subscribers.all;
}

-- The snapshot that says that a task is not found.
abbrev pub absent : Snapshot
absent = record {
  task = record {
    id = [];
    run_id = [];
    session_id = [];
    host_id = [];
    status = unset;
    revision = 0;
    operator_instruction = [];
    started_at = 0;
    ended_at = none;
  };
  result = record {
    run_id = [];
    status = unset;
    approval_id = [];
    operator_instruction = [];
    stdout = [];
    stderr = [];
    completed_at = none;
  };
  error = codes "not found";
}

-- Whether a session is named, and the task is another's.
abbrev pub is_foreign : Text → Snapshot → Bool
is_foreign session_id w = not (is_empty session_id) && not (equal w.task.session_id session_id)

-- What `SubscribeTaskEvents` has gathered: the map of snapshots, `missing`, and the tasks it is registered for.
pub record Found : Type 0 where
  pub snapshots : Text → Option Snapshot
  pub missing : List Text
  pub task_ids : List Text

-- One round of its first loop, for the state in `tasks`.
abbrev pub note_live : Text → Text → Option TaskState → Found → Found
note_live session_id id none f = record f { missing = f.missing ++ id ∷ [] }
note_live session_id id (some state) f =
    if is_foreign session_id (task_snapshot state)
    then record f { snapshots = put id (some absent) f.snapshots }
    else record f {
      snapshots = put id (some (task_snapshot state)) f.snapshots;
      task_ids = f.task_ids ++ id ∷ [];
    }

unfoldable pub find_live : Text → TaskService → List Text → Found → Found
find_live session_id s [] f = f
find_live session_id s (id ∷ ids) f =
    find_live session_id s ids (note_live session_id id (s.tasks id) f)

-- The snapshot that the second loop stores, for the answer of the store.
abbrev pub snapshot_for : Text → Result TaskError Snapshot → Snapshot
snapshot_for session_id (err e) = absent
snapshot_for session_id (ok stored) = if is_foreign session_id stored then absent else stored

unfoldable pub stored_snapshot : Text → List Row → Text → Snapshot
stored_snapshot session_id rows id = snapshot_for session_id (get_task id rows)

unfoldable pub find_stored :
    Text → List Row → List Text → (Text → Option Snapshot) → Text → Option Snapshot
unfolding stored_snapshot
find_stored session_id rows [] snapshots = snapshots
find_stored session_id rows (id ∷ ids) snapshots =
    find_stored session_id rows ids (put id (some (stored_snapshot session_id rows id)) snapshots)

-- The two loops, from an empty map.
unfoldable pub find_snapshots :
    Text → List Text → List Row → TaskService → (Text → Option Snapshot) × List Text
unfolding find_live find_stored
find_snapshots session_id ids rows s =
    let found =
      find_live session_id s ids (record { snapshots = λ id. none; missing = []; task_ids = [] }) in
    (find_stored session_id rows found.missing found.snapshots, found.task_ids)

-- `SubscribeTaskEvents`, with the snapshots and the id of the new subscriber.
unfoldable pub subscribe_task_events :
    Text
    → List Text
    → List Row
    → TaskService
    → Subscribers
    → (Text → Option Snapshot) × ℕ × Subscribers
unfolding find_snapshots
subscribe_task_events session_id ids rows s subscribers =
    let (snapshots, registered) = find_snapshots session_id ids rows s in
    let fresh = subscribers.last_id + 1 in
    (
      snapshots,
      fresh,
      record {
        last_id = fresh;
        all =
            record { id = fresh; task_ids = registered; events = []; is_done = false }
            ∷ subscribers.all;
      },
    )

-- The function that `SubscribeTaskEvents` returns: the subscriber is taken out of the tables, and is done.
unfoldable pub cancel_subscriber : ℕ → Subscribers → Subscribers
cancel_subscriber id subscribers = record subscribers {
  all =
      map (λ s. if s.id == id then record s { task_ids = []; is_done = true } else s)
        subscribers.all;
}
