-- ===== src/Tasks/Examples.antt =====
-- A background task of the session `s` that prints a byte and completes.
use eino_ops_agent_enterpr1s.Base.{
  ℕ, zero, suc, ◌+◌, ◌++◌, contains, Bool, true, false, Option, none, some, List, [], ◌∷◌, All, map,
  Text, length, ok, err, ◌≡◌, ◌≢◌, ◌⊎◌, inl, inr, refl, sym, ◌∙◌, Bool-cases, equal, equal_iff,
}
use eino_ops_agent_enterpr1s.Tasks.{
  running, completed, terminal_execution_status, ExecResult, Snapshot, TaskState, stdout, Change,
  TaskEvent, output_event, task_snapshot,
}
use eino_ops_agent_enterpr1s.Tasks.Rows.{not_found, not_running, row_of, find_row}
use eino_ops_agent_enterpr1s.Tasks.Service.{put, TaskService, new_state, cancel_task}
use eino_ops_agent_enterpr1s.Tasks.Waiting.{task_for_context}
use eino_ops_agent_enterpr1s.Tasks.Calls.{
  perform, Call, starting, printing, returning, forgetting, Keeps, Keyed,
}
use eino_ops_agent_enterpr1s.Tasks.Traces.{changes, last_state, perform_all, IsAt, changes-final}
use eino_ops_agent_enterpr1s.Tasks.Follow.{follow_all, event_of, follow_all-task_snapshot}
use eino_ops_agent_enterpr1s.Tasks.Durable.{upsert_all-last_saved}
use eino_ops_agent_enterpr1s.Tasks.Rising.{saved_of, last_saved, upsert_all}
use eino_ops_agent_enterpr1s.Tasks.Access.{
  is_active, IsCancelled, task_for_context-IsKnown, cancel_task-IsCancelled,
}
use eino_ops_agent_enterpr1s.Tasks.Subscribers.{
  Message, event, TaskSubscriber, Subscribers, offering, leaving, find_snapshots,
  subscribe_task_events,
}
use eino_ops_agent_enterpr1s.Tasks.Snapshots.{IsSeen}
use eino_ops_agent_enterpr1s.Tasks.Feeds.{
  Act, publishing, receiving, act_all, new_feed, IsFed, subscribe_task_events-IsFed, take_turns,
  take_turns-lost,
}

abbrev id : Text
id = 1 ∷ []

abbrev session : Text
session = 2 ∷ []

abbrev first_state : TaskState
first_state = new_state id session (3 ∷ []) 0

abbrev tasks_of : Text → Option TaskState
tasks_of = put id (some first_state) (λ key. none)

abbrev service : TaskService
service = record { tasks = tasks_of; approval_tasks = λ run. none; execution_closed = false }

service-found : service.tasks id ≡ some first_state
unfolding equal
service-found = refl

service-Keyed : Keyed service
service-Keyed key state found = elim (Bool-cases (equal key id)) [
  | inl same ↦ own (sym (rw same refl) ∙ found) ∙ sym ((equal_iff key id).0 same)
  | inr other ↦ absurd (none_there (sym (rw other refl) ∙ found))
]
  where
    own : ◌≡◌ {A = Option TaskState} (some first_state) (some state) → state.task.id ≡ id
    own e = cc

    none_there : ◌≡◌ {A = Option TaskState} none (some state) → ⊥
    none_there e = cc

abbrev done : ExecResult
done = record {
  run_id = 4 ∷ [];
  status = completed;
  approval_id = [];
  operator_instruction = [];
  stdout = 5 ∷ [];
  stderr = [];
  completed_at = some 9;
}

abbrev calls : List Call
calls =
    starting id (4 ∷ [])
    ∷ (printing id stdout (5 ∷ []) 7
        ∷ (returning id done none 9 ∷ (printing id stdout (6 ∷ []) 10 ∷ (forgetting id ∷ []))))

calls-Keeps : All (Keeps id) calls
calls-Keeps = (tt, (tt, (tt, (tt, (tt, tt)))))

-- The output after the end changes nothing.
changes-count : length (changes id calls service) ≡ 3
unfolding perform equal
changes-count = refl

abbrev last : TaskState
last = last_state first_state (changes id calls service)

changes-final_example :
    ((terminal_execution_status running ≡ false) ⊎ (changes id calls service ≡ []))
    × (last.task.revision ≡ 1 + length (changes id calls service))
    × (last.notify ≡ 0 + length (changes id calls service))
    × IsAt id last (perform_all calls service)
changes-final_example =
    changes-final id calls service first_state service-Keyed calls-Keeps service-found

follow_all-task_snapshot_example :
    follow_all (map event_of (changes id calls service)) (task_snapshot first_state)
    ≡ some (task_snapshot last)
follow_all-task_snapshot_example =
    follow_all-task_snapshot id calls service first_state service-Keyed calls-Keeps service-found

abbrev saved : List Snapshot
saved = saved_of (changes id calls service)

upsert_all-last_saved_example :
    (find_row id (upsert_all saved (row_of (task_snapshot first_state) ∷ []))
      ≡ some (row_of (last_saved (task_snapshot first_state) saved)))
    × ((terminal_execution_status last.task.status ≡ false)
        ⊎ (last_saved (task_snapshot first_state) saved ≡ task_snapshot last))
unfolding find_row row_of equal task_snapshot
upsert_all-last_saved_example =
    upsert_all-last_saved id calls service first_state (row_of (task_snapshot first_state) ∷ [])
      saved service-Keyed calls-Keeps service-found refl (λ w own. (λ h. h, λ h. h))

task_for_context-IsKnown_example :
    let read = task_for_context session id [] service in
    ((session ≡ session) × ((waits : Bool) × (read ≡ ok (task_snapshot first_state, waits))))
    ⊎ ((session ≢ session) × (read ≡ err not_found))
unfolding task_snapshot
task_for_context-IsKnown_example =
    task_for_context-IsKnown session id [] service (task_snapshot first_state)
      (inl (first_state, service-found, refl))

cancel_task-IsCancelled_example :
    let result = cancel_task (some session) id 8 [] service in
    ((session ≢ session) × (result ≡ err not_found))
    ⊎ (((session ≡ session)
          × ((service.tasks id ≡ none) ⊎ (is_active running ≡ false))
          × (result ≡ err not_running))
        ⊎ ((session ≡ session)
            × (is_active running ≡ true)
            × ((after : TaskService) × (c : Change) × (result ≡ ok (after, c))
                × IsCancelled id 8 (task_snapshot first_state) after c)))
unfolding task_snapshot
cancel_task-IsCancelled_example =
    cancel_task-IsCancelled session id 8 [] service (task_snapshot first_state)
      (inl (first_state, service-found, refl))

abbrev first_event : TaskEvent
first_event = output_event 2 stdout 0 1 (5 ∷ [])

abbrev two_acts : List Act
two_acts = publishing id first_event ∷ (receiving ∷ [])

abbrev no_subscribers : Subscribers
no_subscribers = record { last_id = 0; all = [] }

abbrev new_subscriber : TaskSubscriber
new_subscriber = record { id = 1; task_ids = id ∷ []; events = []; is_done = false }

reads_event : (act_all two_acts (new_feed new_subscriber)).received ≡ event first_event ∷ []
unfolding act_all contains equal
reads_event = refl

finds_task :
    let (snapshots, registered) = find_snapshots session (id ∷ []) [] service in
    (snapshots id ≡ some (task_snapshot first_state)) × (registered ≡ id ∷ [])
unfolding find_snapshots task_snapshot equal contains
finds_task = (refl, refl)

subscribe_task_events-IsFed_example :
    let (snapshots, fresh, after) =
      subscribe_task_events session (id ∷ []) [] service no_subscribers in
    (new : TaskSubscriber) × (after.all ≡ new ∷ [])
    × (new.id ≡ fresh)
    × (((contains (id ∷ []) id ≡ false)
          × (snapshots id ≡ none)
          × (contains new.task_ids id ≡ false))
        ⊎ ((contains (id ∷ []) id ≡ true)
            × IsSeen session id [] service (snapshots id) (contains new.task_ids id)))
    × IsFed (act_all two_acts (new_feed new))
subscribe_task_events-IsFed_example =
    subscribe_task_events-IsFed session id (id ∷ []) [] service no_subscribers two_acts refl

abbrev copies : ℕ → List Message
copies zero = []
copies (suc n) = event first_event ∷ copies n

take_turns-lost_example :
    take_turns
      (true ∷ (true ∷ (false ∷ (true ∷ []))))
      (offering first_event, offering first_event, event first_event ∷ copies 255)
    ≡ (leaving, leaving, copies 255 ++ event first_event ∷ [])
take_turns-lost_example =
    take_turns-lost (event first_event) (copies 255) first_event first_event refl
