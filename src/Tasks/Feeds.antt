-- ===== src/Tasks/Feeds.antt =====
-- What a subscriber of the events of tasks is sure to see (internal/service/task_events.go).
use mathlib.Core.Path.{subst}
use mathlib.Core.List.{map-append}
use eino_ops_agent_enterpr1s.Base.{
  ◌≤◌, ◌+◌, length-drop, Bool, true, false, not, ◌&&◌, none, List, [], ◌∷◌, ◌++◌, map, append-nil,
  append_assoc, Text, contains, is_empty, length, length-append, drop, ltb, if◌then◌else◌, ◌≡◌, ◌⊎◌,
  inl, inr, refl, sym, ap, ◌∙◌, arith, Bool-cases,
}
use eino_ops_agent_enterpr1s.Tasks.{TaskEvent}
use eino_ops_agent_enterpr1s.Tasks.Subscribers.{
  Message, event, resync, TaskSubscriber, Place, offering, leaving, publish_step, publish_steps,
  deliver_task_event, take_event, Subscribers, subscribe_task_events,
}
use eino_ops_agent_enterpr1s.Tasks.Rows.{Row}
use eino_ops_agent_enterpr1s.Tasks.Service.{TaskService}
use eino_ops_agent_enterpr1s.Tasks.Snapshots.{IsSeen, find_snapshots-IsSeen}

-- What happens around one subscriber: an event of a task is published, or the subscriber reads its channel.
pub data Act : Type 0 where
  publishing : Text → TaskEvent → Act
  receiving : Act

-- A subscriber, what it has read, and the events of its tasks that were published.
pub record Feed : Type 0 where
  pub subscriber : TaskSubscriber
  pub received : List Message
  pub published : List TaskEvent

-- `<-events`, if there is a message.
unfoldable pub receive : List Message → Feed → Feed
receive [] f = f
receive (m ∷ rest) f = record f {
  subscriber = record f.subscriber { events = rest };
  received = f.received ++ m ∷ [];
}

unfoldable pub act : Act → Feed → Feed
unfolding take_event receive
act (publishing id e) f = record f {
  subscriber = take_event id e f.subscriber;
  published =
      if not (is_empty id) && contains f.subscriber.task_ids id
      then f.published ++ e ∷ []
      else f.published;
}
act receiving f = receive f.subscriber.events f

unfoldable pub act_all : List Act → Feed → Feed
unfolding act
act_all [] f = f
act_all (a ∷ acts) f = act_all acts (act a f)

-- All events in their order; or all after the last "resync", and some messages before it.
abbrev pub IsComplete : List TaskEvent → List Message → Type 0
IsComplete published seen =
    (seen ≡ map event published)
    ⊎ ((before after : List TaskEvent) × (lead : List Message) × (published ≡ before ++ after)
        × (seen ≡ lead ++ resync ∷ map event after))

abbrev pub IsFed : Feed → Type 0
IsFed f =
    (f.subscriber.is_done ≡ false)
    × (length f.subscriber.events ≤ 256)
    × IsComplete f.published (f.received ++ f.subscriber.events)

-- A full channel loses its oldest message and takes "resync".
publish_steps-cases :
    (e : TaskEvent) (events : List Message)
    → length events ≤ 256
    → ((publish_steps e events ≡ events ++ event e ∷ []) × (length events + 1 ≤ 256))
      ⊎ ((publish_steps e events ≡ drop 1 events ++ resync ∷ []) × (length events ≡ 256))
unfolding publish_steps
publish_steps-cases e events small = elim (Bool-cases (ltb (length events) 256)) [
  | inl room ↦ inl (ground (arith, room), ground arith)
  | inr full ↦
      let now_room : ltb (length (drop 1 events)) 256 ≡ true =
        ground (arith, length-drop 1 events) in
      inr (ground (arith, full, now_room), ground arith)
]

IsComplete-event :
    (e : TaskEvent) (published : List TaskEvent) (seen : List Message)
    → IsComplete published seen
    → IsComplete (published ++ e ∷ []) (seen ++ event e ∷ [])
IsComplete-event e published seen (inl every) =
    inl (ap (λ z. z ++ event e ∷ []) every ∙ sym (map-append event published (e ∷ [])))
IsComplete-event e published seen (inr (before, after, lead, parts, marked)) = inr (
  before,
  after ++ e ∷ [],
  lead,
  ap (λ z. z ++ e ∷ []) parts ∙ append_assoc before after (e ∷ []),
  ap (λ z. z ++ event e ∷ []) marked
      ∙ append_assoc lead (resync ∷ map event after) (event e ∷ [])
      ∙ ap (λ z. lead ++ resync ∷ z) (sym (map-append event after (e ∷ []))),
)

deliver-IsFed :
    (e : TaskEvent) (f : Feed)
    → IsFed f
    → IsFed (record f {
      subscriber = record f.subscriber { events = publish_steps e f.subscriber.events };
      published = f.published ++ e ∷ [];
    })
deliver-IsFed e f (live, small, complete) = elim (publish_steps-cases e f.subscriber.events small) [
  | inl (added, room) ↦ rw added (
    live,
    ground (arith, length-append f.subscriber.events (event e ∷ [])),
    subst (IsComplete (f.published ++ e ∷ []))
        (append_assoc f.received f.subscriber.events (event e ∷ []))
        (IsComplete-event e f.published _ complete),
  )
  | inr (marked, full) ↦ rw marked (
    live,
    ground (
      arith,
      length-append (drop 1 f.subscriber.events) (resync ∷ []),
      length-drop 1 f.subscriber.events,
    ),
    inr (
      f.published ++ e ∷ [],
      [],
      f.received ++ drop 1 f.subscriber.events,
      sym (append-nil (f.published ++ e ∷ [])),
      sym (append_assoc f.received (drop 1 f.subscriber.events) (resync ∷ [])),
    ),
  )
]

receive-IsFed :
    (events : List Message) (f : Feed)
    → f.subscriber.events ≡ events
    → IsFed f
    → IsFed (receive events f)
unfolding receive
receive-IsFed [] f e fed = fed
receive-IsFed (m ∷ rest) f e (live, small, complete) = (
  live,
  omega (arith, ap length e),
  subst (IsComplete f.published)
      (ap (λ z. f.received ++ z) e ∙ sym (append_assoc f.received (m ∷ []) rest)) complete,
)

act-IsFed : (a : Act) (f : Feed) → IsFed f → IsFed (act a f)
unfolding act take_event deliver_task_event
act-IsFed (publishing id e) f fed =
    elim (Bool-cases (not (is_empty id) && contains f.subscriber.task_ids id)) [
      | inr other ↦ rw other fed
      | inl own ↦ rw own (subst IsFed (live_feed e f fed.0) (deliver-IsFed e f fed))
    ]
  where
    live_feed :
        (e : TaskEvent) (f : Feed)
        → f.subscriber.is_done ≡ false
        → record f {
          subscriber = record f.subscriber { events = publish_steps e f.subscriber.events };
          published = f.published ++ e ∷ [];
        }
          ≡ record f {
            subscriber = deliver_task_event e f.subscriber;
            published = f.published ++ e ∷ [];
          }
    live_feed e f live = rw live
act-IsFed receiving f fed = receive-IsFed f.subscriber.events f refl fed

pub act_all-IsFed : (acts : List Act) (f : Feed) → IsFed f → IsFed (act_all acts f)
unfolding act_all
act_all-IsFed [] f fed = fed
act_all-IsFed (a ∷ acts) f fed = act_all-IsFed acts (act a f) (act-IsFed a f fed)

-- A new subscriber, before it reads and before an event is published to it.
abbrev pub new_feed : TaskSubscriber → Feed
new_feed s = record { subscriber = s; received = []; published = [] }

-- A subscription of a named session, and any task: one that it did not ask for has no entry in the map, and the new
-- subscriber is not registered for it. Of those it asked for, a live task of the session has its present snapshot and
-- is registered, one that is not live has the stored snapshot and is not registered, and one that is another session's
-- or nowhere has the absent snapshot and is not registered. However events are then published and read, with no two
-- publishers at the same time, the new subscriber has every event of its tasks in order, or all behind a "resync", in
-- a channel of 256 messages at most.
pub subscribe_task_events-IsFed :
    (session_id key : Text) (ids : List Text) (rows : List Row) (s : TaskService)
    (subscribers : Subscribers) (acts : List Act)
    → is_empty session_id ≡ false
    → let (snapshots, fresh, after) = subscribe_task_events session_id ids rows s subscribers in
      (new : TaskSubscriber) × (after.all ≡ new ∷ subscribers.all)
      × (new.id ≡ fresh)
      × (((contains ids key ≡ false) × (snapshots key ≡ none) × (contains new.task_ids key ≡ false))
          ⊎ ((contains ids key ≡ true)
              × IsSeen session_id key rows s (snapshots key) (contains new.task_ids key)))
      × IsFed (act_all acts (new_feed new))
unfolding subscribe_task_events
subscribe_task_events-IsFed session_id key ids rows s subscribers acts named = (
  _,
  refl,
  refl,
  find_snapshots-IsSeen session_id key ids rows s named,
  act_all-IsFed acts _ (refl, omega arith, inl refl),
)

-- Two publishers that send to one channel at the same time; a turn is the next step of one of them.
unfoldable pub take_turn : Bool → Place × Place × List Message → Place × Place × List Message
unfolding publish_step
take_turn true (p, q, events) = let (p', after) = publish_step p events in (p', q, after)
take_turn false (p, q, events) = let (q', after) = publish_step q events in (p, q', after)

unfoldable pub take_turns : List Bool → Place × Place × List Message → Place × Place × List Message
unfolding take_turn
take_turns [] state = state
take_turns (t ∷ turns) state = take_turns turns (take_turn t state)

-- Where the second publisher sends between the two last steps of the first, a full channel loses its
-- oldest message and the first event, and takes no "resync": what stood behind the oldest message and the
-- second event is all there is.
pub take_turns-lost :
    (oldest : Message) (rest : List Message) (first second : TaskEvent)
    → length (oldest ∷ rest) ≡ 256
    → take_turns
        (true ∷ (true ∷ (false ∷ (true ∷ []))))
        (offering first, offering second, oldest ∷ rest)
      ≡ (leaving, leaving, rest ++ event second ∷ [])
unfolding take_turns
take_turns-lost oldest rest first second full =
    let no_room : ltb (length (oldest ∷ rest)) 256 ≡ false = ground arith in
    let a_room : ltb (length rest) 256 ≡ true = ground arith in
    let again : ltb (length (rest ++ event second ∷ [])) 256 ≡ false =
      ground (arith, length-append rest (event second ∷ [])) in
    rw (no_room, a_room, again) refl
