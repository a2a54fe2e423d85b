-- ===== src/ChatQueue.antt =====
-- The queue of chat messages per conversation: internal/httpapi/chat_queue.go. Each method runs under
-- the queue's lock, so a method is one step. A context and a channel are numbers, and the queue holds
-- the cancelled contexts and the closed channels; a second `close` of a channel is the error `panic`.
-- `ids.New` and `time.Now` are arguments. The methods on a nil queue are left out.
pub mod Order
pub mod Calls
pub mod Safety
pub mod Lifecycle
pub mod NoPanic
pub mod Waits
pub mod Examples
use eino_ops_agent_enterpr1s.Base.{
  ℕ, suc, ◌+◌, ◌-◌, Bool, true, false, not, ◌&&◌, ◌||◌, Option, none, some, List, [], ◌∷◌, ◌++◌,
  map, Text, Bytes, codes, equal, is_empty, trim_space, contains, length, take, drop, leb, ◌==◌,
  if◌then◌else◌, Result, ok, err, ◌>>=◌, ◌>>◌, guard,
}

pub record ChatAttachment : Type 0 where
  pub id : Text
  pub message_id : Text
  pub name : Text
  pub mime_type : Text
  pub size_bytes : ℕ
  pub content : Option Bytes

-- `queuedChatMessage`.
pub record Message : Type 0 where
  pub id : Text
  pub message : Text
  pub mode : Text
  pub attachments : List ChatAttachment
  pub created_at : ℕ

-- `chatQueueSession`; `paused_for` is a set.
pub record Session : Type 0 where
  pub items : List Message
  pub ctx : ℕ
  pub accepting : Bool
  pub paused_for : List Text
  pub changed : ℕ

-- `chatMessageQueue`: contexts and channels are made with the number `next`, and `notified` holds the
-- calls of `onChange`, the last one first.
pub record Queue : Type 0 where
  pub sessions : Text → Option Session
  pub cancelled : List ℕ
  pub closed : List ℕ
  pub next : ℕ
  pub notified : List Text

pub data QueueError : Type 0 where
  inactive full approval_id_required approval_ids_required panic : QueueError

abbrev pub max_queued_chat_messages : ℕ
max_queued_chat_messages = 20

abbrev pub followup : Text
followup = codes "followup"

abbrev pub steering : Text
steering = codes "steering"

pub is_steering : Message → Bool
unfolding equal
is_steering m = equal m.mode steering

-- `q.sessions[id] = s`, and `delete(q.sessions, id)`.
abbrev pub put : Text → Option Session → (Text → Option Session) → Text → Option Session
put id s sessions other = if equal other id then s else sessions other

abbrev pub notify : Text → Queue → Queue
notify id q = record q { notified = id ∷ q.notified }

pub member : ℕ → List ℕ → Bool
member n [] = false
member n (m ∷ rest) = (n == m) || member n rest

-- `close(channel)`.
pub close_channel : ℕ → Queue → Result QueueError Queue
unfolding member
close_channel channel q =
    if member channel q.closed then err panic else ok (record q { closed = channel ∷ q.closed })

pub new_queue : Queue
new_queue = record { sessions = λ _. none; cancelled = []; closed = []; next = 0; notified = [] }

-- `begin`, with the context of the session where it starts one.
pub begin : Text → Queue → Queue × Option ℕ
begin raw q =
    let id = trim_space raw in
    if is_empty id then (q, none) else elim (q.sessions id) [
      | some s ↦ (q, none)
      | none ↦ (
        notify id (record q {
          sessions =
              put id
                (some (record {
                  items = [];
                  ctx = q.next;
                  accepting = true;
                  paused_for = [];
                  changed = q.next;
                }))
                q.sessions;
          next = q.next + 1;
        }),
        some (q.next),
      )
    ]

-- The loop of `pause` that collects the set of approval ids.
pub approval_set : List Text → List Text → Result QueueError (List Text)
unfolding contains
approval_set [] set = ok set
approval_set (raw ∷ ids) set =
    let id = trim_space raw in
    let rest = approval_set ids (if contains set id then set else id ∷ set) in
    if is_empty id then err approval_id_required else rest

-- The session that accepts messages, or `errChatQueueInactive`.
pub accepting_session : Text → Queue → Result QueueError Session
accepting_session id q = elim (q.sessions id) [
  | none ↦ err inactive
  | some s ↦ if s.accepting then ok s else err inactive
]

-- `pause`, with the channel to wait on.
pub pause : Text → List Text → Queue → Result QueueError (Queue × ℕ)
unfolding approval_set accepting_session
pause raw ids q = do
  set ← approval_set ids []
  guard (not (is_empty set)) approval_ids_required
  let id = trim_space raw
  s ← accepting_session id q
  ok (
    notify id (record q { sessions = put id (some (record s { paused_for = set })) q.sessions }),
    s.changed,
  )

-- `delete(set, id)`.
pub remove : Text → List Text → List Text
unfolding equal
remove id [] = []
remove id (x ∷ set) = let rest = remove id set in if equal x id then rest else x ∷ rest

-- `close(state.changed); state.changed = make(chan struct{})`.
pub renew : Text → Session → Queue → Result QueueError Queue
unfolding close_channel
renew id s q = do
  closed ← close_channel s.changed q
  ok (record closed {
    sessions = put id (some (record s { changed = q.next })) q.sessions;
    next = q.next + 1;
  })

pub resume_session : Text → Text → Session → Queue → Result QueueError (Queue × Bool)
unfolding remove renew contains
resume_session id approval_id s q =
    if not (contains s.paused_for approval_id)
    then ok (q, false)
    else (let left = record s { paused_for = remove approval_id s.paused_for } in
        if not (is_empty left.paused_for)
        then ok (notify id (record q { sessions = put id (some left) q.sessions }), true)
        else (renew id left q >>= λ (after : Queue). ok (notify id after, true)))

pub resume : Text → Text → Queue → Result QueueError (Queue × Bool)
unfolding resume_session
resume raw raw_approval q =
    let id = trim_space raw in
    elim (q.sessions id) [
      | none ↦ ok (q, false)
      | some s ↦ resume_session id (trim_space raw_approval) s q
    ]

-- What a call of `waitForResume` comes to: an error at once, no case of its `select` that is ready, or one of the
-- two.
pub data Waiting : Type 0 where
  inactive_queue blocked resumed stopped : Waiting

-- The `select` of `waitForResume` for a context and a channel.
pub select_resume : ℕ → ℕ → Queue → Waiting
unfolding member
select_resume ctx channel q =
    if member ctx q.cancelled then stopped else if member channel q.closed then resumed else blocked

-- `waitForResume`, called with a channel, or with nil, in the first state, and at its `select` in the second.
pub wait_for_resume : Text → Option ℕ → Queue → Queue → Waiting
unfolding select_resume
wait_for_resume raw none q now = inactive_queue
wait_for_resume raw (some channel) q now = elim (q.sessions (trim_space raw)) [
  | none ↦ inactive_queue
  | some s ↦ select_resume s.ctx channel now
]

-- The steering messages at the head of the queue.
pub steering_prefix : List Message → ℕ
unfolding is_steering
steering_prefix [] = 0
steering_prefix (m ∷ items) =
    let rest = steering_prefix items in if is_steering m then suc rest else 0

-- The place of a new message, counted from 1, and the messages with it.
pub insert : Message → List Message → List Message × ℕ
unfolding steering_prefix is_steering
insert item items =
    if is_steering item
    then (let position = steering_prefix items + 1 in
        (take (position - 1) items ++ item ∷ drop (position - 1) items, position))
    else (items ++ item ∷ [], length items + 1)

-- `publicQueuedChatMessage`.
pub public_queued_chat_message : Message → Message
public_queued_chat_message m = record m {
  attachments = map (λ (a : ChatAttachment). record a { content = none }) m.attachments;
}

abbrev pub mode_of : Text → Text
mode_of raw = let mode = trim_space raw in if is_empty mode then followup else mode

pub enqueue :
    Text
    → Text
    → Text
    → List ChatAttachment
    → Text
    → ℕ
    → Queue
    → Result QueueError (Queue × Message × ℕ)
unfolding accepting_session insert public_queued_chat_message
enqueue raw message mode attachments new_id now q = do
  let id = trim_space raw
  s ← accepting_session id q
  guard (not (leb max_queued_chat_messages (length s.items))) full
  let item : Message = record {
    id = new_id;
    message = trim_space message;
    mode = mode_of mode;
    attachments = attachments;
    created_at = now;
  }
  let (items, position) = insert item s.items
  ok (
    notify id (record q { sessions = put id (some (record s { items = items })) q.sessions }),
    public_queued_chat_message item,
    position,
  )

-- `nextAfterTurn` for a session.
pub next_item : Text → Session → Queue → Queue × Option Message
next_item id s q = elim (s.items) [
  | [] ↦ (
    notify id (record q { sessions = put id (some (record s { accepting = false })) q.sessions }),
    none,
  )
  | m ∷ items ↦ (
    notify id (record q { sessions = put id (some (record s { items = items })) q.sessions }),
    some m,
  )
]

pub next_after_turn : Text → Queue → Queue × Option Message
unfolding next_item
next_after_turn raw q =
    let id = trim_space raw in elim (q.sessions id) [ none ↦ (q, none) | some s ↦ next_item id s q ]

pub finish : Text → Queue → Result QueueError Queue
unfolding close_channel
finish raw q =
    let id = trim_space raw in
    elim (q.sessions id) [
      | none ↦ ok q
      | some s ↦ close_channel s.changed q >>= λ (after : Queue). ok (
          notify id
            (record after { cancelled = s.ctx ∷ q.cancelled; sessions = put id none q.sessions }))
    ]

pub clear : Text → Queue → Result QueueError (Queue × Option ℕ)
unfolding renew
clear raw q =
    let id = trim_space raw in
    elim (q.sessions id) [
      | none ↦ ok (q, none)
      | some s ↦ renew id (record s { items = []; accepting = false }) q >>= λ (after : Queue).
          ok (notify id (record after { cancelled = s.ctx ∷ q.cancelled }), some (length s.items))
    ]

pub snapshot : Text → Queue → List Message
unfolding public_queued_chat_message
snapshot raw q = elim (q.sessions (trim_space raw)) [
  | none ↦ []
  | some s ↦ map public_queued_chat_message s.items
]

pub is_active : Text → Queue → Bool
is_active raw q = elim (q.sessions (trim_space raw)) [ none ↦ false | some s ↦ true ]
