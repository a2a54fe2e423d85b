-- ===== src/Slots.antt =====
-- The slots of executions: `acquire` of internal/service/execution_limits.go. The callers run at the same time;
-- a step is one send to a channel by one of them, or all the receives at once of one that gives its slots back, at the
-- end or after a failed acquisition. A channel is the number of values in it.
-- `globalSem` and the channels of the hosts have room for `global_limit` and `host_limit` values; the channel of a
-- host that is not made yet is an empty one.
pub mod Hosts
pub mod Moves
pub mod Counts
pub mod Top
pub mod Deadlock
pub mod Examples
use eino_ops_agent_enterpr1s.Base.{
  ℕ, zero, suc, ◌+◌, ◌-◌, Bool, true, false, ◌&&◌, ◌||◌, Option, none, some, List, [], ◌∷◌, ◌++◌,
  Text, equal, is_empty, ltb, leb, ◌==◌, if◌then◌else◌, ◌≡◌,
}

-- `a < b` on strings.
unfoldable pub less : Text → Text → Bool
less a [] = false
less [] (d ∷ b) = true
less (c ∷ a) (d ∷ b) = ltb c d || ((c == d) && less a b)

unfoldable pub is_seen : Text → List Text → Bool
is_seen id [] = false
is_seen id (other ∷ seen) = if equal other id then true else is_seen id seen

-- The loop over the host ids: the empty one and those that were seen before are passed over.
unfoldable pub unique_host_ids : List Text → List Text → List Text
unfolding is_seen
unique_host_ids seen [] = []
unique_host_ids seen (id ∷ ids) =
    let later = unique_host_ids seen ids in
    let rest = unique_host_ids (id ∷ seen) ids in
    if is_empty id || is_seen id seen then later else id ∷ rest

unfoldable pub insert_id : Text → List Text → List Text
unfolding less
insert_id id [] = id ∷ []
insert_id id (other ∷ ids) =
    let rest = insert_id id ids in if less id other then id ∷ (other ∷ ids) else other ∷ rest

-- `sort.Strings`.
unfoldable pub sort_strings : List Text → List Text
unfolding insert_id
sort_strings [] = []
sort_strings (id ∷ ids) = insert_id id (sort_strings ids)

-- `limit` of the channel of a host.
unfoldable pub host_limit_of : ℕ → ℕ
host_limit_of host_concurrency = if leb host_concurrency 0 then 2 else host_concurrency

-- A caller is in front of `globalSem`; or has a value in it, wants the channels of some hosts and has acquired
-- those of others, the last one first; or has returned.
pub data Caller : Type 0 where
  waiting : List Text → Caller
  acquiring : List Text → List Text → Caller
  returned : Caller

pub record Slots : Type 0 where
  pub global_sem : ℕ
  pub global_limit : ℕ
  pub host_sems : Text → ℕ
  pub host_limit : ℕ

-- The channels before the first call.
unfoldable pub new_slots : ℕ → ℕ → Slots
unfolding host_limit_of
new_slots global_limit host_concurrency = record {
  global_sem = 0;
  global_limit = global_limit;
  host_sems = λ host. 0;
  host_limit = host_limit_of host_concurrency;
}

unfoldable pub new_caller : List Text → Caller
unfolding sort_strings unique_host_ids
new_caller host_ids = waiting (sort_strings (unique_host_ids [] host_ids))

-- A channel gets one value more, or one less.
abbrev pub sent : Text → (Text → ℕ) → Text → ℕ
sent id sems host = if equal host id then sems host + 1 else sems host

abbrev pub received : Text → (Text → ℕ) → Text → ℕ
received id sems host = if equal host id then sems host - 1 else sems host

-- The next send of a caller, if the channel has room.
unfoldable pub take_slot : Slots → Caller → Option (Slots × Caller)
take_slot s (waiting wanted) =
    if ltb s.global_sem s.global_limit
    then some (record s { global_sem = s.global_sem + 1 }, acquiring wanted [])
    else none
take_slot s (acquiring [] acquired) = none
take_slot s (acquiring (id ∷ wanted) acquired) =
    if ltb (s.host_sems id) s.host_limit
    then some (record s { host_sems = sent id s.host_sems }, acquiring wanted (id ∷ acquired))
    else none
take_slot s returned = none

-- `for … range slices.Backward(acquired)`.
unfoldable pub receive_all : List Text → (Text → ℕ) → Text → ℕ
receive_all [] sems = sems
receive_all (id ∷ acquired) sems = receive_all acquired (received id sems)

-- What a caller does when its context is over, and what the function does that it has got.
unfoldable pub release : Slots → Caller → Option (Slots × Caller)
unfolding receive_all
release s (waiting wanted) = some (s, returned)
release s (acquiring wanted acquired) = some (
  record s { host_sems = receive_all acquired s.host_sems; global_sem = s.global_sem - 1 },
  returned,
)
release s returned = none

-- A step of the caller at a place, if it can make one.
unfoldable pub step_at :
    (Slots → Caller → Option (Slots × Caller))
    → ℕ
    → Slots
    → List Caller
    → Option (Slots × List Caller)
step_at move place s [] = none
step_at move zero s (p ∷ callers) = elim (move s p) [
  | none ↦ none
  | some after ↦ some (after.0, after.1 ∷ callers)
]
step_at move (suc place) s (p ∷ callers) = elim (step_at move place s callers) [
  | none ↦ none
  | some after ↦ some (after.0, p ∷ after.1)
]

-- A new caller comes, or the one at a place sends to its next channel, or releases what it has.
pub data Action : Type 0 where
  calling : List Text → Action
  taking releasing : ℕ → Action

unfoldable pub act : Action → Slots × List Caller → Option (Slots × List Caller)
unfolding new_caller take_slot release step_at
act (calling host_ids) (s, callers) = some (s, new_caller host_ids ∷ callers)
act (taking place) (s, callers) = step_at take_slot place s callers
act (releasing place) (s, callers) = step_at release place s callers

-- A run of the callers; an action that cannot be done is left out.
unfoldable pub act_all : List Action → Slots × List Caller → Slots × List Caller
unfolding act
act_all [] state = state
act_all (action ∷ actions) state = elim (act action state) [
  | none ↦ act_all actions state
  | some next ↦ act_all actions next
]
