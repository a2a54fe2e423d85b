-- ===== src/Tasks/Traces.antt =====
-- The changes of one task in a sequence of calls (internal/service/tasks.go).
use mathlib.Core.Path.{subst}
use eino_ops_agent_enterpr1s.Base.{
  ◌+◌, false, Option, none, some, List, [], ◌∷◌, All, Text, equal, equal_iff, length, if◌then◌else◌,
  ◌≡◌, ◌≢◌, ◌⊎◌, inl, inr, refl, sym, ◌∙◌, arith, Bool-cases,
}
use eino_ops_agent_enterpr1s.Tasks.{terminal_execution_status, TaskState, Change}
use eino_ops_agent_enterpr1s.Tasks.Service.{TaskService}
use eino_ops_agent_enterpr1s.Tasks.Changes.{IsNext}
use eino_ops_agent_enterpr1s.Tasks.Calls.{Call, perform, Keeps, Keyed}
use eino_ops_agent_enterpr1s.Tasks.Turns.{perform-Turn, perform-Keyed}

abbrev pub perform_all : List Call → TaskService → TaskService
perform_all [] s = s
perform_all (call ∷ calls) s = perform_all calls (perform call s).0

abbrev pub own_change : Text → Option Change → List Change → List Change
own_change id none rest = rest
own_change id (some c) rest = if equal c.state.task.id id then c ∷ rest else rest

-- The changes of the task `id`, in the order of the sections.
abbrev pub changes : Text → List Call → TaskService → List Change
changes id [] s = []
changes id (call ∷ calls) s = own_change id (perform call s).1 (changes id calls (perform call s).0)

-- Each change is the next one of the state that the one before it left.
abbrev pub Linked : TaskState → List Change → Type 0
Linked state [] = Unit
Linked state (c ∷ cs) = IsNext state c × Linked c.state cs

abbrev pub last_state : TaskState → List Change → TaskState
last_state state [] = state
last_state state (c ∷ cs) = last_state c.state cs

-- The task is in the table with the state, or has been deleted.
abbrev pub IsAt : Text → TaskState → TaskService → Type 0
IsAt id state s = (s.tasks id ≡ some state) ⊎ (s.tasks id ≡ none)

other_change :
    (id : Text) (change : Option Change) (rest : List Change)
    → ((c : Change) → change ≡ some c → c.state.task.id ≢ id)
    → own_change id change rest ≡ rest
other_change id none rest apart = refl
other_change id (some c) rest apart = elim (Bool-cases (equal c.state.task.id id)) [
  | inl same ↦ absurd (apart c refl ((equal_iff c.state.task.id id).0 same))
  | inr other ↦ rw other
]

own-change :
    (id : Text) (c : Change) {change : Option Change} (rest : List Change)
    → change ≡ some c
    → c.state.task.id ≡ id
    → own_change id change rest ≡ c ∷ rest
own-change id c rest made is_id = rw (made, own_change, (equal_iff c.state.task.id id).1 is_id)

same-some : {x y : TaskState} → ◌≡◌ {A = Option TaskState} (some x) (some y) → x ≡ y
same-some e = cc

found-none : {state : TaskState} {o : Option TaskState} → o ≡ none → o ≡ some state → ⊥
found-none e h = cc

-- A task that is not in the table has no changes.
pub changes-none :
    (id : Text) (calls : List Call) (s : TaskService)
    → Keyed s
    → All (Keeps id) calls
    → s.tasks id ≡ none
    → (changes id calls s ≡ []) × ((perform_all calls s).tasks id ≡ none)
changes-none id [] s keyed keeps gone = (refl, gone)
changes-none id (call ∷ calls) s keyed (keep, keeps) gone =
    elim (perform-Turn id call s keyed keep) [
      | inr (before, c, found, after, made, next) ↦ absurd (found-none gone found)
      | inl (place, apart) ↦
          let still : (perform call s).0.tasks id ≡ none = elim place [
            | inl kept ↦ kept ∙ gone
            | inr out ↦ out
          ] in
          let (nothing, final) =
            changes-none id calls (perform call s).0 (perform-Keyed call s keyed) keeps still in
          (other_change id (perform call s).1 _ apart ∙ nothing, final)
    ]

pub changes-Linked :
    (id : Text) (calls : List Call) (s : TaskService) (state : TaskState)
    → Keyed s
    → All (Keeps id) calls
    → s.tasks id ≡ some state
    → Linked state (changes id calls s)
      × IsAt id (last_state state (changes id calls s)) (perform_all calls s)
changes-Linked id [] s state keyed keeps found = (tt, inl found)
changes-Linked id (call ∷ calls) s state keyed (keep, keeps) found =
    let keyed_next = perform-Keyed call s keyed in
    elim (perform-Turn id call s keyed keep) [
      | inl (place, apart) ↦
          let same =
            other_change id (perform call s).1 (changes id calls (perform call s).0) apart in
          rw same (elim place [
            | inl kept ↦
                changes-Linked id calls (perform call s).0 state keyed_next keeps (kept ∙ found)
            | inr out ↦
                let (nothing, final) =
                  changes-none id calls (perform call s).0 keyed_next keeps out in
                rw nothing (tt, inr final)
          ])
      | inr (before, c, there, after, made, next) ↦
          let own =
            own-change id c (changes id calls (perform call s).0) made
              (keyed_next id c.state after) in
          let is_state : before ≡ state = same-some (sym there ∙ found) in
          let (links, final) =
            changes-Linked id calls (perform call s).0 c.state keyed_next keeps after in
          rw own ((subst (λ st. IsNext st c) is_state next, links), final)
    ]

-- Once the status of a task is terminal, no call of the service changes the task again. Until then each change
-- adds one to its revision and wakes the waiters.
pub changes-final :
    (id : Text) (calls : List Call) (s : TaskService) (state : TaskState)
    → Keyed s
    → All (Keeps id) calls
    → s.tasks id ≡ some state
    → let last = last_state state (changes id calls s) in
      ((terminal_execution_status state.task.status ≡ false) ⊎ (changes id calls s ≡ []))
      × (last.task.revision ≡ state.task.revision + length (changes id calls s))
      × (last.notify ≡ state.notify + length (changes id calls s))
      × IsAt id last (perform_all calls s)
changes-final id calls s state keyed keeps found =
    let (links, final) = changes-Linked id calls s state keyed keeps found in
    (
      none_left (changes id calls s) links,
      (count state (changes id calls s) links).0,
      (count state (changes id calls s) links).1,
      final,
    )
  where
    none_left :
        (cs : List Change)
        → Linked state cs
        → (terminal_execution_status state.task.status ≡ false) ⊎ (cs ≡ [])
    none_left [] links = inr refl
    none_left (c ∷ cs) ((r, i, h, t, n, live, fits, rest), links) = inl live

    count :
        (st : TaskState) (cs : List Change)
        → Linked st cs
        → ((last_state st cs).task.revision ≡ st.task.revision + length cs)
          × ((last_state st cs).notify ≡ st.notify + length cs)
    count st [] links = (omega arith, omega arith)
    count st (c ∷ cs) ((r, i, h, t, n, live, fits, rest), links) =
        let (revision, notify) = count c.state cs links in
        (omega (arith, r, revision), omega (arith, n, notify))
