-- ===== src/Tasks/Snapshots.antt =====
-- What a subscription finds of each task (internal/service/task_events.go).
use mathlib.Core.Path.{subst}
use eino_ops_agent_enterpr1s.Base.{
  Bool, true, false, ◌||◌, Option, none, some, List, [], ◌∷◌, ◌++◌, Text, equal, equal_iff,
  equal_refl, contains, is_empty, if◌then◌else◌, ok, err, ◌≡◌, ◌≢◌, ◌⊎◌, inl, inr, refl, sym, ap,
  ◌∙◌, arith, Bool-cases, Option-cases, Result-cases,
}
use eino_ops_agent_enterpr1s.Tasks.{Snapshot, TaskState, task_snapshot}
use eino_ops_agent_enterpr1s.Tasks.Rows.{Row, TaskError, get_task}
use eino_ops_agent_enterpr1s.Tasks.Service.{put, TaskService}
use eino_ops_agent_enterpr1s.Tasks.Subscribers.{
  absent, is_foreign, Found, note_live, find_live, snapshot_for, stored_snapshot, find_stored,
  find_snapshots,
}

contains-snoc :
    (xs : List Text) (x key : Text) → contains (xs ++ x ∷ []) key ≡ contains xs key || equal x key
unfolding contains
contains-snoc [] x key = ground arith
contains-snoc (y ∷ xs) x key =
    rw (contains-snoc xs x key) (or_assoc (equal y key) (contains xs key) (equal x key))
  where
    or_assoc : (a b c : Bool) → (a || (b || c)) ≡ ((a || b) || c)
    or_assoc a b c = ground arith

-- What is gathered of one task: its snapshot, and whether it is missing and registered.
abbrev seen : Text → Found → Option Snapshot × Bool × Bool
seen key f = (f.snapshots key, contains f.missing key, contains f.task_ids key)

abbrev noted :
    Text → Option TaskState → Option Snapshot × Bool × Bool → Option Snapshot × Bool × Bool
noted session_id none o = (o.0, true, o.2)
noted session_id (some state) o =
    if is_foreign session_id (task_snapshot state)
    then (some absent, o.1, o.2)
    else (some (task_snapshot state), o.1, true)

noted-noted :
    (session_id : Text) (t : Option TaskState) (o : Option Snapshot × Bool × Bool)
    → noted session_id t (noted session_id t o) ≡ noted session_id t o
noted-noted session_id none o = refl
noted-noted session_id (some state) o =
    elim (Bool-cases (is_foreign session_id (task_snapshot state))) [
      | inl foreign ↦ rw foreign
      | inr own ↦ rw own
    ]

snoc-own : (xs : List Text) (key : Text) → contains (xs ++ key ∷ []) key ≡ true
snoc-own xs key = contains-snoc xs key key ∙ rw (equal_refl key) (or_true (contains xs key))
  where
    or_true : (a : Bool) → (a || true) ≡ true
    or_true a = ground arith

snoc-other :
    (xs : List Text) (id key : Text)
    → equal id key ≡ false
    → contains (xs ++ id ∷ []) key ≡ contains xs key
snoc-other xs id key other = contains-snoc xs id key ∙ rw other (or_false (contains xs key))
  where
    or_false : (a : Bool) → (a || false) ≡ a
    or_false a = ground arith

note_live-own :
    (session_id key : Text) (t : Option TaskState) (f : Found)
    → seen key (note_live session_id key t f) ≡ noted session_id t (seen key f)
note_live-own session_id key none f = rw (snoc-own f.missing key)
note_live-own session_id key (some state) f =
    elim (Bool-cases (is_foreign session_id (task_snapshot state))) [
      | inl foreign ↦ rw (foreign, equal_refl key)
      | inr own ↦ rw (own, equal_refl key, snoc-own f.task_ids key)
    ]

note_live-other :
    (session_id id key : Text) (t : Option TaskState) (f : Found)
    → equal id key ≡ false
    → equal key id ≡ false
    → seen key (note_live session_id id t f) ≡ seen key f
note_live-other session_id id key none f other apart = rw (snoc-other f.missing id key other)
note_live-other session_id id key (some state) f other apart =
    elim (Bool-cases (is_foreign session_id (task_snapshot state))) [
      | inl foreign ↦ rw (foreign, apart)
      | inr own ↦ rw (own, apart, snoc-other f.task_ids id key other)
    ]

equal_comm : (a b : Text) → equal a b ≡ false → equal b a ≡ false
equal_comm a b apart = elim (Bool-cases (equal b a)) [
  | inl same ↦ absurd (distinct (sym apart ∙ (equal_iff a b).1 (sym ((equal_iff b a).0 same))))
  | inr other ↦ other
]
  where
    distinct : false ≡ true → ⊥
    distinct e = cc

find_live-seen :
    (session_id key : Text) (s : TaskService) (ids : List Text) (f : Found)
    → seen key (find_live session_id s ids f)
      ≡ (if contains ids key then noted session_id (s.tasks key) (seen key f) else seen key f)
unfolding find_live contains
find_live-seen session_id key s [] f = refl
find_live-seen session_id key s (id ∷ ids) f =
    let next = note_live session_id id (s.tasks id) f in
    let rest = find_live-seen session_id key s ids next in
    elim (Bool-cases (equal id key)) [
      | inr other ↦
          let kept =
            note_live-other session_id id key (s.tasks id) f other (equal_comm id key other) in
          rest
          ∙ ap (λ o. if contains ids key then noted session_id (s.tasks key) o else o) kept
          ∙ rw other refl
      | inl same ↦
          let first : seen key next ≡ noted session_id (s.tasks key) (seen key f) =
            subst
              (λ i.
                seen key (note_live session_id i (s.tasks i) f)
                ≡ noted session_id (s.tasks key) (seen key f))
              (sym ((equal_iff id key).0 same)) (note_live-own session_id key (s.tasks key) f) in
          rest
          ∙ ap (λ o. if contains ids key then noted session_id (s.tasks key) o else o) first
          ∙ (again (contains ids key) ∙ rw same refl)
    ]
  where
    again :
        (more : Bool)
        → (if more
            then noted session_id (s.tasks key) (noted session_id (s.tasks key) (seen key f))
            else noted session_id (s.tasks key) (seen key f))
          ≡ noted session_id (s.tasks key) (seen key f)
    again true = noted-noted session_id (s.tasks key) (seen key f)
    again false = refl

find_stored-at :
    (session_id key : Text) (rows : List Row) (ids : List Text) (snapshots : Text → Option Snapshot)
    → find_stored session_id rows ids snapshots key
      ≡ (if contains ids key then some (stored_snapshot session_id rows key) else snapshots key)
unfolding find_stored contains
find_stored-at session_id key rows [] snapshots = refl
find_stored-at session_id key rows (id ∷ ids) snapshots =
    let next = put id (some (stored_snapshot session_id rows id)) snapshots in
    let rest = find_stored-at session_id key rows ids next in
    elim (Bool-cases (equal id key)) [
      | inr other ↦
          let kept : next key ≡ snapshots key = rw (equal_comm id key other) refl in
          rest
          ∙ ap (λ o. if contains ids key then some (stored_snapshot session_id rows key) else o)
              kept
          ∙ rw other refl
      | inl same ↦
          let first : next key ≡ some (stored_snapshot session_id rows key) =
            subst
              (λ i.
                put i (some (stored_snapshot session_id rows i)) snapshots key
                ≡ some (stored_snapshot session_id rows key))
              (sym ((equal_iff id key).0 same)) (rw (equal_refl key) refl) in
          rest
          ∙ ap (λ o. if contains ids key then some (stored_snapshot session_id rows key) else o)
              first
          ∙ (again (contains ids key) ∙ rw same refl)
    ]
  where
    again :
        (more : Bool)
        → (if more
            then some (stored_snapshot session_id rows key)
            else some (stored_snapshot session_id rows key))
          ≡ some (stored_snapshot session_id rows key)
    again true = refl
    again false = refl

-- What is found of a task that a named session asks for: a live one of its own is registered with its present
-- snapshot, one that is not live is read from the store and not registered, and one that is another session's, or
-- nowhere, is absent.
abbrev pub IsSeen : Text → Text → List Row → TaskService → Option Snapshot → Bool → Type 0
IsSeen session_id key rows s found registered =
    ((state : TaskState) × (s.tasks key ≡ some state)
      × (((state.task.session_id ≡ session_id)
            × (found ≡ some (task_snapshot state))
            × (registered ≡ true))
          ⊎ ((state.task.session_id ≢ session_id) × (found ≡ some absent) × (registered ≡ false))))
    ⊎ ((s.tasks key ≡ none)
        × (registered ≡ false)
        × (((stored : Snapshot) × (get_task key rows ≡ ok stored)
              × (((stored.task.session_id ≡ session_id) × (found ≡ some stored))
                  ⊎ ((stored.task.session_id ≢ session_id) × (found ≡ some absent))))
            ⊎ ((e : TaskError) × (get_task key rows ≡ err e) × (found ≡ some absent))))

-- Whether a snapshot is foreign to a named session.
foreign-cases :
    (session_id : Text) (w : Snapshot)
    → is_empty session_id ≡ false
    → ((is_foreign session_id w ≡ false) × (w.task.session_id ≡ session_id))
      ⊎ ((is_foreign session_id w ≡ true) × (w.task.session_id ≢ session_id))
foreign-cases session_id w named = elim (Bool-cases (equal w.task.session_id session_id)) [
  | inl own ↦ inl (rw (named, own), (equal_iff w.task.session_id session_id).0 own)
  | inr other ↦
      inr (rw (named, other), λ e. cc (sym other, (equal_iff w.task.session_id session_id).1 e))
]

-- What the subscription holds of a task, for what its first loop gathers of it.
find_snapshots-seen :
    (session_id key : Text) (ids : List Text) (rows : List Row) (s : TaskService)
    (o : Option Snapshot × Bool × Bool)
    → seen key (
        find_live session_id s ids (record { snapshots = λ id. none; missing = []; task_ids = [] }))
      ≡ o
    → ((find_snapshots session_id ids rows s).0 key
        ≡ (if o.1 then some (stored_snapshot session_id rows key) else o.0))
      × (contains (find_snapshots session_id ids rows s).1 key ≡ o.2)
unfolding find_snapshots
find_snapshots-seen session_id key ids rows s o e =
    let found =
      find_live session_id s ids (record { snapshots = λ id. none; missing = []; task_ids = [] }) in
    (
      find_stored-at session_id key rows found.missing found.snapshots
          ∙ ap
              (λ (p : Option Snapshot × Bool × Bool).
                if p.1 then some (stored_snapshot session_id rows key) else p.0)
              e,
      ap (λ (p : Option Snapshot × Bool × Bool). p.2) e,
    )

IsSeen-live :
    (session_id key : Text) (rows : List Row) (s : TaskService) (state : TaskState)
    (found : Option Snapshot) (registered : Bool)
    → is_empty session_id ≡ false
    → s.tasks key ≡ some state
    → let o = noted session_id (some state) (none, false, false) in
      found ≡ (if o.1 then some (stored_snapshot session_id rows key) else o.0)
      → registered ≡ o.2
      → IsSeen session_id key rows s found registered
unfolding task_snapshot
IsSeen-live session_id key rows s state found registered named live f r =
    elim (foreign-cases session_id (task_snapshot state) named) [
      | inl (own, mine) ↦ inl (state, live, inl (mine, f ∙ rw own refl, r ∙ rw own refl))
      | inr (foreign, other) ↦
          inl (state, live, inr (other, f ∙ rw foreign refl, r ∙ rw foreign refl))
    ]

IsSeen-stored :
    (session_id key : Text) (rows : List Row) (s : TaskService) (found : Option Snapshot)
    (registered : Bool)
    → is_empty session_id ≡ false
    → s.tasks key ≡ none
    → found ≡ some (stored_snapshot session_id rows key)
    → registered ≡ false
    → IsSeen session_id key rows s found registered
unfolding stored_snapshot
IsSeen-stored session_id key rows s found registered named gone f r =
    elim (Result-cases (get_task key rows)) [
      | inr (e, failed) ↦
          inr (gone, r, inr (e, failed, f ∙ ap (λ z. some (snapshot_for session_id z)) failed))
      | inl (stored, read) ↦
          let here = f ∙ ap (λ z. some (snapshot_for session_id z)) read in
          elim (foreign-cases session_id stored named) [
            | inl (own, mine) ↦ inr (gone, r, inl (stored, read, inl (mine, here ∙ rw own refl)))
            | inr (foreign, other) ↦
                inr (gone, r, inl (stored, read, inr (other, here ∙ rw foreign refl)))
          ]
    ]

-- What a subscription of a named session holds of any task.
pub find_snapshots-IsSeen :
    (session_id key : Text) (ids : List Text) (rows : List Row) (s : TaskService)
    → is_empty session_id ≡ false
    → let (snapshots, registered) = find_snapshots session_id ids rows s in
      ((contains ids key ≡ false) × (snapshots key ≡ none) × (contains registered key ≡ false))
      ⊎ ((contains ids key ≡ true)
          × IsSeen session_id key rows s (snapshots key) (contains registered key))
unfolding contains
find_snapshots-IsSeen session_id key ids rows s named =
    let all =
      find_live-seen session_id key s ids
        (record { snapshots = λ id. none; missing = []; task_ids = [] }) in
    elim (Bool-cases (contains ids key)) [
      | inr other ↦
          let (found, registered) =
            find_snapshots-seen session_id key ids rows s (none, false, false)
              (all ∙ rw other refl) in
          inl (other, found, registered)
      | inl asked ↦ elim (Option-cases (s.tasks key)) [
        | inl gone ↦
            let (found, registered) =
              find_snapshots-seen session_id key ids rows s (none, true, false)
                (all ∙ rw (asked, gone) refl) in
            inr (asked, IsSeen-stored session_id key rows s _ _ named gone found registered)
        | inr (state, live) ↦
            let (found, registered) =
              find_snapshots-seen session_id key ids rows s
                (noted session_id (some state) (none, false, false))
                (all ∙ rw (asked, live) refl) in
            inr (asked, IsSeen-live session_id key rows s state _ _ named live found registered)
      ]
    ]
