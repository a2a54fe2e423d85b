-- ===== src/Tasks/Rising.antt =====
-- The snapshots of a task that are stored, with rising revisions (internal/service/tasks.go).
use eino_ops_agent_enterpr1s.Base.{
  ◌≤◌, ◌<◌, Option, none, some, List, [], ◌∷◌, In, ◌≡◌, inl, inr, refl, ◌∙◌, arith,
}
use eino_ops_agent_enterpr1s.Tasks.{Snapshot, TaskState, Change, task_snapshot}
use eino_ops_agent_enterpr1s.Tasks.Rows.{Row, upsert_task}
use eino_ops_agent_enterpr1s.Tasks.Traces.{Linked}

abbrev pub put_saved : Option Snapshot → List Snapshot → List Snapshot
put_saved none rest = rest
put_saved (some w) rest = w ∷ rest

-- The snapshots that the changes store, in their order.
abbrev pub saved_of : List Change → List Snapshot
saved_of [] = []
saved_of (c ∷ cs) = put_saved c.saved (saved_of cs)

abbrev pub last_saved : Snapshot → List Snapshot → Snapshot
last_saved w [] = w
last_saved w (v ∷ vs) = last_saved v vs

abbrev pub upsert_all : List Snapshot → List Row → List Row
upsert_all [] rows = rows
upsert_all (w ∷ ws) rows = upsert_all ws (upsert_task w rows)

abbrev pub SameTask : Snapshot → Snapshot → Type 0
SameTask w v =
    (v.task.id ≡ w.task.id)
    × (v.task.host_id ≡ w.task.host_id)
    × (v.task.started_at ≡ w.task.started_at)

-- Snapshots of one task with rising revisions.
abbrev pub Rising : Snapshot → List Snapshot → Type 0
Rising w [] = Unit
Rising w (v ∷ vs) = SameTask w v × (w.task.revision < v.task.revision) × Rising v vs

pub SameTask-trans : (u v w : Snapshot) → SameTask u v → SameTask v w → SameTask u w
SameTask-trans u v w (i, h, t) (j, k, l) = (j ∙ i, k ∙ h, l ∙ t)

pub Rising-le :
    (w v : Snapshot) (vs : List Snapshot)
    → SameTask w v
    → w.task.revision ≤ v.task.revision
    → Rising v vs
    → Rising w vs
Rising-le w v [] same le rising = tt
Rising-le w v (u ∷ vs) same le (next, more, rising) =
    (SameTask-trans w v u same next, omega (arith, le, more), rising)

pub saved_of-Rising :
    (state : TaskState) (cs : List Change)
    → Linked state cs
    → Rising (task_snapshot state) (saved_of cs)
unfolding task_snapshot
saved_of-Rising state [] links = tt
saved_of-Rising state (c ∷ cs) ((r, i, h, t, n, live, fits, saved), links) =
    let rising = saved_of-Rising c.state cs links in
    elim saved [
      | inl now ↦ rw now ((i, h, t), omega (arith, r), rising)
      | inr (later, open_still) ↦ rw later (
          Rising-le (task_snapshot state) (task_snapshot c.state) (saved_of cs) (i, h, t)
            (omega (arith, r)) rising)
    ]

-- The last of them has the highest revision, and no other one has it.
pub Rising-last :
    (w : Snapshot) (vs : List Snapshot) (x : Snapshot)
    → Rising w vs
    → In x (w ∷ vs)
    → SameTask w x
      × (x.task.revision ≤ (last_saved w vs).task.revision)
      × (x.task.revision ≡ (last_saved w vs).task.revision → x ≡ last_saved w vs)
Rising-last w [] x rising (inl e) = rw e ((refl, refl, refl), omega arith, λ same. refl)
Rising-last w [] x rising (inr h) = absurd h
Rising-last w (v ∷ vs) x (same, more, rising) (inl e) =
    let (own, le, only) = Rising-last v vs v rising (inl refl) in
    rw e ((refl, refl, refl), omega (arith, more, le), λ h. absurd (omega (arith, more, le, h)))
Rising-last w (v ∷ vs) x (same, more, rising) (inr h) =
    let (own, le, only) = Rising-last v vs x rising h in (SameTask-trans w v x same own, le, only)

pub last_saved-In : (w : Snapshot) (vs : List Snapshot) → In (last_saved w vs) (w ∷ vs)
last_saved-In w [] = inl refl
last_saved-In w (v ∷ vs) = inr (last_saved-In v vs)
