-- ===== src/Tasks/Durable.antt =====
-- The stored row of a task, whatever the order in which its snapshots arrive (internal/service/tasks.go,
-- internal/store/tasks.go).
use eino_ops_agent_enterpr1s.Base.{
  ◌≤◌, true, false, Option, some, List, [], ◌∷◌, All, In, Text, equal, equal_iff, leb, ◌≡◌, ◌↔◌,
  ◌⊎◌, inl, inr, refl, sym, ap, ◌∙◌, arith, Bool-cases,
}
use eino_ops_agent_enterpr1s.Tasks.{
  terminal_execution_status, Snapshot, TaskState, Change, task_snapshot,
}
use eino_ops_agent_enterpr1s.Tasks.Rows.{Row, row_of, on_conflict, upsert_task, find_row}
use eino_ops_agent_enterpr1s.Tasks.Service.{TaskService}
use eino_ops_agent_enterpr1s.Tasks.Calls.{Call, Keeps, Keyed}
use eino_ops_agent_enterpr1s.Tasks.Traces.{changes, Linked, last_state, changes-Linked}
use eino_ops_agent_enterpr1s.Tasks.Rising.{
  saved_of, last_saved, upsert_all, SameTask, Rising, saved_of-Rising, Rising-last, last_saved-In,
}

upsert_task-other :
    (x : Snapshot) (rows : List Row) (id : Text)
    → equal x.task.id id ≡ false
    → find_row id (upsert_task x rows) ≡ find_row id rows
unfolding upsert_task find_row row_of on_conflict
upsert_task-other x [] id apart = rw apart
upsert_task-other x (r ∷ rows) id apart = elim (Bool-cases (equal r.id x.task.id)) [
  | inr other ↦ rw other (elim (Bool-cases (equal r.id id)) [
    | inl found ↦ rw found
    | inr later ↦ rw later (upsert_task-other x rows id apart)
  ])
  | inl same ↦
      let e = (equal_iff r.id x.task.id).0 same in
      let old : equal r.id id ≡ false = ap (λ t. equal t id) e ∙ apart in
      elim (Bool-cases (leb r.revision x.task.revision)) [
        | inl newer ↦ rw (same, newer, old)
        | inr older ↦ rw (same, older, old)
      ]
]

on_conflict-id : (x : Snapshot) (r : Row) → (on_conflict x r).id ≡ r.id
unfolding on_conflict
on_conflict-id x r = elim (Bool-cases (leb r.revision x.task.revision)) [
  | inl newer ↦ rw newer
  | inr older ↦ rw older
]

upsert_task-own :
    (x : Snapshot) (rows : List Row) (id : Text) (r : Row)
    → x.task.id ≡ id
    → find_row id rows ≡ some r
    → find_row id (upsert_task x rows) ≡ some (on_conflict x r)
unfolding upsert_task find_row
upsert_task-own x [] id r own found = cc
upsert_task-own x (s ∷ rows) id r own found = elim (Bool-cases (equal s.id id)) [
  | inl here ↦
      let same : equal s.id x.task.id ≡ true = ap (equal s.id) own ∙ here in
      let kept : equal (on_conflict x s).id id ≡ true =
        ap (λ t. equal t id) (on_conflict-id x s) ∙ here in
      rw (same, kept) (ap (λ t. some (on_conflict x t)) (same-some (sym (rw here refl) ∙ found)))
  | inr later ↦
      let other : equal s.id x.task.id ≡ false = ap (equal s.id) own ∙ later in
      rw (other, later) (upsert_task-own x rows id r own (sym (rw later refl) ∙ found))
]
  where
    same-some : {a b : Row} → ◌≡◌ {A = Option Row} (some a) (some b) → a ≡ b
    same-some e = cc

-- Of two snapshots of a task, the row keeps the one with the higher revision.
on_conflict-row_of :
    (x cur : Snapshot)
    → SameTask cur x
    → (on_conflict x (row_of cur) ≡ row_of x) × (cur.task.revision ≤ x.task.revision)
      ⊎ (on_conflict x (row_of cur) ≡ row_of cur) × (x.task.revision ≤ cur.task.revision)
unfolding on_conflict row_of
on_conflict-row_of x cur (i, h, t) = elim (Bool-cases (leb cur.task.revision x.task.revision)) [
  | inl newer ↦ rw newer (inl (rw (i, h, t) refl, ground arith))
  | inr older ↦ rw older (inr (refl, ground arith))
]

upsert_all-row_of :
    (id : Text) (first : Snapshot) (vs ws : List Snapshot) (rows : List Row) (cur : Snapshot)
    → first.task.id ≡ id
    → Rising first vs
    → ((w : Snapshot) → w.task.id ≡ id → In w ws → In w (first ∷ vs))
    → In cur (first ∷ vs)
    → find_row id rows ≡ some (row_of cur)
    → (final : Snapshot) × In final (first ∷ vs)
      × (find_row id (upsert_all ws rows) ≡ some (row_of final))
      × (cur.task.revision ≤ final.task.revision)
      × ((w : Snapshot) → w.task.id ≡ id → In w ws → w.task.revision ≤ final.task.revision)
upsert_all-row_of id first vs [] rows cur is_id rising known among found =
    (cur, among, found, omega arith, λ w own h. absurd h)
upsert_all-row_of id first vs (x ∷ ws) rows cur is_id rising known among found =
    let known_later : (w : Snapshot) → w.task.id ≡ id → In w ws → In w (first ∷ vs) =
      λ w own h. known w own (inr h) in
    let same : SameTask first cur = (Rising-last first vs cur rising among).0 in
    elim (Bool-cases (equal x.task.id id)) [
      | inr other ↦
          let (final, there, stored, le, all) =
            upsert_all-row_of id first vs ws (upsert_task x rows) cur is_id rising known_later among
              (upsert_task-other x rows id other ∙ found) in
          (
            final,
            there,
            stored,
            le,
            λ w own h. elim h [
              | inl e ↦ absurd (
                  cc (
                    sym other,
                    (equal_iff x.task.id id).1 (ap (λ (v : Snapshot). v.task.id) (sym e) ∙ own),
                  ))
              | inr later ↦ all w own later
            ],
          )
      | inl mine ↦
          let own_x = (equal_iff x.task.id id).0 mine in
          let here = known x own_x (inl refl) in
          let (ix, hx, tx) = (Rising-last first vs x rising here).0 in
          let written = upsert_task-own x rows id (row_of cur) own_x found in
          elim (on_conflict-row_of x cur (ix ∙ sym same.0, hx ∙ sym same.1, tx ∙ sym same.2)) [
            | inl (newer, le_x) ↦
                let (final, there, stored, le, all) =
                  upsert_all-row_of id first vs ws (upsert_task x rows) x is_id rising known_later
                    here (written ∙ ap some newer) in
                (
                  final,
                  there,
                  stored,
                  omega (arith, le_x, le),
                  λ w own h. elim h [
                    | inl e ↦ omega (arith, ap (λ (v : Snapshot). v.task.revision) e, le)
                    | inr later ↦ all w own later
                  ],
                )
            | inr (older, le_x) ↦
                let (final, there, stored, le, all) =
                  upsert_all-row_of id first vs ws (upsert_task x rows) cur is_id rising known_later
                    among (written ∙ ap some older) in
                (
                  final,
                  there,
                  stored,
                  le,
                  λ w own h. elim h [
                    | inl e ↦ omega (arith, ap (λ (v : Snapshot). v.task.revision) e, le_x, le)
                    | inr later ↦ all w own later
                  ],
                )
          ]
    ]

-- The end of a task is stored: its last snapshot is not left for later.
last_saved-over :
    (state : TaskState) (c : Change) (cs : List Change) (w : Snapshot)
    → Linked state (c ∷ cs)
    → terminal_execution_status (last_state c.state cs).task.status ≡ true
    → last_saved w (saved_of (c ∷ cs)) ≡ task_snapshot (last_state c.state cs)
last_saved-over state c [] w ((r, i, h, t, n, live, fits, saved), links) over = elim saved [
  | inl now ↦ rw now
  | inr (later, open_still) ↦ cc
]
last_saved-over state c (d ∷ cs) w ((r, i, h, t, n, live, fits, saved), links) over = elim saved [
  | inl now ↦ rw now (last_saved-over c.state d cs (task_snapshot c.state) links over)
  | inr (later, open_still) ↦ rw later (last_saved-over c.state d cs w links over)
]

-- The row of a task holds the snapshot that was stored last in the order of the changes, in whatever order, and
-- however often, its snapshots arrive at the table, between those of other tasks; all of them must arrive, and
-- before them the row is that of the state. If the task is over, this is the snapshot of its last state.
pub upsert_all-last_saved :
    (id : Text) (calls : List Call) (s : TaskService) (state : TaskState) (rows : List Row)
    (ws : List Snapshot)
    → Keyed s
    → All (Keeps id) calls
    → s.tasks id ≡ some state
    → find_row id rows ≡ some (row_of (task_snapshot state))
    → ((w : Snapshot) → w.task.id ≡ id → In w ws ↔ In w (saved_of (changes id calls s)))
    → let last = last_saved (task_snapshot state) (saved_of (changes id calls s)) in
      (find_row id (upsert_all ws rows) ≡ some (row_of last))
      × ((terminal_execution_status (last_state state (changes id calls s)).task.status ≡ false)
          ⊎ (last ≡ task_snapshot (last_state state (changes id calls s))))
unfolding task_snapshot
upsert_all-last_saved id calls s state rows ws keyed keeps found stored arrive =
    let cs = changes id calls s in
    let first = task_snapshot state in
    let vs = saved_of cs in
    let links = (changes-Linked id calls s state keyed keeps found).0 in
    let rising = saved_of-Rising state cs links in
    let own : first.task.id ≡ id = keyed id state found in
    let (final, among, kept, le, all) =
      upsert_all-row_of id first vs ws rows first own rising
        (λ w is_id h. inr ((arrive w is_id).0 h)) (inl refl) stored in
    let (same, top, only) = Rising-last first vs final rising among in
    let (last_own, last_le, last_only) =
      Rising-last first vs (last_saved first vs) rising (last_saved-In first vs) in
    let reached : (last_saved first vs).task.revision ≤ final.task.revision =
      elim (last_saved-In first vs) [
        | inl e ↦ omega (arith, ap (λ (v : Snapshot). v.task.revision) e, le)
        | inr later ↦
            all (last_saved first vs) (last_own.0 ∙ own)
              ((arrive (last_saved first vs) (last_own.0 ∙ own)).1 later)
      ] in
    (kept ∙ ap (λ w. some (row_of w)) (only (omega (arith, top, reached))), over cs links)
  where
    over :
        (cs : List Change)
        → Linked state cs
        → (terminal_execution_status (last_state state cs).task.status ≡ false)
          ⊎ (last_saved (task_snapshot state) (saved_of cs) ≡ task_snapshot (last_state state cs))
    over [] links = inr refl
    over (c ∷ cs) links =
        elim (Bool-cases (terminal_execution_status (last_state c.state cs).task.status)) [
          | inl ended ↦ inr (last_saved-over state c cs (task_snapshot state) links ended)
          | inr live ↦ inl live
        ]
