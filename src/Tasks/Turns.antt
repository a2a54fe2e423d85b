-- ===== src/Tasks/Turns.antt =====
-- What a call means to one task (internal/service/tasks.go).
use mathlib.Core.Path.{subst}
use eino_ops_agent_enterpr1s.Base.{
  Option, none, some, Text, equal, equal_iff, equal_refl, ◌≡◌, ◌≢◌, ◌⊎◌, inl, inr, refl, sym, ap,
  ◌∙◌, Bool-cases,
}
use eino_ops_agent_enterpr1s.Tasks.{TaskState, Change}
use eino_ops_agent_enterpr1s.Tasks.Service.{TaskService, put, new_state, forget_task, open_task}
use eino_ops_agent_enterpr1s.Tasks.Changes.{IsNext}
use eino_ops_agent_enterpr1s.Tasks.Calls.{Call, opening, forgetting, perform, Keeps, Keyed}
use eino_ops_agent_enterpr1s.Tasks.Sections.{Touches, IsTableCall, section-Touches}

-- What a call means to the task `id`: its next change, or none, after which it may be out of the table.
abbrev pub Turn : Text → TaskService → TaskService × Option Change → Type 0
Turn id s after =
    (((after.0.tasks id ≡ s.tasks id) ⊎ (after.0.tasks id ≡ none))
      × ((c : Change) → after.1 ≡ some c → c.state.task.id ≢ id))
    ⊎ ((before : TaskState) × (c : Change) × (s.tasks id ≡ some before)
        × (after.0.tasks id ≡ some c.state)
        × (after.1 ≡ some c)
        × IsNext before c)

put-other :
    {A : Type 0} (key id : Text) (value : Option A) (table : Text → Option A)
    → key ≢ id
    → put key value table id ≡ table id
put-other key id value table apart = elim (Bool-cases (equal id key)) [
  | inl same ↦ absurd (apart (sym ((equal_iff id key).0 same)))
  | inr other ↦ rw other
]

pub put-same :
    {A : Type 0} (id : Text) (value : Option A) (table : Text → Option A)
    → put id value table id ≡ value
put-same id value table = rw (equal_refl id)

some-injective : {A : Type 0} {x y : A} → ◌≡◌ {A = Option A} (some x) (some y) → x ≡ y
some-injective e = cc

Touches-Turn :
    (id : Text) (s : TaskService) (after : TaskService × Option Change)
    → Keyed s
    → Touches s after
    → Turn id s after
Touches-Turn id s after keyed (inl (kept, nothing)) =
    inl (inl (ap (λ table. table id) kept), λ c made. absurd (apart c (sym nothing ∙ made)))
  where
    apart : (c : Change) → ◌≡◌ {A = Option Change} none (some c) → ⊥
    apart c e = cc
Touches-Turn id s after keyed (inr (key, before, c, found, placed, made, next)) =
    elim (Bool-cases (equal key id)) [
      | inl same ↦
          let e = (equal_iff key id).0 same in
          inr (
            before,
            c,
            subst (λ k. s.tasks k ≡ some before) e found,
            ap (λ table. table id) placed
                ∙ subst (λ k. put key (some c.state) s.tasks k ≡ some c.state) e
                    (put-same key (some c.state) s.tasks),
            made,
            next,
          )
      | inr other ↦
          let apart : key ≢ id = λ e. cc (sym other, (equal_iff key id).1 e) in
          inl (
            inl (ap (λ table. table id) placed ∙ put-other key id (some c.state) s.tasks apart),
            λ d made_d is_id. apart (
                sym (keyed key before found)
                ∙ sym next.1
                ∙ ap (λ (x : Change). x.state.task.id) (some-injective (sym made ∙ made_d))
                ∙ is_id),
          )
    ]

Touches-Keyed :
    (s : TaskService) (after : TaskService × Option Change)
    → Keyed s
    → Touches s after
    → Keyed after.0
Touches-Keyed s after keyed (inl (kept, nothing)) key state found =
    keyed key state (ap (λ table. table key) (sym kept) ∙ found)
Touches-Keyed s after keyed (inr (other, before, c, there, placed, made, next)) key state found =
    elim (Bool-cases (equal key other)) [
      | inl same ↦
          let e = (equal_iff key other).0 same in
          let is_c : state ≡ c.state =
            some-injective (sym found ∙ ap (λ table. table key) placed ∙ rw same refl) in
          ap (λ (x : TaskState). x.task.id) is_c ∙ next.1 ∙ keyed other before there ∙ sym e
      | inr apart ↦
          keyed key state (sym (rw apart refl) ∙ ap (λ table. table key) (sym placed) ∙ found)
    ]

no-change : (c : Change) → ◌≡◌ {A = Option Change} none (some c) → ⊥
no-change c e = cc

pub perform-Turn :
    (id : Text) (call : Call) (s : TaskService)
    → Keyed s
    → Keeps id call
    → Turn id s (perform call s)
unfolding perform open_task forget_task
perform-Turn id call s keyed keeps = elim (section-Touches call s) [
  | inl touches ↦ Touches-Turn id s (perform call s) keyed touches
  | inr is_table ↦ in_table call is_table keeps
]
  where
    in_table : (call : Call) → IsTableCall call → Keeps id call → Turn id s (perform call s)
    in_table (opening other session_id host_id now) h apart =
        inl (inl (put-other other id _ s.tasks apart), λ c e. absurd (no-change c e))
    in_table (forgetting other) h apart = elim (Bool-cases (equal id other)) [
      | inl same ↦ rw same (inl (inr refl, λ c e. absurd (no-change c e)))
      | inr different ↦ rw different (inl (inl refl, λ c e. absurd (no-change c e)))
    ]
    in_table _ h apart = absurd h

pub perform-Keyed : (call : Call) (s : TaskService) → Keyed s → Keyed (perform call s).0
unfolding perform open_task forget_task
perform-Keyed call s keyed = elim (section-Touches call s) [
  | inl touches ↦ Touches-Keyed s (perform call s) keyed touches
  | inr is_table ↦ in_table call is_table
]
  where
    gone : (x : TaskState) → ◌≡◌ {A = Option TaskState} none (some x) → ⊥
    gone x e = cc

    in_table : (call : Call) → IsTableCall call → Keyed (perform call s).0
    in_table (opening other session_id host_id now) h key state found =
        elim (Bool-cases (equal key other)) [
          | inl same ↦
              let is_new : state ≡ new_state other session_id host_id now =
                some-injective (sym found ∙ rw same refl) in
              ap (λ (x : TaskState). x.task.id) is_new ∙ sym ((equal_iff key other).0 same)
          | inr apart ↦ keyed key state (sym (rw apart refl) ∙ found)
        ]
    in_table (forgetting other) h key state found = elim (Bool-cases (equal key other)) [
      | inl same ↦ absurd (gone state (sym (rw same refl) ∙ found))
      | inr apart ↦ keyed key state (sym (rw apart refl) ∙ found)
    ]
    in_table _ h key state found = absurd h
