-- ===== src/Approvals/Consistency/Stops.antt =====
-- Stopping a session (`AbortAgentApprovalsForSession` of internal/store/approvals.go) keeps the tables
-- consistent.
use mathlib.Core.Path.{subst}
use eino_ops_agent_enterpr1s.Base.{
  Bool, true, false, List, [], ◌∷◌, Text, equal_iff, is_empty, ◌==◌, ◌≡◌, ◌⊎◌, inl, inr, refl, sym,
  ap, ◌∙◌, arith, Bool-cases, ok, >>=-eq-ok, guard->>=-ok, ok-injective,
}
use eino_ops_agent_enterpr1s.Approvals.{
  rejected, run_rejected, Approval, Run, Db, changed_while_stopped, update_where, count_where,
}
use eino_ops_agent_enterpr1s.Approvals.Pairs.{In, updated, count_where-In, In-update_where}
use eino_ops_agent_enterpr1s.Approvals.Store.{decide, close_run, awaits}
use eino_ops_agent_enterpr1s.Approvals.Sessions.{
  is_stoppable, abort_one, abort_each, abort_agent_approvals_for_session, unclaimed_of_session,
  filter_where, sort_by, insert_by, by_created_and_id,
}
use eino_ops_agent_enterpr1s.Approvals.Consistency.Updates.{updated-Fits, update_both-IsConsistent}
use eino_ops_agent_enterpr1s.Approvals.Consistency.Decisions.{IsDb, awaits-id}

-- The rows with the id of `a` have its run.
abbrev Known : List Approval → Approval → Type 0
Known approvals a = (b : Approval) → In b approvals → b.id ≡ a.id → b.run_id ≡ a.run_id

In-filter_where :
    {A : Type 0} (test : A → Bool) (x : A) (xs : List A) → In x (filter_where test xs) → In x xs
unfolding filter_where
In-filter_where test x [] h = h
In-filter_where test x (y ∷ xs) h = elim (Bool-cases (test y)) [
  | inl kept ↦ elim (rw kept at h) [
    | inl e ↦ inl e
    | inr later ↦ inr (In-filter_where test x xs later)
  ]
  | inr dropped ↦ inr (In-filter_where test x xs (rw dropped at h))
]

In-insert_by :
    {A : Type 0} (before : A → A → Bool) (x y : A) (xs : List A)
    → In x (insert_by before y xs)
    → (x ≡ y) ⊎ In x xs
unfolding insert_by
In-insert_by before x y [] h = h
In-insert_by before x y (z ∷ xs) h = elim (Bool-cases (before y z)) [
  | inl first ↦ rw first at h
  | inr behind ↦ elim (rw behind at h) [
    | inl e ↦ inr (inl e)
    | inr later ↦ elim (In-insert_by before x y xs later) [ inl e ↦ inl e | inr i ↦ inr (inr i) ]
  ]
]

In-sort_by :
    {A : Type 0} (before : A → A → Bool) (x : A) (xs : List A) → In x (sort_by before xs) → In x xs
unfolding sort_by
In-sort_by before x [] h = h
In-sort_by before x (y ∷ xs) h = elim (In-insert_by before x y (sort_by before xs) h) [
  | inl e ↦ inl e
  | inr later ↦ inr (In-sort_by before x xs later)
]

hit_one :
    {A : Type 0} (test : A → Bool) (xs : List A)
    → (count_where test xs == 1) ≡ true
    → (x : A) × In x xs × (test x ≡ true)
hit_one test xs h = count_where-In test xs (ground arith)

abort_one-IsConsistent :
    (reason now : Text) (a : Approval) (db : Db) {after : Db}
    → IsDb db
    → Known db.approvals a
    → abort_one reason now a db ≡ ok after
    → IsDb after × ((c : Approval) → Known db.approvals c → Known after.approvals c)
unfolding abort_one
abort_one-IsConsistent reason now a db v known h =
    let (_, h₁) =
      guard->>=-ok (count_where (is_stoppable a) db.approvals == 1) (changed_while_stopped a.id) _
        h in
    let (one_run, h₂) =
      guard->>=-ok (count_where (awaits a.run_id) db.runs == 1) (changed_while_stopped a.run_id) _
        h₁ in
    let (t, it, et) = hit_one (awaits a.run_id) db.runs one_run in
    (
      subst IsDb (ok-injective h₂) (
          update_both-IsConsistent v (is_stoppable a) (decide rejected reason now) (awaits a.run_id)
            (close_run run_rejected reason now) (λ b. refl) (λ b. refl) (λ r. refl)
            (λ b r ib ir e old.
              updated-Fits (is_stoppable a) (decide rejected reason now) (awaits a.run_id)
                (close_run run_rejected reason now) b r old
                (λ x y. absurd (missed t it et b r ib ir e x y)) (λ x y. (λ z. cc, λ z. cc))
                (λ x y. (λ z. cc, λ z. cc)))),
      λ c kept.
          subst (λ (z : Db). Known z.approvals c) (ok-injective h₂) (λ b ib e. keeps c kept b ib e),
    )
  where
    missed :
        (t : Run)
        → In t db.runs
        → awaits a.run_id t ≡ true
        → (b : Approval) (r : Run) → In b db.approvals
        → In r db.runs
        → r.id ≡ b.run_id
        → is_stoppable a b ≡ true
        → awaits a.run_id r ≡ false
        → ⊥
    missed t it et b r ib ir e x y =
        let is_a : b.id ≡ a.id = ground (arith, equal_iff b.id a.id) in
        let same : t ≡ r =
          v.run_keys t r it ir (awaits-id a.run_id t et ∙ sym (known b ib is_a) ∙ sym e) in
        cc (ap (awaits a.run_id) same, et, y)

    keeps :
        (c : Approval)
        → Known db.approvals c
        → Known (update_where (is_stoppable a) (decide rejected reason now) db.approvals) c
    keeps c kept b ib e =
        let (d, id, ed) =
          In-update_where (is_stoppable a) (decide rejected reason now) b db.approvals ib in
        let keys : ((updated (is_stoppable a) (decide rejected reason now) d).id ≡ d.id)
            × ((updated (is_stoppable a) (decide rejected reason now) d).run_id ≡ d.run_id) =
          elim (Bool-cases (is_stoppable a d)) [
            | inl x ↦ rw x (refl, refl)
            | inr x ↦ rw x (refl, refl)
          ] in
        ap (λ (z : Approval). z.run_id) ed
        ∙ keys.1
        ∙ kept d id (sym keys.0 ∙ ap (λ (z : Approval). z.id) (sym ed) ∙ e)

abort_each-IsConsistent :
    (reason now : Text) (selected : List Approval) (db : Db) {after : Db}
    → IsDb db
    → ((a : Approval) → In a selected → Known db.approvals a)
    → abort_each reason now selected db ≡ ok after
    → IsDb after
unfolding abort_each
abort_each-IsConsistent reason now [] db v known h = subst IsDb (ok-injective h) v
abort_each-IsConsistent reason now (a ∷ selected) db v known h =
    let (next, one, rest) = >>=-eq-ok (abort_one reason now a db) _ h in
    let (w, keeps) = abort_one-IsConsistent reason now a db v (known a (inl refl)) one in
    abort_each-IsConsistent reason now selected next w (λ c ic. keeps c (known c (inr ic))) rest

-- If the tables are consistent and `AbortAgentApprovalsForSession` succeeds, they are consistent
-- afterwards: each approval that it rejects has its run closed.
pub abort_session-IsConsistent :
    (session_id reason now : Text) (db : Db) {result : Db × List Approval}
    → IsDb db
    → abort_agent_approvals_for_session session_id reason now db ≡ ok result
    → IsDb result.0
unfolding abort_agent_approvals_for_session unclaimed_of_session
abort_session-IsConsistent session_id reason now db {result} v h =
    let selected = unclaimed_of_session session_id db in
    let (kept, each, e) = >>=-eq-ok (abort_each reason now selected db) _ h in
    let w =
      abort_each-IsConsistent reason now selected db v
        (λ a ia b ib same.
          ap (λ (z : Approval). z.run_id)
            (v.approval_keys b a ib
              (In-filter_where _ a db.approvals (In-sort_by by_created_and_id a _ ia)) (inl same)))
        each in
    elim (Bool-cases (is_empty selected)) [
      | inl none_left ↦
          subst (λ (z : Db × List Approval). IsDb z.0) (ok-injective (rw none_left at e)) w
      | inr some_left ↦
          subst (λ (z : Db × List Approval). IsDb z.0) (ok-injective (rw some_left at e)) w
    ]
