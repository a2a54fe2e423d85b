-- ===== src/ApprovalService/Explained.antt =====
-- What a call of the service does to the tables, as a sequence of calls of the store.
use mathlib.Core.Path.{subst}
use eino_ops_agent_enterpr1s.Base.{
  ◌⊎◌, suc, ℕ, ◌+◌, ◌≤◌, Bool, true, false, List, [], ◌∷◌, ◌++◌, All, Text, equal, is_empty,
  if◌then◌else◌, Result, ok, err, ◌≡◌, inl, inr, refl, sym, ap, ◌∙◌, arith, Bool-cases,
  Result-cases,
}
use eino_ops_agent_enterpr1s.Approvals.{Db, StoreError, is_awaiting}
use eino_ops_agent_enterpr1s.Approvals.Calls.{
  Op, creating_run, creating_approval, activating, deciding, claiming, rejecting, approving,
  explaining, reviewing, writing, interrupting, recovering, stopping, deleting_audit, deleting_host,
  deleting_session, perform, starts, outcome_of, performed, performed-ok, performed-err,
  count_starts,
}
use eino_ops_agent_enterpr1s.Approvals.Settled.{IsOutcome, NotCreating, Settled, perform-Settled}
use eino_ops_agent_enterpr1s.Approvals.Once.{start-Settled, not_started-Settled}
use eino_ops_agent_enterpr1s.Approvals.Store.{update_run_ai_review}
use eino_ops_agent_enterpr1s.ApprovalService.{
  ServiceState, Fault, Answer, executes, member, cancel_approval_explanation,
}

abbrev pub after_ops : List Op → Db → Db
after_ops [] db = db
after_ops (op ∷ ops) db = after_ops ops (outcome_of db false (perform op db)).0

-- How often the run is executed by a call with this answer.
abbrev pub executed : Text → Result Fault Answer → ℕ
executed id (ok (executes run)) = if equal run.id id then 1 else 0
executed id _ = 0

-- A call of the store that a decision makes: `UpdateRun` writes an outcome, and no run is created.
abbrev pub IsDecision : Op → Type 0
IsDecision (creating_run r) = ⊥
IsDecision (writing r) = is_awaiting r.status ≡ false
IsDecision _ = Unit

-- The tables change as by calls of the store, which start each run at least as often as it is counted.
abbrev pub Explained : (Text → ℕ) → Db → Db → Type 0
Explained count before after =
    (ops : List Op) × All IsDecision ops
    × (after_ops ops before ≡ after)
    × ((id : Text) → count id ≤ count_starts id ops before)

abbrev pub none_started : Text → ℕ
none_started id = 0

pub Explained-refl : (db : Db) → Explained none_started db db
Explained-refl db = ([], tt, refl, λ id. omega arith)

outcome_of-db :
    (start : Bool) (db : Db) (r : Result StoreError Db)
    → (outcome_of db start r).0 ≡ (outcome_of db false r).0
outcome_of-db start db (ok a) = refl
outcome_of-db start db (err e) = refl

count_starts-append :
    (id : Text) (xs ys : List Op) (db : Db)
    → count_starts id (xs ++ ys) db ≡ count_starts id xs db + count_starts id ys (after_ops xs db)
unfolding count_starts performed
count_starts-append id [] ys db = omega arith
count_starts-append id (op ∷ xs) ys db =
    let rest = count_starts-append id xs ys (outcome_of db (starts id op) (perform op db)).0 in
    let place = outcome_of-db (starts id op) db (perform op db) in
    let rest_at =
      subst
        (λ t.
          count_starts id (xs ++ ys) (outcome_of db (starts id op) (perform op db)).0
          ≡ count_starts id xs (outcome_of db (starts id op) (perform op db)).0
            + count_starts id ys (after_ops xs t))
        place rest in
    elim (Bool-cases (outcome_of db (starts id op) (perform op db)).1) [
      | inl start ↦ rw start (omega (arith, rest_at))
      | inr other ↦ rw other rest_at
    ]

after_ops-append :
    (xs ys : List Op) (db : Db) → after_ops (xs ++ ys) db ≡ after_ops ys (after_ops xs db)
after_ops-append [] ys db = refl
after_ops-append (op ∷ xs) ys db = after_ops-append xs ys (outcome_of db false (perform op db)).0

All-append : (xs ys : List Op) → All IsDecision xs → All IsDecision ys → All IsDecision (xs ++ ys)
All-append [] ys h k = k
All-append (op ∷ xs) ys (h, hs) k = (h, All-append xs ys hs k)

pub Explained-trans :
    (f g : Text → ℕ) (a b c : Db)
    → Explained f a b
    → Explained g b c
    → Explained (λ id. f id + g id) a c
Explained-trans f g a b c (xs, fine, first, le) (ys, fine_too, second, le_too) = (
  xs ++ ys,
  All-append xs ys fine fine_too,
  after_ops-append xs ys a ∙ ap (after_ops ys) first ∙ second,
  λ id.
      omega
        (arith, le id, count_starts-append id xs ys a, ap (count_starts id ys) first, le_too id),
)

pub Explained-le :
    (f g : Text → ℕ) (a b : Db) → ((id : Text) → f id ≤ g id) → Explained g a b → Explained f a b
Explained-le f g a b h (ops, fine, same, le) = (ops, fine, same, λ id. omega (arith, h id, le id))

-- One call of the store that succeeds.
pub Explained-op :
    (op : Op) (before after : Db)
    → IsDecision op
    → perform op before ≡ ok after
    → Explained (λ id. if starts id op then 1 else 0) before after
unfolding count_starts performed
Explained-op op before after fine h = (
  op ∷ [],
  (fine, tt),
  ap (λ r. (outcome_of before false r).0) h,
  λ id. elim (Bool-cases (starts id op)) [
    | inl start ↦ rw (start, h) (omega arith)
    | inr other ↦ rw other (omega arith)
  ],
)

pub cancel_approval_explanation-Explained :
    (approval_id run_id : Text) (s : ServiceState)
    → Explained none_started s.db (cancel_approval_explanation approval_id run_id s).db
unfolding cancel_approval_explanation perform
cancel_approval_explanation-Explained approval_id run_id s =
    elim (Bool-cases (member approval_id s.explanation_active)) [
      | inr absent ↦ rw absent (Explained-refl s.db)
      | inl active ↦ elim (Bool-cases (is_empty run_id)) [
        | inl no_run ↦ rw (active, no_run) (Explained-refl s.db)
        | inr a_run ↦ elim (Result-cases (update_run_ai_review run_id [] s.db)) [
          | inr (e, failed) ↦ rw (active, a_run, failed) (Explained-refl s.db)
          | inl (db, done) ↦
              rw (active, a_run, done)
                (Explained-le none_started _ s.db db (λ id. omega arith)
                  (Explained-op (reviewing run_id []) s.db db tt done))
        ]
      ]
    ]

decision-IsOutcome : (op : Op) → IsDecision op → IsOutcome op
decision-IsOutcome (creating_run r) d = absurd d
decision-IsOutcome (writing r) d = d
decision-IsOutcome (creating_approval a b) d = tt
decision-IsOutcome (activating a b) d = tt
decision-IsOutcome (deciding a b c e) d = tt
decision-IsOutcome (claiming a b) d = tt
decision-IsOutcome (rejecting a b c e) d = tt
decision-IsOutcome (approving a b c e) d = tt
decision-IsOutcome (explaining a b c) d = tt
decision-IsOutcome (reviewing a b) d = tt
decision-IsOutcome (interrupting a b) d = tt
decision-IsOutcome (recovering a b) d = tt
decision-IsOutcome (stopping a b c) d = tt
decision-IsOutcome (deleting_audit a b) d = tt
decision-IsOutcome (deleting_host a) d = tt
decision-IsOutcome (deleting_session a b) d = tt

decision-NotCreating : (id : Text) (op : Op) → IsDecision op → NotCreating id op
decision-NotCreating id (creating_run r) d = absurd d
decision-NotCreating id (writing r) d = tt
decision-NotCreating id (creating_approval a b) d = tt
decision-NotCreating id (activating a b) d = tt
decision-NotCreating id (deciding a b c e) d = tt
decision-NotCreating id (claiming a b) d = tt
decision-NotCreating id (rejecting a b c e) d = tt
decision-NotCreating id (approving a b c e) d = tt
decision-NotCreating id (explaining a b c) d = tt
decision-NotCreating id (reviewing a b) d = tt
decision-NotCreating id (interrupting a b) d = tt
decision-NotCreating id (recovering a b) d = tt
decision-NotCreating id (stopping a b c) d = tt
decision-NotCreating id (deleting_audit a b) d = tt
decision-NotCreating id (deleting_host a) d = tt
decision-NotCreating id (deleting_session a b) d = tt

unstarted :
    (id : Text) (op : Op) (ops : List Op) (db : Db) {after : Db}
    → perform op db ≡ ok after
    → starts id op ≡ false
    → count_starts id (op ∷ ops) db ≡ count_starts id ops after
unfolding count_starts
unstarted id op ops db done other = rw (performed-ok id op db done, other)

not_performed :
    (id : Text) (op : Op) (ops : List Op) (db : Db) {e : StoreError}
    → perform op db ≡ err e
    → count_starts id (op ∷ ops) db ≡ count_starts id ops db
unfolding count_starts
not_performed id op ops db failed = rw (performed-err id op db failed)

started_once :
    (id : Text) (op : Op) (ops : List Op) (db : Db) {after : Db}
    → perform op db ≡ ok after
    → starts id op ≡ true
    → count_starts id (op ∷ ops) db ≡ suc (count_starts id ops after)
unfolding count_starts
started_once id op ops db done start = rw (performed-ok id op db done, start)

after_done :
    (id : Text) (op : Op) (ops : List Op) (db : Db) {result : Result StoreError Db}
    → perform op db ≡ result
    → Settled id (after_ops ops (outcome_of db false result).0).runs
    → Settled id (after_ops (op ∷ ops) db).runs
after_done id op ops db done settled =
    subst
      (λ (result : Result StoreError Db).
        Settled id (after_ops ops (outcome_of db false result).0).runs)
      (sym done) settled

-- A run that is settled stays so, and is not started.
after_ops-Settled :
    (id : Text) (ops : List Op) (db : Db)
    → All IsDecision ops
    → Settled id db.runs
    → (count_starts id ops db ≡ 0) × Settled id (after_ops ops db).runs
unfolding count_starts
after_ops-Settled id [] db fine settled = (refl, settled)
after_ops-Settled id (op ∷ ops) db (d, fine) settled = elim (Result-cases (perform op db)) [
  | inr (e, failed) ↦
      let (none_more, still) = after_ops-Settled id ops db fine settled in
      (not_performed id op ops db failed ∙ none_more, after_done id op ops db failed still)
  | inl (after, done) ↦ elim (Bool-cases (starts id op)) [
    | inl start ↦ absurd (not_started-Settled id op db start done settled)
    | inr other ↦
        let (none_more, still) = after_ops-Settled id ops after fine (
          perform-Settled id op db (decision-IsOutcome op d) (decision-NotCreating id op d) done
            settled) in
        (unstarted id op ops db done other ∙ none_more, after_done id op ops db done still)
  ]
]

-- Calls of the store that create no run start a run at most once, and leave it settled if they do.
after_ops-once :
    (id : Text) (ops : List Op) (db : Db)
    → All IsDecision ops
    → (count_starts id ops db ≡ 0)
      ⊎ ((count_starts id ops db ≡ 1) × Settled id (after_ops ops db).runs)
unfolding count_starts
after_ops-once id [] db fine = inl refl
after_ops-once id (op ∷ ops) db (d, fine) = elim (Result-cases (perform op db)) [
  | inr (e, failed) ↦ elim (after_ops-once id ops db fine) [
    | inl none ↦ inl (not_performed id op ops db failed ∙ none)
    | inr (one, settled) ↦
        inr (not_performed id op ops db failed ∙ one, after_done id op ops db failed settled)
  ]
  | inl (after, done) ↦ elim (Bool-cases (starts id op)) [
    | inl start ↦
        let (none_more, settled) =
          after_ops-Settled id ops after fine (start-Settled id op db start done) in
        inr (
          started_once id op ops db done start ∙ ap suc none_more,
          after_done id op ops db done settled,
        )
    | inr other ↦ elim (after_ops-once id ops after fine) [
      | inl none ↦ inl (unstarted id op ops db done other ∙ none)
      | inr (one, settled) ↦
          inr (unstarted id op ops db done other ∙ one, after_done id op ops db done settled)
    ]
  ]
]

-- What a call of the service does to one run.
pub Explained-Settled :
    (count : Text → ℕ) (before after : Db) (id : Text)
    → Explained count before after
    → Settled id before.runs
    → (count id ≡ 0) × Settled id after.runs
Explained-Settled count before after id (ops, fine, same, le) settled =
    let (no_start, still) = after_ops-Settled id ops before fine settled in
    (omega (arith, le id, no_start), subst (λ (db : Db). Settled id db.runs) same still)

pub Explained-once :
    (count : Text → ℕ) (before after : Db) (id : Text)
    → Explained count before after
    → (count id ≡ 0) ⊎ ((count id ≤ 1) × Settled id after.runs)
Explained-once count before after id (ops, fine, same, le) =
    elim (after_ops-once id ops before fine) [
      | inl no_start ↦ inl (omega (arith, le id, no_start))
      | inr (one, settled) ↦
          inr (omega (arith, le id, one), subst (λ (db : Db). Settled id db.runs) same settled)
    ]
