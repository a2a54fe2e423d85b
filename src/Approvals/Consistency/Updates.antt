-- ===== src/Approvals/Consistency/Updates.antt =====
-- Updates of the tables of approvals and runs by `UPDATE … WHERE`, and insertions into them.
use mathlib.Core.Path.{subst}
use eino_ops_agent_enterpr1s.Base.{
  Bool, true, false, List, [], ◌∷◌, ◌++◌, Text, equal, equal_iff, ◌||◌, ◌≡◌, ◌⊎◌, inl, inr, refl,
  sym, ap, ◌∙◌, arith, Bool-cases,
}
use eino_ops_agent_enterpr1s.Approvals.{Approval, Run, update_where, exists_where}
use eino_ops_agent_enterpr1s.Approvals.Pairs.{
  In, updated, In-update_where, update_where-In, In-snoc, append-In, exists_where-In,
  exists_where-none,
}
use eino_ops_agent_enterpr1s.Approvals.Consistency.{Fits, IsConsistent, images-IsConsistent}

updated_key :
    {A : Type 0} (key : A → Text) (test : A → Bool) (change : A → A)
    → ((x : A) → key (change x) ≡ key x)
    → (x : A) → key (updated test change x) ≡ key x
updated_key key test change h x = elim (Bool-cases (test x)) [
  | inl hit ↦ rw hit (h x)
  | inr miss ↦ rw miss
]

-- Where a test fails the row stays, and where it holds the row is changed.
pub updated-Fits :
    (ta : Approval → Bool) (ca : Approval → Approval) (tr : Run → Bool) (cr : Run → Run)
    (a : Approval) (r : Run)
    → Fits a.status r.status
    → (ta a ≡ true → tr r ≡ false → Fits (ca a).status r.status)
    → (ta a ≡ false → tr r ≡ true → Fits a.status (cr r).status)
    → (ta a ≡ true → tr r ≡ true → Fits (ca a).status (cr r).status)
    → Fits (updated ta ca a).status (updated tr cr r).status
updated-Fits ta ca tr cr a r old one two both = elim (Bool-cases (ta a)) [
  | inl x ↦ elim (Bool-cases (tr r)) [ inl y ↦ rw (x, y) (both x y) | inr y ↦ rw (x, y) (one x y) ]
  | inr x ↦ elim (Bool-cases (tr r)) [ inl y ↦ rw (x, y) (two x y) | inr y ↦ rw (x, y) old ]
]

module _ {approvals : List Approval} {runs : List Run} (h : IsConsistent approvals runs) where
  pub update_both-IsConsistent :
      (ta : Approval → Bool) (ca : Approval → Approval) (tr : Run → Bool) (cr : Run → Run)
      → ((a : Approval) → (ca a).id ≡ a.id)
      → ((a : Approval) → (ca a).run_id ≡ a.run_id)
      → ((r : Run) → (cr r).id ≡ r.id)
      → ((a : Approval) (r : Run)
          → In a approvals
          → In r runs
          → r.id ≡ a.run_id
          → Fits a.status r.status
          → Fits (updated ta ca a).status (updated tr cr r).status)
      → IsConsistent (update_where ta ca approvals) (update_where tr cr runs)
  update_both-IsConsistent ta ca tr cr ka kr k still =
      images-IsConsistent approvals runs h (updated ta ca) (updated tr cr)
        (updated_key (λ (a : Approval). a.id) ta ca ka)
        (updated_key (λ (a : Approval). a.run_id) ta ca kr)
        (updated_key (λ (r : Run). r.id) tr cr k) (update_where ta ca approvals)
        (update_where tr cr runs) (λ b ib. In-update_where ta ca b approvals ib)
        (λ s is. In-update_where tr cr s runs is) (λ r ir. update_where-In tr cr r runs ir) still

  pub update_runs-IsConsistent :
      (tr : Run → Bool) (cr : Run → Run)
      → ((r : Run) → (cr r).id ≡ r.id)
      → ((a : Approval) (r : Run)
          → In a approvals
          → In r runs
          → r.id ≡ a.run_id
          → tr r ≡ true
          → Fits a.status r.status
          → Fits a.status (cr r).status)
      → IsConsistent approvals (update_where tr cr runs)
  update_runs-IsConsistent tr cr k still =
      images-IsConsistent approvals runs h (λ a. a) (updated tr cr) (λ a. refl) (λ a. refl)
        (updated_key (λ (r : Run). r.id) tr cr k) approvals (update_where tr cr runs)
        (λ b ib. (b, ib, refl)) (λ s is. In-update_where tr cr s runs is)
        (λ r ir. update_where-In tr cr r runs ir)
        (λ a r ia ir e old. elim (Bool-cases (tr r)) [
          | inl hit ↦ rw hit (still a r ia ir e hit old)
          | inr miss ↦ rw miss old
        ])

  pub update_approvals-IsConsistent :
      (ta : Approval → Bool) (ca : Approval → Approval)
      → ((a : Approval) → (ca a).id ≡ a.id)
      → ((a : Approval) → (ca a).run_id ≡ a.run_id)
      → ((a : Approval) (r : Run)
          → In a approvals
          → In r runs
          → r.id ≡ a.run_id
          → ta a ≡ true
          → Fits a.status r.status
          → Fits (ca a).status r.status)
      → IsConsistent (update_where ta ca approvals) runs
  update_approvals-IsConsistent ta ca ka kr still =
      images-IsConsistent approvals runs h (updated ta ca) (λ r. r)
        (updated_key (λ (a : Approval). a.id) ta ca ka)
        (updated_key (λ (a : Approval). a.run_id) ta ca kr) (λ r. refl)
        (update_where ta ca approvals) runs (λ b ib. In-update_where ta ca b approvals ib)
        (λ s is. (s, is, refl)) (λ r ir. ir)
        (λ a r ia ir e old. elim (Bool-cases (ta a)) [
          | inl hit ↦ rw hit (still a r ia ir e hit old)
          | inr miss ↦ rw miss old
        ])

  -- A run with a new id has no approval yet.
  pub insert_run-IsConsistent :
      (r : Run)
      → exists_where (λ (s : Run). equal s.id r.id) runs ≡ false
      → IsConsistent approvals (runs ++ r ∷ [])
  insert_run-IsConsistent r fresh = record {
    approval_keys = h.approval_keys;
    run_keys = λ s t is it e. keys s t (In-snoc s runs r is) (In-snoc t runs r it) e;
    refs = λ a ia. let (s, is, e) = h.refs a ia in (s, append-In s runs (r ∷ []) (inl is), e);
    fits = λ a s ia is e. fit a s ia (In-snoc s runs r is) e;
  }
    where
      other : (s : Run) → In s runs → s.id ≡ r.id → ⊥
      other s is e = cc (
        exists_where-none (λ (s : Run). equal s.id r.id) s runs fresh is,
        (equal_iff s.id r.id).1 e,
      )

      keys : (s t : Run) → In s runs ⊎ (s ≡ r) → In t runs ⊎ (t ≡ r) → s.id ≡ t.id → s ≡ t
      keys s t (inl is) (inl it) e = h.run_keys s t is it e
      keys s t (inl is) (inr et) e = absurd (other s is (e ∙ ap (λ (x : Run). x.id) et))
      keys s t (inr es) (inl it) e = absurd (other t it (sym e ∙ ap (λ (x : Run). x.id) es))
      keys s t (inr es) (inr et) e = es ∙ sym et

      fit :
          (a : Approval) (s : Run)
          → In a approvals
          → In s runs ⊎ (s ≡ r)
          → s.id ≡ a.run_id
          → Fits a.status s.status
      fit a s ia (inl is) e = h.fits a s ia is e
      fit a s ia (inr es) e =
          let (t, it, et) = h.refs a ia in
          absurd (other t it (et ∙ sym e ∙ ap (λ (x : Run). x.id) es))

  -- An approval with a new id for a run that has none and is not executing.
  pub insert_approval-IsConsistent :
      (a : Approval)
      → exists_where (λ (b : Approval). equal b.id a.id || equal b.run_id a.run_id) approvals
        ≡ false
      → exists_where (λ (r : Run). equal r.id a.run_id) runs ≡ true
      → ((r : Run) → In r runs → r.id ≡ a.run_id → Fits a.status r.status)
      → IsConsistent (approvals ++ a ∷ []) runs
  insert_approval-IsConsistent a fresh linked fits = record {
    approval_keys = λ b c ib ic e. keys b c (In-snoc b approvals a ib) (In-snoc c approvals a ic) e;
    run_keys = h.run_keys;
    refs = λ b ib. ref b (In-snoc b approvals a ib);
    fits = λ b r ib ir e. fit b r (In-snoc b approvals a ib) ir e;
  }
    where
      other : (b : Approval) → In b approvals → (b.id ≡ a.id) ⊎ (b.run_id ≡ a.run_id) → ⊥
      other b ib e =
          let apart =
            exists_where-none (λ (b : Approval). equal b.id a.id || equal b.run_id a.run_id) b
              approvals fresh ib in
          elim e [
            | inl i ↦ ground (arith, apart, (equal_iff b.id a.id).1 i)
            | inr r ↦ ground (arith, apart, (equal_iff b.run_id a.run_id).1 r)
          ]

      flip :
          (b c : Approval)
          → (b.id ≡ c.id) ⊎ (b.run_id ≡ c.run_id)
          → (c.id ≡ b.id) ⊎ (c.run_id ≡ b.run_id)
      flip b c (inl i) = inl (sym i)
      flip b c (inr r) = inr (sym r)

      keys :
          (b c : Approval)
          → In b approvals ⊎ (b ≡ a)
          → In c approvals ⊎ (c ≡ a)
          → (b.id ≡ c.id) ⊎ (b.run_id ≡ c.run_id)
          → b ≡ c
      keys b c (inl ib) (inl ic) e = h.approval_keys b c ib ic e
      keys b c (inl ib) (inr ec) e =
          absurd (other b ib (subst (λ x. (b.id ≡ x.id) ⊎ (b.run_id ≡ x.run_id)) ec e))
      keys b c (inr eb) (inl ic) e =
          absurd (other c ic (subst (λ x. (c.id ≡ x.id) ⊎ (c.run_id ≡ x.run_id)) eb (flip b c e)))
      keys b c (inr eb) (inr ec) e = eb ∙ sym ec

      ref : (b : Approval) → In b approvals ⊎ (b ≡ a) → (r : Run) × In r runs × (r.id ≡ b.run_id)
      ref b (inl ib) = h.refs b ib
      ref b (inr eb) =
          let (r, ir, e) = exists_where-In (λ (r : Run). equal r.id a.run_id) runs linked in
          (r, ir, (equal_iff r.id a.run_id).0 e ∙ sym (ap (λ (x : Approval). x.run_id) eb))

      fit :
          (b : Approval) (r : Run)
          → In b approvals ⊎ (b ≡ a)
          → In r runs
          → r.id ≡ b.run_id
          → Fits b.status r.status
      fit b r (inl ib) ir e = h.fits b r ib ir e
      fit b r (inr eb) ir e =
          subst (λ (x : Approval). Fits x.status r.status) (sym eb)
            (fits r ir (e ∙ ap (λ (x : Approval). x.run_id) eb))
