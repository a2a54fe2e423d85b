-- ===== src/Approvals/Pairs.antt =====
-- What an update by the statements of internal/store leaves of the rows of a table.
use eino_ops_agent_enterpr1s.Base.{
  Option, ◌∙◌, ap, Bool, true, false, not, List, [], ◌∷◌, ◌++◌, some, if◌then◌else◌, ◌==◌,
  Bool-cases, ◌≡◌, ◌⊎◌, inl, inr, refl, sym, arith,
}
use mathlib.Core.Path.{subst}
use eino_ops_agent_enterpr1s.Approvals.{update_where, count_where, exists_where, find_where}
pub use eino_ops_agent_enterpr1s.Base.{In}

module _ {A : Type 0} where
  abbrev pub updated : (A → Bool) → (A → A) → A → A
  updated test change x = if test x then change x else x

  pub In-update_where :
      (test : A → Bool) (change : A → A) (y : A) (xs : List A)
      → In y (update_where test change xs)
      → (x : A) × In x xs × (y ≡ updated test change x)
  unfolding update_where
  In-update_where test change y [] h = absurd h
  In-update_where test change y (x ∷ xs) h = elim h [
    | inl e ↦ (x, inl refl, e)
    | inr later ↦ let (z, there, e) = In-update_where test change y xs later in (z, inr there, e)
  ]

  pub update_where-In :
      (test : A → Bool) (change : A → A) (x : A) (xs : List A)
      → In x xs
      → In (updated test change x) (update_where test change xs)
  unfolding update_where
  update_where-In test change x [] h = absurd h
  update_where-In test change x (y ∷ xs) h = elim h [
    | inl e ↦ inl (subst (λ z. updated test change x ≡ updated test change z) e refl)
    | inr later ↦ inr (update_where-In test change x xs later)
  ]

  pub In-append : (y : A) (xs ys : List A) → In y (xs ++ ys) → In y xs ⊎ In y ys
  In-append y [] ys h = inr h
  In-append y (x ∷ xs) ys h = elim h [
    | inl e ↦ inl (inl e)
    | inr later ↦ elim (In-append y xs ys later) [ inl l ↦ inl (inr l) | inr r ↦ inr r ]
  ]

  pub In-snoc : (y : A) (xs : List A) (x : A) → In y (xs ++ x ∷ []) → In y xs ⊎ (y ≡ x)
  In-snoc y xs x h = elim (In-append y xs (x ∷ []) h) [
    | inl l ↦ inl l
    | inr r ↦ elim r [ inl e ↦ inr e | inr n ↦ absurd n ]
  ]

  pub append-In : (y : A) (xs ys : List A) → In y xs ⊎ In y ys → In y (xs ++ ys)
  append-In y [] ys h = elim h [ inl n ↦ absurd n | inr r ↦ r ]
  append-In y (x ∷ xs) ys h = elim h [
    | inl l ↦ elim l [ inl e ↦ inl e | inr later ↦ inr (append-In y xs ys (inl later)) ]
    | inr r ↦ inr (append-In y xs ys (inr r))
  ]

  pub exists_where-In :
      (test : A → Bool) (xs : List A)
      → exists_where test xs ≡ true
      → (x : A) × In x xs × (test x ≡ true)
  unfolding exists_where
  exists_where-In test [] h = cc
  exists_where-In test (x ∷ xs) h = elim (Bool-cases (test x)) [
    | inl here ↦ (x, inl refl, here)
    | inr elsewhere ↦
        let (y, there, e) = exists_where-In test xs (rw elsewhere at h) in (y, inr there, e)
  ]

  pub exists_where-none :
      (test : A → Bool) (x : A) (xs : List A)
      → exists_where test xs ≡ false
      → In x xs
      → test x ≡ false
  unfolding exists_where
  exists_where-none test x [] h i = absurd i
  exists_where-none test x (y ∷ xs) h i = elim i [
    | inl e ↦ subst (λ z. test z ≡ false) (sym e) (ground arith)
    | inr later ↦ exists_where-none test x xs (ground arith) later
  ]

  pub count_where-In :
      (test : A → Bool) (xs : List A)
      → not (count_where test xs == 0) ≡ true
      → (x : A) × In x xs × (test x ≡ true)
  unfolding count_where
  count_where-In test [] h = cc
  count_where-In test (x ∷ xs) h = elim (Bool-cases (test x)) [
    | inl here ↦ (x, inl refl, here)
    | inr elsewhere ↦
        let (y, there, e) = count_where-In test xs (rw elsewhere at h) in (y, inr there, e)
  ]

  -- The first row that passes is the one that is updated, if the update does not fail its test.
  pub find_where-update_where :
      (test : A → Bool) (change : A → A) (xs : List A) {x : A}
      → ((y : A) → test (change y) ≡ test y)
      → find_where test xs ≡ some x
      → find_where test (update_where test change xs) ≡ some (change x)
  unfolding find_where update_where
  find_where-update_where test change [] same h = cc
  find_where-update_where test change (y ∷ xs) {x} same h = elim (Bool-cases (test y)) [
    | inl here ↦
        rw (here, same y ∙ here) (ap (λ o. some (change o)) (first y x (sym (rw here refl) ∙ h)))
    | inr elsewhere ↦
        rw (elsewhere, elsewhere)
          (find_where-update_where test change xs same (sym (rw elsewhere refl) ∙ h))
  ]
    where
      first : (a b : A) → ◌≡◌ {A = Option A} (some a) (some b) → a ≡ b
      first a b e = cc

  pub find_where-In :
      (test : A → Bool) (xs : List A) {x : A}
      → find_where test xs ≡ some x
      → In x xs × (test x ≡ true)
  unfolding find_where
  find_where-In test [] h = cc
  find_where-In test (y ∷ xs) {x} h = elim (Bool-cases (test y)) [
    | inl here ↦ let e : y ≡ x = ground arith in (inl (sym e), subst (λ z. test z ≡ true) e here)
    | inr elsewhere ↦ let (there, e) = find_where-In test xs (rw elsewhere at h) in (inr there, e)
  ]
