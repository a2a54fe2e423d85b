-- ===== src/Plan/Titles.antt =====
-- What `normalizeTitles` of internal/plan/plan.go accepts.
use eino_ops_agent_enterpr1s.Base.{
  ℕ, ◌+◌, ◌≤◌, ◌<◌, Bool, false, ◌||◌, List, [], ◌∷◌, map, Text, is_empty, trim_space, contains,
  equal, equal_iff, length, ltb, Bool-cases, ok, >>=-eq-ok, All, ◌≡◌, ◌≢◌, ◌↔◌, refl, ap, sym, inl,
  inr, arith,
}
use eino_ops_agent_enterpr1s.Plan.{normalize_from, normalize_titles}

-- `t` is none of `texts`.
abbrev pub Absent : Text → List Text → Type 0
Absent t [] = Unit
Absent t (x ∷ texts) = (t ≢ x) × Absent t texts

abbrev pub Distinct : List Text → Type 0
Distinct [] = Unit
Distinct (x ∷ texts) = Absent x texts × Distinct texts

-- A title of 1 to 240 characters.
abbrev pub HasTitleLength : Text → Type 0
HasTitleLength t = (0 < length t) × (length t ≤ 240)

-- What a list of titles has to be: trimmed, each of a fitting length, and distinct once folded.
pub record IsTitles (to_lower : ℕ → ℕ) (raw result : List Text) : Type 0 where
  pub trimmed : result ≡ map trim_space raw
  pub lengths : All HasTitleLength result
  pub distinct : Distinct (map (map to_lower) result)

contains-Absent : (seen : List Text) (t : Text) → contains seen t ≡ false → Absent t seen
unfolding contains
contains-Absent [] t h = tt
contains-Absent (x ∷ seen) t h = elim (Bool-cases (equal x t)) [
  | inl same ↦ absurd (ground arith)
  | inr other ↦
      (λ e. ground (arith, (equal_iff x t).1 (sym e)), contains-Absent seen t (ground arith))
]

Absent-contains : (seen : List Text) (t : Text) → Absent t seen → contains seen t ≡ false
unfolding contains
Absent-contains [] t h = refl
Absent-contains (x ∷ seen) t h = elim (Bool-cases (equal x t)) [
  | inl same ↦ absurd (h.0 (sym ((equal_iff x t).0 same)))
  | inr other ↦ rw other (Absent-contains seen t h.1)
]

-- The test that makes `normalizeTitles` refuse the trimmed title `t`.
abbrev title_fails : (ℕ → ℕ) → List Text → Text → Bool
title_fails to_lower seen t = is_empty t || ltb 240 (length t) || contains seen (map to_lower t)

title_fits :
    (to_lower : ℕ → ℕ) (seen : List Text) (t : Text)
    → title_fails to_lower seen t ≡ false
    → HasTitleLength t × Absent (map to_lower t) seen
title_fits to_lower seen [] h = cc
title_fits to_lower seen (c ∷ t) h =
    ((ground arith, ground arith), contains-Absent seen (map to_lower (c ∷ t)) (ground arith))

title_passes :
    (to_lower : ℕ → ℕ) (seen : List Text) (t : Text)
    → HasTitleLength t
    → Absent (map to_lower t) seen
    → title_fails to_lower seen t ≡ false
title_passes to_lower seen [] h a = absurd (omega arith)
title_passes to_lower seen (c ∷ t) h a =
    ground (arith, Absent-contains seen (map to_lower (c ∷ t)) a)

module _ (to_lower : ℕ → ℕ) where
  -- All the titles are absent from `seen` once folded.
  abbrev AllAbsent : List Text → List Text → Type 0
  AllAbsent seen = All (λ t. Absent (map to_lower t) seen)

  AllAbsent-split :
      (x : Text) (seen result : List Text)
      → AllAbsent (x ∷ seen) result
      → AllAbsent seen result × Absent x (map (map to_lower) result)
  AllAbsent-split x seen [] h = (tt, tt)
  AllAbsent-split x seen (t ∷ result) h =
      let (there, rest) = AllAbsent-split x seen result h.1 in
      ((h.0.1, there), (λ e. h.0.0 (sym e), rest))

  AllAbsent-join :
      (x : Text) (seen result : List Text)
      → AllAbsent seen result
      → Absent x (map (map to_lower) result)
      → AllAbsent (x ∷ seen) result
  AllAbsent-join x seen [] h k = tt
  AllAbsent-join x seen (t ∷ result) h k =
      ((λ e. k.0 (sym e), h.0), AllAbsent-join x seen result h.1 k.1)

  AllAbsent-nil : (result : List Text) → AllAbsent [] result
  AllAbsent-nil [] = tt
  AllAbsent-nil (t ∷ result) = (tt, AllAbsent-nil result)

  normalize_from_sound :
      (index : ℕ) (seen raw : List Text) {result : List Text}
      → normalize_from to_lower index seen raw ≡ ok result
      → IsTitles to_lower raw result × AllAbsent seen result
  unfolding normalize_from
  normalize_from_sound index seen [] {result} h =
      let e : [] ≡ result = ground arith in
      rw (← e) (record { trimmed = refl; lengths = tt; distinct = tt }, tt)
  normalize_from_sound index seen (x ∷ raw) {result} h =
      elim (Bool-cases (title_fails to_lower seen (trim_space x))) [
        | inl bad ↦ absurd (ground arith)
        | inr good ↦
            let folded = map to_lower (trim_space x) in
            let (rest, later, e) =
              >>=-eq-ok (normalize_from to_lower (index + 1) (folded ∷ seen) raw)
                (λ r. ok (trim_space x ∷ r)) (rw good at h) in
            let (titles, absent) = normalize_from_sound (index + 1) (folded ∷ seen) raw later in
            let (fits, fresh) = title_fits to_lower seen (trim_space x) good in
            let (below, here) = AllAbsent-split folded seen rest absent in
            let split : trim_space x ∷ rest ≡ result = ground arith in
            rw (← split) (
              record {
                trimmed = ap (◌∷◌ (trim_space x)) titles.trimmed;
                lengths = (fits, titles.lengths);
                distinct = (here, titles.distinct);
              },
              (fresh, below),
            )
      ]

  normalize_from_complete :
      (index : ℕ) (seen raw : List Text)
      → All HasTitleLength (map trim_space raw)
      → Distinct (map (map to_lower) (map trim_space raw))
      → AllAbsent seen (map trim_space raw)
      → normalize_from to_lower index seen raw ≡ ok (map trim_space raw)
  unfolding normalize_from
  normalize_from_complete index seen [] h d a = refl
  normalize_from_complete index seen (x ∷ raw) h d a =
      let folded = map to_lower (trim_space x) in
      rw (title_passes to_lower seen (trim_space x) h.0 a.0) (
        rw (
          normalize_from_complete (index + 1) (folded ∷ seen) raw h.1 d.1
            (AllAbsent-join folded seen (map trim_space raw) a.1 d.0)))

  -- `normalizeTitles` succeeds exactly when there are `minimum` to 8 titles which, trimmed, have 1 to
  -- 240 characters and differ when folded; its result is then the trimmed titles.
  pub normalize_titles_iff :
      (raw : List Text) (minimum : ℕ) (result : List Text)
      → (normalize_titles to_lower raw minimum ≡ ok result)
        ↔ (IsTitles to_lower raw result × (minimum ≤ length raw) × (length raw ≤ 8))
  unfolding normalize_titles
  normalize_titles_iff raw minimum result = (
    λ h. ((normalize_from_sound 0 [] raw (ground arith)).0, ground arith, ground arith),
    λ h. ground (arith, accept h.0),
  )
    where
      accept : IsTitles to_lower raw result → normalize_from to_lower 0 [] raw ≡ ok result
      accept t =
          let e = t.trimmed in
          rw e (
            normalize_from_complete 0 [] raw (rw e at t.lengths) (rw e at t.distinct)
              (AllAbsent-nil (map trim_space raw)))
