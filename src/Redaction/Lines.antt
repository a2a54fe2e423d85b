-- ===== src/Redaction/Lines.antt =====
-- The lines of a stream (internal/security/redact.go), by structural recursion, and the loop of `Write`
-- over them.
use mathlib.Core.Path.{subst}
use eino_ops_agent_enterpr1s.Base.{
  ℕ, zero, suc, ◌≤◌, ◌<◌, Bool, false, none, some, List, [], ◌∷◌, ◌++◌, append_assoc, Bytes, length,
  ◌==◌, if◌then◌else◌, ◌≡◌, ◌⊎◌, inl, inr, refl, sym, ap, ◌∙◌, arith, Bool-cases, List-cases,
}
use eino_ops_agent_enterpr1s.Redaction.{Stream, ends_line, cut_line, redact_line, write_lines}

-- A byte in front of the first line or, where there is none, of what is pending.
abbrev pub prepend : ℕ → List Bytes × Bytes → List Bytes × Bytes
prepend c ([], rest) = ([], c ∷ rest)
prepend c (line ∷ lines, rest) = ((c ∷ line) ∷ lines, rest)

-- The complete lines, and what is left behind them.
unfoldable pub split_lines : Bytes → List Bytes × Bytes
split_lines [] = ([], [])
split_lines (c ∷ s) =
    let (lines, rest) = split_lines s in
    if ends_line c s then ((c ∷ []) ∷ lines, rest) else prepend c (lines, rest)

abbrev pub joined : List Bytes → Bytes
joined [] = []
joined (line ∷ lines) = line ++ joined lines

prepend-joined :
    (c : ℕ) (p : List Bytes × Bytes)
    → joined (prepend c p).0 ++ (prepend c p).1 ≡ c ∷ (joined p.0 ++ p.1)
prepend-joined c ([], rest) = refl
prepend-joined c (line ∷ lines, rest) = refl

-- No byte is lost.
pub split_lines-joined : (s : Bytes) → joined (split_lines s).0 ++ (split_lines s).1 ≡ s
unfolding split_lines
split_lines-joined [] = refl
split_lines-joined (c ∷ s) = elim (Bool-cases (ends_line c s)) [
  | inl end ↦ rw end (ap (◌∷◌ c) (split_lines-joined s))
  | inr inside ↦ rw inside (prepend-joined c (split_lines s) ∙ ap (◌∷◌ c) (split_lines-joined s))
]

-- The byte that a text ends in is not a carriage return.
abbrev pub IsUncut : Bytes → Type 0
IsUncut [] = Unit
IsUncut (c ∷ []) = (c == b'\r') ≡ false
IsUncut (c ∷ (d ∷ s)) = IsUncut (d ∷ s)

abbrev pub both : List Bytes × Bytes → (Bytes → List Bytes × Bytes) → List Bytes × Bytes
both (lines, rest) f = (lines ++ (f rest).0, (f rest).1)

prepend-both :
    (c : ℕ) (p : List Bytes × Bytes) (f : Bytes → List Bytes × Bytes)
    → (p.0 ≡ [] → f (c ∷ p.1) ≡ prepend c (f p.1))
    → prepend c (both p f) ≡ both (prepend c p) f
prepend-both c ([], rest) f h = sym (h refl)
prepend-both c (line ∷ lines, rest) f h = refl

-- A text that does not end in a carriage return can be cut into lines before the next one comes.
pub split_lines-append :
    (s added : Bytes)
    → IsUncut s
    → split_lines (s ++ added) ≡ both (split_lines s) (λ rest. split_lines (rest ++ added))
unfolding split_lines
split_lines-append [] added h = refl
split_lines-append (c ∷ []) added h = elim (Bool-cases (c == b'\n')) [
  | inl newline ↦ rw newline
  | inr other ↦
      let inside : ends_line c added ≡ false = rw (other, h) in
      let alone : ends_line c [] ≡ false = rw (other, h) in rw (alone, inside)
]
split_lines-append (c ∷ (d ∷ s)) added h =
    let later = split_lines-append (d ∷ s) added h in
    elim (Bool-cases (ends_line c (d ∷ s))) [
      | inl end ↦ rw (end, later)
      | inr inside ↦
          rw (inside, later)
            (prepend-both c (split_lines (d ∷ s)) (λ rest. split_lines (rest ++ added))
              (λ whole. unbroken c d s added inside whole))
    ]
  where
    unbroken :
        (c d : ℕ) (s added : Bytes)
        → ends_line c (d ∷ s) ≡ false
        → (split_lines (d ∷ s)).0 ≡ []
        → split_lines (c ∷ ((split_lines (d ∷ s)).1 ++ added))
          ≡ prepend c (split_lines ((split_lines (d ∷ s)).1 ++ added))
    unbroken c d s added inside whole =
        let rest_is : (split_lines (d ∷ s)).1 ≡ d ∷ s =
          ap (λ lines. joined lines ++ (split_lines (d ∷ s)).1) (sym whole)
          ∙ split_lines-joined (d ∷ s) in
        subst (λ r. split_lines (c ∷ (r ++ added)) ≡ prepend c (split_lines (r ++ added)))
          (sym rest_is) (rw inside)

-- `cut_line` takes off the first of the lines.
pub cut_line-split_lines :
    (s : Bytes)
    → ((cut_line s ≡ none) × (split_lines s ≡ ([], s)))
      ⊎ ((line rest : Bytes) × (cut_line s ≡ some (line, rest))
          × (split_lines s ≡ (line ∷ (split_lines rest).0, (split_lines rest).1))
          × (length rest < length s))
unfolding cut_line split_lines
cut_line-split_lines [] = inl (refl, refl)
cut_line-split_lines (c ∷ s) = elim (Bool-cases (ends_line c s)) [
  | inl end ↦ inr (c ∷ [], s, rw end, rw end, omega arith)
  | inr inside ↦ elim (cut_line-split_lines s) [
    | inl (nothing, whole) ↦ inl (rw (inside, nothing), rw (inside, whole))
    | inr (line, rest, found, cut, shorter) ↦
        inr (c ∷ line, rest, rw (inside, found), rw (inside, cut), omega (arith, shorter))
  ]
]

module _ (redact : Bytes → Bytes) (begins ends : Bytes → Bool) where
  -- What is written for lines, one after the other.
  unfoldable pub redact_lines : Bool → List Bytes → Bool × Bytes
  unfolding redact_line
  redact_lines block [] = (block, [])
  redact_lines block (line ∷ lines) =
      let (next, out) = redact_line redact begins ends block line in
      let (final, later) = redact_lines next lines in (final, out ++ later)

  pub redact_lines-append :
      (block : Bool) (first second : List Bytes)
      → redact_lines block (first ++ second) ≡ (
        (redact_lines (redact_lines block first).0 second).0,
        (redact_lines block first).1 ++ (redact_lines (redact_lines block first).0 second).1,
      )
  unfolding redact_lines
  redact_lines-append block [] second = refl
  redact_lines-append block (line ∷ first) second = rw (
    redact_lines-append (redact_line redact begins ends block line).0 first second,
    append_assoc (redact_line redact begins ends block line).1
        (redact_lines (redact_line redact begins ends block line).0 first).1
        (redact_lines (redact_lines (redact_line redact begins ends block line).0 first).0
          second).1,
  )

  -- The stream after lines of `pending` have been written, and what was written.
  abbrev pub lines_written : Stream → Stream × Bytes
  lines_written r =
      let (lines, rest) = split_lines r.pending in
      let (block, out) = redact_lines r.private_key_block lines in
      (record { pending = rest; private_key_block = block }, out)

  -- The loop writes all lines, if the fuel is the length of what is pending.
  pub write_lines-lines :
      (fuel : ℕ) (r : Stream)
      → length r.pending ≤ fuel
      → write_lines redact begins ends fuel r ≡ lines_written r
  unfolding write_lines redact_lines split_lines
  write_lines-lines zero r h = elim (List-cases (r.pending)) [
    | inl nothing ↦
        let cut : split_lines r.pending ≡ ([], []) = ap split_lines nothing in
        rw cut (ap (λ p. (record r { pending = p }, [])) nothing)
    | inr (c, s, some_bytes) ↦ absurd (omega (arith, ap length some_bytes))
  ]
  write_lines-lines (suc fuel) r h = elim (cut_line-split_lines r.pending) [
    | inl (nothing, whole) ↦ rw (write_lines, nothing, whole)
    | inr (line, rest, found, cut, shorter) ↦
        let next : Stream = record {
          pending = rest;
          private_key_block = (redact_line redact begins ends r.private_key_block line).0;
        } in
        rw (write_lines, found, cut, write_lines-lines fuel next (omega arith))
  ]
