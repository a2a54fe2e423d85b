-- ===== src/FileEdit/Splice/Deletion.antt =====
-- The deletion of a block by `Apply` of internal/fileedit/apply.go.
use mathlib.Core.Path.{subst}
use eino_ops_agent_enterpr1s.Base.{
  ℕ, ◌+◌, ◌<◌, true, false, Option, none, some, List, [], ◌∷◌, ◌++◌, Bytes, length, take, drop,
  get_elem?, ltb, ◌≡◌, inl, inr, refl, sym, ap, ◌∙◌, arith, append_assoc,
}
use eino_ops_agent_enterpr1s.FileEdit.{Line, line_before, delete_block}
use eino_ops_agent_enterpr1s.FileEdit.Lines.{bytes_of, Placed}
use eino_ops_agent_enterpr1s.FileEdit.Splice.Places.{
  trim_eol, trim_eol-append, place_line, snoc_cases,
}

abbrev pub last_line : List Line → Option Line
last_line [] = none
last_line (l ∷ []) = some l
last_line (l ∷ (m ∷ lines)) = last_line (m ∷ lines)

last_line-append : (front : List Line) (l : Line) → last_line (front ++ l ∷ []) ≡ some l
last_line-append [] l = refl
last_line-append (x ∷ []) l = refl
last_line-append (x ∷ (y ∷ front)) l = last_line-append (y ∷ front) l

module _ (s head : Bytes) where
  pub first_place :
      (before block behind : List Line)
      → 0 < length block
      → head ++ bytes_of (before ++ (block ++ behind)) ≡ s
      → Placed (length head) (before ++ (block ++ behind))
      → (l : Line) × (get_elem? (before ++ (block ++ behind)) (length before) ≡ some l)
        × (take l.start s ≡ head ++ bytes_of before)
  first_place before [] behind n w p = absurd (omega arith)
  first_place before (l ∷ block) behind n w p =
      let at = place_line s head before l (block ++ behind) w p in (l, at.found, at.to_start)

  -- The bytes before the ending of the line in front of the block.
  pub prior_place :
      (before rest : List Line)
      → head ++ bytes_of (before ++ rest) ≡ s
      → Placed (length head) (before ++ rest)
      → (p : Line) → last_line before ≡ some p
      → take p.content_end s ≡ head ++ trim_eol before
  prior_place before rest w placed p e = elim (snoc_cases before) [
    | inl nothing ↦ cc
    | inr (front, l, splits) ↦
        let whole : (front ++ l ∷ []) ++ rest ≡ front ++ l ∷ rest =
          append_assoc front (l ∷ []) rest in
        let lines : before ++ rest ≡ front ++ l ∷ rest = ap (λ ls. ls ++ rest) splits ∙ whole in
        let at =
          place_line s head front l rest (ap (λ ls. head ++ bytes_of ls) (sym lines) ∙ w)
            (subst (Placed (length head)) lines placed) in
        let is_l : l ≡ p = cc (last_line-append front l, ap last_line splits, e) in
        subst (λ q. take q.content_end s ≡ head ++ trim_eol before) is_l
          (at.to_content_end
            ∙ ap (◌++◌ head) (sym (trim_eol-append front l) ∙ ap trim_eol (sym splits)))
  ]

  -- The deletion of a block that begins at `first` and ends in `last`.
  module _ (before behind : List Line) (first last : Line)
      (starts : take first.start s ≡ head ++ bytes_of before)
      (rest_at : drop last.content_end s ≡ last.eol ++ bytes_of behind)
      (rest_after : drop last.after_end s ≡ bytes_of behind)
      (stops : last.after_end ≡ last.content_end + length last.eol)
      (prior : (p : Line)
        → last_line before ≡ some p
        → take p.content_end s ≡ head ++ trim_eol before) where
    pub delete_block-open :
        last.eol ≡ []
        → delete_block s first last (last_line before)
          ≡ head ++ (trim_eol before ++ bytes_of behind)
    unfolding delete_block
    delete_block-open e =
        let closed : ltb last.content_end last.after_end ≡ false =
          ground (arith, ap length e, stops) in
        let tail_is : drop last.content_end s ≡ bytes_of behind = rw e at rest_at in
        rw closed (elim (snoc_cases before) [
          | inl nothing ↦
              let absent : last_line before ≡ none = ap last_line nothing in
              let same : bytes_of before ≡ trim_eol before =
                ap bytes_of nothing ∙ sym (ap trim_eol nothing) in
              rw absent (
                rw (starts, tail_is)
                  (append_assoc head (bytes_of before) (bytes_of behind)
                    ∙ ap (λ b. head ++ (b ++ bytes_of behind)) same))
          | inr (front, p, splits) ↦
              let there : last_line before ≡ some p =
                ap last_line splits ∙ last_line-append front p in
              rw there (
                rw (prior p there, tail_is) (append_assoc head (trim_eol before) (bytes_of behind)))
        ])

    pub delete_block-ended :
        (c : ℕ) (eol : Bytes)
        → last.eol ≡ c ∷ eol
        → delete_block s first last (last_line before)
          ≡ head ++ (bytes_of before ++ bytes_of behind)
    unfolding delete_block
    delete_block-ended c eol e =
        let ended : ltb last.content_end last.after_end ≡ true =
          ground (arith, ap length e, stops) in
        rw ended (rw (starts, rest_after) (append_assoc head (bytes_of before) (bytes_of behind)))

pub line_before-last_line :
    (before rest : List Line) → line_before (before ++ rest) (length before) ≡ last_line before
line_before-last_line [] rest = refl
line_before-last_line (x ∷ []) rest = refl
line_before-last_line (x ∷ (y ∷ before)) rest = line_before-last_line (y ∷ before) rest
