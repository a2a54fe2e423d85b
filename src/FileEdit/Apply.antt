-- ===== src/FileEdit/Apply.antt =====
-- `Apply` of internal/fileedit/apply.go as a whole.
use mathlib.Core.Path.{subst}
use eino_ops_agent_enterpr1s.Base.{
  ℕ, ◌+◌, ◌<◌, List, [], ◌∷◌, ◌++◌, Bytes, length, take, length-append, length-take, ok, err,
  >>=-eq-ok, ◌>>=◌, ◌≡◌, ◌≢◌, ◌⊎◌, inl, inr, refl, sym, ap, ◌∙◌, arith,
}
use eino_ops_agent_enterpr1s.FileEdit.{
  Line, conflict, body_start, editable_text_lines, split, find_matches, replace_block, new_lines_of,
  with_match, apply,
}
use eino_ops_agent_enterpr1s.FileEdit.Lines.{
  bytes_of, Placed, editable_text_lines-bytes, body_start-le,
}
use eino_ops_agent_enterpr1s.FileEdit.Matches.{
  texts, Block, Among, find_matches_sound, find_matches_complete, length-texts,
}
use eino_ops_agent_enterpr1s.FileEdit.Splice.{edited, replace_block-edited}
use eino_ops_agent_enterpr1s.FileEdit.Splice.Places.{snoc_cases}

-- An edit that succeeds, described by the lines that the file is cut into: the block is the only place in them
-- with the old texts.
pub record IsEdit (s old_text new_text updated : Bytes) : Type 0 where
  pub before : List Line
  pub front : List Line
  pub last : Line
  pub behind : List Line
  pub lines_are : editable_text_lines s ≡ ok (before ++ ((front ++ last ∷ []) ++ behind))
  pub file_is : take (body_start s) s ++ bytes_of (before ++ ((front ++ last ∷ []) ++ behind)) ≡ s
  pub old_is : texts (front ++ last ∷ []) ≡ split b'\n' old_text
  pub updated_is :
      updated
      ≡ edited
          (take (body_start s) s)
          (new_lines_of new_text)
          before
          (front ++ last ∷ [])
          last
          behind
  pub only :
      (other : Block (split b'\n' old_text) (before ++ ((front ++ last ∷ []) ++ behind)))
      → length other.before ≡ length before

split-pos : (s : Bytes) → 0 < length (split b'\n' s)
unfolding split
split-pos s = omega arith

only_match : (i j : ℕ) → Among (0 + j) (i ∷ []) → j ≡ i
only_match i j h = elim h [ inl e ↦ omega (arith, e) | inr n ↦ absurd n ]

with_match-ok :
    (s : Bytes) (lines : List Line) (old new : List Bytes) (found : List ℕ) {updated : Bytes}
    → with_match s lines old new found ≡ ok updated
    → (i : ℕ) × (found ≡ i ∷ []) × (replace_block s lines old new i ≡ ok updated)
unfolding with_match
with_match-ok s lines old new [] h = cc
with_match-ok s lines old new (i ∷ []) h = (i, refl, h)
with_match-ok s lines old new (i ∷ (j ∷ found)) h = cc

-- The edit of a block that is matched once, in lines that are split at the block.
module _ (s old_text new_text : Bytes) where
  IsEdit-of_lines :
      (before front : List Line) (last : Line) (behind : List Line)
      → editable_text_lines s ≡ ok (before ++ ((front ++ last ∷ []) ++ behind))
      → texts (front ++ last ∷ []) ≡ split b'\n' old_text
      → find_matches (split b'\n' old_text) 0 (before ++ ((front ++ last ∷ []) ++ behind))
        ≡ length before ∷ []
      → (updated : Bytes) × (replace_block s
            (before ++ ((front ++ last ∷ []) ++ behind))
            (split b'\n' old_text)
            (new_lines_of new_text)
            (length before)
          ≡ ok updated)
        × IsEdit s old_text new_text updated
  IsEdit-of_lines before front last behind cut old found =
      let head = take (body_start s) s in
      let (whole, placed) = editable_text_lines-bytes s cut in
      let size : body_start s ≡ length head =
        sym (length-take (body_start s) s (body_start-le s)) in
      let count : length (split b'\n' old_text) ≡ length front + 1 = omega (
        arith,
        ap length old,
        length-texts (front ++ last ∷ []),
        length-append front (last ∷ []),
      ) in
      (
        edited head (new_lines_of new_text) before (front ++ last ∷ []) last behind,
        replace_block-edited s head before front last behind whole
            (subst (λ n. Placed n (before ++ ((front ++ last ∷ []) ++ behind))) size placed)
            (split b'\n' old_text) (new_lines_of new_text) count,
        record {
          before = before;
          front = front;
          last = last;
          behind = behind;
          lines_are = cut;
          file_is = whole;
          old_is = old;
          updated_is = refl;
          only = λ other. only_match (length before) (length other.before) (
              subst (Among (0 + length other.before)) found
                (find_matches_complete (split b'\n' old_text) 0 _ other (split-pos old_text)));
        },
      )

  IsEdit-of_block :
      (lines : List Line) (i : ℕ) (b : Block (split b'\n' old_text) lines)
      → i ≡ length b.before
      → editable_text_lines s ≡ ok lines
      → find_matches (split b'\n' old_text) 0 lines ≡ i ∷ []
      → (updated : Bytes) × (replace_block s lines (split b'\n' old_text) (new_lines_of new_text) i
          ≡ ok updated)
        × IsEdit s old_text new_text updated
  IsEdit-of_block lines i b place cut found = elim (snoc_cases b.block) [
    | inl nothing ↦ absurd (
        omega (
          arith,
          ap length nothing,
          length-texts b.block,
          ap length b.texts_are,
          split-pos old_text,
        ))
    | inr (front, last, e) ↦
        let split_lines : lines ≡ b.before ++ ((front ++ last ∷ []) ++ b.behind) =
          b.splits ∙ ap (λ block. b.before ++ (block ++ b.behind)) e in
        subst
          (λ ls.
            (updated : Bytes) × (replace_block s ls (split b'\n' old_text) (new_lines_of new_text) i
              ≡ ok updated)
            × IsEdit s old_text new_text updated)
          (sym split_lines)
          (subst
            (λ n.
              (updated : Bytes) × (replace_block s (b.before ++ ((front ++ last ∷ []) ++ b.behind))
                  (split b'\n' old_text) (new_lines_of new_text) n
                ≡ ok updated)
              × IsEdit s old_text new_text updated)
            (sym place)
            (IsEdit-of_lines b.before front last b.behind (cut ∙ ap ok split_lines)
              (ap texts (sym e) ∙ b.texts_are)
              (ap (find_matches (split b'\n' old_text) 0) (sym split_lines)
                ∙ found
                ∙ ap (λ n. n ∷ []) place)))
  ]

  -- The edit that a single match makes.
  IsEdit-of_match :
      (lines : List Line) (i : ℕ)
      → editable_text_lines s ≡ ok lines
      → find_matches (split b'\n' old_text) 0 lines ≡ i ∷ []
      → (updated : Bytes) × (replace_block s lines (split b'\n' old_text) (new_lines_of new_text) i
          ≡ ok updated)
        × IsEdit s old_text new_text updated
  IsEdit-of_match lines i cut found =
      let (b, place) =
        find_matches_sound (split b'\n' old_text) 0 lines i (split-pos old_text)
          (subst (Among i) (sym found) (inl refl)) in
      IsEdit-of_block lines i b (omega (arith, place)) cut found

-- `Apply` that succeeds replaces the one block, among the lines that `editableTextLines` cuts the file into,
-- whose lines have the old texts. It leaves the byte
-- order mark, all other lines with their endings, and the ending of the block's last line as they
-- were; the new lines are joined by the file's own line ending. With no new text it takes the block
-- out with its last ending or, where that line has none, with the ending in front of the block.
pub apply-IsEdit :
    (s old_text new_text : Bytes) {updated : Bytes}
    → apply s old_text new_text ≡ ok updated
    → IsEdit s old_text new_text updated
unfolding apply
apply-IsEdit s old_text new_text {updated} h =
    let (lines, cut, rest) = >>=-eq-ok (editable_text_lines s) _ h in
    let (i, found, made) =
      with_match-ok s lines (split b'\n' old_text) (new_lines_of new_text) _ rest in
    let (result, same, is_edit) = IsEdit-of_match s old_text new_text lines i cut found in
    let e : result ≡ updated = cc in subst (IsEdit s old_text new_text) e is_edit

apply-with_match :
    (s old_text new_text : Bytes) (lines : List Line)
    → editable_text_lines s ≡ ok lines
    → apply s old_text new_text
      ≡ with_match s lines
          (split b'\n' old_text)
          (new_lines_of new_text)
          (find_matches (split b'\n' old_text) 0 lines)
unfolding apply
apply-with_match s old_text new_text lines cut =
    ap
      (λ r. r >>= λ ls.
        with_match s ls (split b'\n' old_text) (new_lines_of new_text)
          (find_matches (split b'\n' old_text) 0 ls))
      cut

match_count :
    (s : Bytes) (lines : List Line) (old new : List Bytes) (found : List ℕ)
    → ((length found ≡ 1) × ((i : ℕ) × (found ≡ i ∷ [])))
      ⊎ ((length found ≢ 1) × (with_match s lines old new found ≡ err (conflict (length found))))
unfolding with_match
match_count s lines old new [] = inr (omega arith, refl)
match_count s lines old new (i ∷ []) = inl (refl, (i, refl))
match_count s lines old new (i ∷ (j ∷ found)) = inr (omega arith, refl)

with_match-single :
    (s : Bytes) (lines : List Line) (old new : List Bytes) {i : ℕ} {found : List ℕ}
    → found ≡ i ∷ []
    → with_match s lines old new found ≡ replace_block s lines old new i
unfolding with_match
with_match-single s lines old new e = rw e

-- In a file that is cut into lines, `Apply` succeeds if the search finds one place, and reports a
-- conflict with the number of places otherwise: no index is ever out of range.
pub apply_outcome :
    (s old_text new_text : Bytes) (lines : List Line)
    → editable_text_lines s ≡ ok lines
    → let found = find_matches (split b'\n' old_text) 0 lines in
      ((length found ≡ 1) × ((updated : Bytes) × (apply s old_text new_text ≡ ok updated)))
      ⊎ ((length found ≢ 1) × (apply s old_text new_text ≡ err (conflict (length found))))
apply_outcome s old_text new_text lines cut =
    let old = split b'\n' old_text in
    let run = apply-with_match s old_text new_text lines cut in
    elim (match_count s lines old (new_lines_of new_text) (find_matches old 0 lines)) [
      | inl (one, (i, found)) ↦
          let (updated, made, _) = IsEdit-of_match s old_text new_text lines i cut found in
          inl (
            one,
            (updated, run ∙ with_match-single s lines old (new_lines_of new_text) found ∙ made),
          )
      | inr (many, fails) ↦ inr (many, run ∙ fails)
    ]
