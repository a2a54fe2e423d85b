-- ===== src/FileEdit/Splice.antt =====
-- What `Apply` of internal/fileedit/apply.go does to the bytes of a file.
pub mod Places
mod Deletion
use mathlib.Core.Path.{subst}
use eino_ops_agent_enterpr1s.Base.{
  ℕ, zero, suc, ◌+◌, ◌-◌, ◌≤◌, ◌<◌, Bool, true, false, not, Option, none, some, List, [], ◌∷◌, ◌++◌,
  Bytes, is_empty, length, take, drop, get_elem?, take-length, drop-length, length-append,
  List-cases, length-take, if◌then◌else◌, Bool-cases, Option-cases, Result, ok, err, Result-cases,
  >>=-eq-ok, ◌>>=◌, ltb, ◌≡◌, ◌≢◌, ◌⊎◌, inl, inr, refl, sym, ap, ◌∙◌, arith, append-nil,
  append_assoc,
}
use eino_ops_agent_enterpr1s.FileEdit.{
  Line, EditError, utf16, binary, conflict, panic, body_start, editable_text_lines, split,
  find_matches, line_at, line_before, joining_eol, join, delete_block, replace_block, new_lines_of,
  with_match, apply,
}
use eino_ops_agent_enterpr1s.FileEdit.Lines.{
  bytes_of, Placed, editable_text_lines-bytes, body_start-le,
}
use eino_ops_agent_enterpr1s.FileEdit.Matches.{
  texts, Block, Among, find_matches_sound, find_matches_complete,
}
use Places.{trim_eol, bytes_of-append, trim_eol-append, LineAt, place_line, snoc_cases}
use Deletion.{
  last_line, first_place, prior_place, delete_block-open, delete_block-ended, line_before-last_line,
}

-- The bytes that the edit leaves, for a file of `head`, then the lines `before`, the block that ends
-- in `last`, and the lines `behind`.
pub edited : Bytes → List (List ℕ) → List Line → List Line → Line → List Line → Bytes
edited head new before block last behind =
    if is_empty new
    then (if is_empty last.eol
        then head ++ (trim_eol before ++ bytes_of behind)
        else head ++ (bytes_of before ++ bytes_of behind))
    else head
      ++ (bytes_of before
          ++ (join (joining_eol block last (last_line before)) new
              ++ (last.eol ++ bytes_of behind)))

-- `replace_block` once the two lines are found.
replace_block-found :
    (s : Bytes) (lines : List Line) (old new : List Bytes) (start : ℕ) (first last : Line)
    → get_elem? lines start ≡ some first
    → get_elem? lines (start + length old - 1) ≡ some last
    → replace_block s lines old new start
      ≡ ok (
          if is_empty new
          then delete_block s first last (line_before lines start)
          else take first.start s
            ++ (join
                  (joining_eol
                    (take (length old) (drop start lines))
                    last
                    (line_before lines start))
                  new
                ++ drop last.content_end s))
unfolding replace_block
replace_block-found s lines old new start first last f l = rw (f, line_at) (rw (l, line_at))

-- The edit of a block whose lines are `front` and then `last`, in a file that is cut into lines.
module _ (s head : Bytes) (before front : List Line) (last : Line) (behind : List Line)
    (whole : head ++ bytes_of (before ++ ((front ++ last ∷ []) ++ behind)) ≡ s)
    (placed : Placed (length head) (before ++ ((front ++ last ∷ []) ++ behind))) where
  abbrev all_lines : List Line
  all_lines = before ++ ((front ++ last ∷ []) ++ behind)

  regroup : all_lines ≡ (before ++ front) ++ last ∷ behind
  regroup = simp append_assoc

  last_place : LineAt s head ((before ++ front) ++ last ∷ behind) (before ++ front) last behind
  last_place =
      place_line s head (before ++ front) last behind
        (ap (λ ls. head ++ bytes_of ls) (sym regroup) ∙ whole)
        (subst (Placed (length head)) regroup placed)

  last_found :
      (old : List Bytes)
      → length old ≡ length front + 1
      → get_elem? all_lines (length before + length old - 1) ≡ some last
  last_found old n =
      let i : length (before ++ front) ≡ length before + length old - 1 =
        omega (arith, length-append before front) in
      ap (λ ls. get_elem? ls (length before + length old - 1)) regroup
      ∙ subst (λ k. get_elem? ((before ++ front) ++ last ∷ behind) k ≡ some last) i last_place.found

  block_found :
      (old : List Bytes)
      → length old ≡ length front + 1
      → take (length old) (drop (length before) all_lines) ≡ front ++ last ∷ []
  block_found old n =
      let size : length old ≡ length (front ++ last ∷ []) =
        omega (arith, length-append front (last ∷ [])) in
      rw drop-length (rw size (take-length (front ++ last ∷ []) behind))

  delete_block-edited :
      (first : Line)
      → take first.start s ≡ head ++ bytes_of before
      → delete_block s first last (last_line before) ≡ (
          if is_empty last.eol
          then head ++ (trim_eol before ++ bytes_of behind)
          else head ++ (bytes_of before ++ bytes_of behind))
  delete_block-edited first starts =
      let prior = prior_place s head before ((front ++ last ∷ []) ++ behind) whole placed in
      elim (List-cases last.eol) [
        | inl e ↦ rw (ap is_empty e) (
            delete_block-open s head before behind first last starts last_place.from_content_end
              last_place.from_after_end last_place.eol_length prior e)
        | inr (c, eol, e) ↦ rw (ap is_empty e) (
            delete_block-ended s head before behind first last starts last_place.from_content_end
              last_place.from_after_end last_place.eol_length prior c eol e)
      ]

  pub replace_block-edited :
      (old new : List Bytes)
      → length old ≡ length front + 1
      → replace_block s all_lines old new (length before)
        ≡ ok (edited head new before (front ++ last ∷ []) last behind)
  unfolding replace_block edited
  replace_block-edited old new n =
      let (first, found, starts) =
        first_place s head before (front ++ last ∷ []) behind
          (omega (arith, length-append front (last ∷ []))) whole placed in
      let prior = line_before-last_line before ((front ++ last ∷ []) ++ behind) in
      replace_block-found s all_lines old new (length before) first last found (last_found old n)
      ∙ ap ok (
          rw prior (
            rw (block_found old n) (elim (Bool-cases (is_empty new)) [
              | inr some_lines ↦
                  rw some_lines (rw (starts, last_place.from_content_end) (append_assoc head _ _))
              | inl no_lines ↦ rw no_lines (delete_block-edited first starts)
            ])))
