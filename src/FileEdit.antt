-- ===== src/FileEdit.antt =====
-- The exact-block text edit: internal/fileedit/apply.go. Files are lists of bytes; a slice is a value,
-- since `Apply` builds a fresh one. An index out of range is the error `panic`.
pub mod Lines
pub mod Matches
pub mod Splice
pub mod Apply
pub mod Contract
pub mod Examples
use eino_ops_agent_enterpr1s.Base.{
  ℕ, zero, suc, ◌+◌, ◌-◌, Bool, true, false, not, ◌||◌, ◌&&◌, Option, none, some, List, [], ◌∷◌,
  ◌++◌, map, Bytes, is_empty, equal, has_prefix, length, take, drop, get_elem?, ltb, leb, ◌==◌,
  if◌then◌else◌, Result, ok, err, ◌>>=◌,
}

-- `editableTextLine`: `text` is `original[start:content_end]`, and `eol` the bytes from there to
-- `after_end`.
pub record Line : Type 0 where
  pub text : Bytes
  pub start : ℕ
  pub content_end : ℕ
  pub after_end : ℕ
  pub eol : Bytes

pub data EditError : Type 0 where
  utf16 : EditError
  binary : EditError
  conflict : ℕ → EditError
  panic : EditError

-- `original[from:to]`.
abbrev pub slice : Bytes → ℕ → ℕ → Bytes
slice original from to = take (to - from) (drop from original)

-- `bytes.IndexByte`, with `none` for -1.
pub index_byte : Bytes → ℕ → Option ℕ
index_byte [] b = none
index_byte (c ∷ s) b =
    let rest = index_byte s b in
    if c == b then some 0 else elim rest [ none ↦ none | some i ↦ some (suc i) ]

abbrev pub byte_at : Bytes → ℕ → ℕ
byte_at s i = elim (get_elem? s i) [ none ↦ 0 | some c ↦ c ]

-- A carriage return before the newline at `newline` belongs to the line's end.
pub content_end_of : Bytes → ℕ → ℕ → ℕ
content_end_of original start newline =
    if ltb start newline && (byte_at original (newline - 1) == b'\r') then newline - 1 else newline

-- The line from `start` up to the newline at `newline`.
pub ended_line : Bytes → ℕ → ℕ → Line
unfolding content_end_of
ended_line original start newline =
    let content_end = content_end_of original start newline in
    record {
      text = slice original start content_end;
      start = start;
      content_end = content_end;
      after_end = newline + 1;
      eol = slice original content_end (newline + 1);
    }

-- The last line, which has no newline.
pub open_line : Bytes → ℕ → Line
open_line original start = record {
  text = drop start original;
  start = start;
  content_end = length original;
  after_end = length original;
  eol = [];
}

-- The loop `for start < len(original)`, on fuel.
pub lines_from : ℕ → Bytes → ℕ → List Line
unfolding index_byte ended_line open_line
lines_from zero original start = []
lines_from (suc fuel) original start =
    if ltb start (length original)
    then (elim (index_byte (drop start original) b'\n') [
      | none ↦ open_line original start ∷ []
      | some offset ↦
          ended_line original start (start + offset) ∷ lines_from fuel original (start + offset + 1)
    ])
    else []

abbrev pub bom : Bytes
bom = 0xef ∷ 0xbb ∷ 0xbf ∷ []

pub body_start : Bytes → ℕ
unfolding has_prefix
body_start original = if has_prefix original bom then 3 else 0

-- `editableTextLines`.
pub editable_text_lines : Bytes → Result EditError (List Line)
unfolding has_prefix index_byte lines_from body_start
editable_text_lines original =
    if has_prefix original (0xff ∷ 0xfe ∷ []) || has_prefix original (0xfe ∷ 0xff ∷ [])
    then err utf16
    else elim (index_byte original 0) [
      | some i ↦ err binary
      | none ↦ ok (lines_from (length original) original (body_start original))
    ]

-- `strings.Split(s, "\n")`: the first piece, and those behind it.
pub split_first : ℕ → Bytes → Bytes × List Bytes
split_first sep [] = ([], [])
split_first sep (c ∷ s) =
    let (first, rest) = split_first sep s in
    if c == sep then ([], first ∷ rest) else (c ∷ first, rest)

pub split : ℕ → Bytes → List Bytes
unfolding split_first
split sep s = let (first, rest) = split_first sep s in first ∷ rest

-- Whether the lines begin with the texts `old`.
pub block_matches : List Bytes → List Line → Bool
unfolding equal
block_matches [] lines = true
block_matches (t ∷ old) [] = false
block_matches (t ∷ old) (l ∷ lines) = equal l.text t && block_matches old lines

-- The loop that collects `matches`; `lines` are those from `start` on.
pub find_matches : List Bytes → ℕ → List Line → List ℕ
unfolding block_matches
find_matches old start [] = if leb (length old) 0 then start ∷ [] else []
find_matches old start (l ∷ lines) =
    let rest = find_matches old (start + 1) lines in
    if leb (length old) (length (l ∷ lines)) && block_matches old (l ∷ lines)
    then start ∷ rest
    else rest

abbrev pub line_at : List Line → ℕ → Result EditError Line
line_at lines i = elim (get_elem? lines i) [ none ↦ err panic | some l ↦ ok l ]

-- The line before `start`, where there is one.
abbrev pub line_before : List Line → ℕ → Option Line
line_before lines zero = none
line_before lines (suc i) = get_elem? lines i

-- The first line ending of the block, or a newline.
pub block_eol : List Line → Bytes
block_eol [] = b'\n' ∷ []
block_eol (l ∷ block) = let rest = block_eol block in if is_empty l.eol then rest else l.eol

-- The line ending that joins the new lines.
pub joining_eol : List Line → Line → Option Line → Bytes
unfolding block_eol
joining_eol block last none = block_eol block
joining_eol block last (some l) =
    if is_empty last.eol && not (is_empty l.eol) then l.eol else block_eol block

pub join : Bytes → List Bytes → Bytes
join eol [] = []
join eol (t ∷ []) = t
join eol (t ∷ (u ∷ texts)) = t ++ (eol ++ join eol (u ∷ texts))

-- The deletion of a block, `len(newLines) == 0`.
pub delete_block : Bytes → Line → Line → Option Line → Bytes
delete_block original first last before =
    if ltb last.content_end last.after_end
    then take first.start original ++ drop last.after_end original
    else elim before [
      | none ↦ take first.start original ++ drop last.content_end original
      | some l ↦ take l.content_end original ++ drop last.content_end original
    ]

-- `Apply` behind the search, for the only match `start`.
pub replace_block : Bytes → List Line → List Bytes → List Bytes → ℕ → Result EditError Bytes
unfolding delete_block joining_eol join
replace_block original lines old new start = do
  first ← line_at lines start
  last ← line_at lines (start + length old - 1)
  let eol = joining_eol (take (length old) (drop start lines)) last (line_before lines start)
  ok (
      if is_empty new
      then delete_block original first last (line_before lines start)
      else take first.start original ++ (join eol new ++ drop last.content_end original))

abbrev pub new_lines_of : Bytes → List Bytes
new_lines_of new_text = if is_empty new_text then [] else split b'\n' new_text

-- `len(matches) != 1` is a conflict.
pub with_match : Bytes → List Line → List Bytes → List Bytes → List ℕ → Result EditError Bytes
unfolding replace_block
with_match original lines old new (start ∷ []) = replace_block original lines old new start
with_match original lines old new found = err (conflict (length found))

pub apply : Bytes → Bytes → Bytes → Result EditError Bytes
unfolding editable_text_lines split find_matches with_match
apply original old_text new_text = do
  lines ← editable_text_lines original
  let old = split b'\n' old_text
  with_match original lines old (new_lines_of new_text) (find_matches old 0 lines)
