-- ===== src/FileEdit/Lines.antt =====
-- `editableTextLines` of internal/fileedit/apply.go cuts a file without losing a byte.
use mathlib.Core.Path.{subst}
use eino_ops_agent_enterpr1s.Base.{
  ℕ, zero, suc, ◌+◌, ◌-◌, ◌≤◌, ◌<◌, true, some, List, [], ◌∷◌, ◌++◌, Bytes, has_prefix, length,
  take, drop, take-append-drop, length-take, length-drop, drop_all, drop-add, Option-cases, ltb,
  Bool-cases, ok, ◌≡◌, inl, inr, refl, sym, ap, ◌∙◌, arith, append-nil,
}
use eino_ops_agent_enterpr1s.FileEdit.{
  Line, slice, index_byte, content_end_of, ended_line, open_line, lines_from, body_start, bom,
  editable_text_lines,
}

-- The bytes of the lines, one behind the other.
abbrev pub bytes_of : List Line → Bytes
bytes_of [] = []
bytes_of (l ∷ lines) = l.text ++ (l.eol ++ bytes_of lines)

-- The lines stand one behind the other, the first at `n`, and their offsets say so.
abbrev pub Placed : ℕ → List Line → Type 0
Placed n [] = Unit
Placed n (l ∷ lines) =
    (l.start ≡ n)
    × (l.content_end ≡ n + length l.text)
    × (l.after_end ≡ l.content_end + length l.eol)
    × Placed l.after_end lines

slice-drop : (s : Bytes) (a b : ℕ) → a ≤ b → slice s a b ++ drop b s ≡ drop a s
slice-drop s a b h =
    let e : b ≡ a + (b - a) = omega arith in
    subst (λ m. slice s a b ++ drop m s ≡ drop a s) (sym e)
      (rw (drop-add a (b - a) s) (take-append-drop (b - a) (drop a s)))

length-slice : (s : Bytes) (a b : ℕ) → a ≤ b → b ≤ length s → length (slice s a b) ≡ b - a
length-slice s a b h k = length-take (b - a) (drop a s) (omega (arith, length-drop a s))

index_byte-lt : (s : Bytes) (b : ℕ) (i : ℕ) → index_byte s b ≡ some i → i < length s
unfolding index_byte
index_byte-lt [] b i h = cc
index_byte-lt (c ∷ s) b i h = elim (Option-cases (index_byte s b)) [
  | inl nowhere ↦ ground arith
  | inr (j, found) ↦ ground (arith, index_byte-lt s b j found)
]

content_end_of_bounds :
    (s : Bytes) (start newline : ℕ)
    → start ≤ newline
    → (start ≤ content_end_of s start newline) × (content_end_of s start newline ≤ newline)
unfolding content_end_of
content_end_of_bounds s start newline h = ground arith

-- What a line at `n` has to say of itself.
abbrev pub IsAt : ℕ → Line → Type 0
IsAt n l =
    (l.start ≡ n)
    × (l.content_end ≡ n + length l.text)
    × (l.after_end ≡ l.content_end + length l.eol)

ended_line-IsAt :
    (s : Bytes) (start newline : ℕ)
    → start ≤ newline
    → newline < length s
    → IsAt start (ended_line s start newline)
unfolding ended_line
ended_line-IsAt s start newline h k =
    let (low, high) = content_end_of_bounds s start newline h in
    (
      refl,
      omega (arith, length-slice s start (content_end_of s start newline) low (omega arith)),
      omega (
        arith,
        length-slice s (content_end_of s start newline) (newline + 1) (omega arith) (omega arith),
      ),
    )

ended_line-bytes :
    (s : Bytes) (start newline : ℕ)
    → start ≤ newline
    → let l = ended_line s start newline in l.text ++ (l.eol ++ drop (newline + 1) s) ≡ drop start s
unfolding ended_line
ended_line-bytes s start newline h =
    let (low, high) = content_end_of_bounds s start newline h in
    let stop = content_end_of s start newline in
    ap (◌++◌ (slice s start stop)) (slice-drop s stop (newline + 1) (omega arith))
    ∙ slice-drop s start stop low

open_line-IsAt : (s : Bytes) (start : ℕ) → start ≤ length s → IsAt start (open_line s start)
unfolding open_line
open_line-IsAt s start h = (refl, omega (arith, length-drop start s), omega arith)

pub lines_from-bytes :
    (fuel : ℕ) (s : Bytes) (start : ℕ)
    → start ≤ length s
    → length s - start ≤ fuel
    → (bytes_of (lines_from fuel s start) ≡ drop start s) × Placed start (lines_from fuel s start)
unfolding lines_from
lines_from-bytes zero s start h f = (sym (drop_all start s (omega arith)), tt)
lines_from-bytes (suc fuel) s start h f = elim (Bool-cases (ltb start (length s))) [
  | inr over ↦ rw over (sym (drop_all start s (ground arith)), tt)
  | inl more ↦ rw more (elim (Option-cases (index_byte (drop start s) b'\n')) [
    | inl nowhere ↦
        rw nowhere
          (append-nil (drop start s), (refl, omega (arith, length-drop start s), omega arith, tt))
    | inr (offset, found) ↦
        let inside = index_byte-lt (drop start s) b'\n' offset found in
        let bound : start + offset < length s = omega (arith, length-drop start s) in
        let (rest, placed) =
          lines_from-bytes fuel s (start + offset + 1) (omega arith) (omega arith) in
        let (at, ends, stops) = ended_line-IsAt s start (start + offset) (omega arith) bound in
        rw found (
          ap
                (λ b.
                  (ended_line s start (start + offset)).text
                  ++ ((ended_line s start (start + offset)).eol ++ b))
                rest
              ∙ ended_line-bytes s start (start + offset) (omega arith),
          (at, ends, stops, placed),
        )
  ])
]

has_prefix-le : (s prefix : Bytes) → has_prefix s prefix ≡ true → length prefix ≤ length s
unfolding has_prefix
has_prefix-le s [] h = omega arith
has_prefix-le [] (b ∷ prefix) h = cc
has_prefix-le (c ∷ s) (b ∷ prefix) h = ground (arith, has_prefix-le s prefix)

pub body_start-le : (s : Bytes) → body_start s ≤ length s
unfolding body_start
body_start-le s = ground (arith, has_prefix-le s bom)

-- Cutting a file into lines loses no byte: the byte order mark, if there is one, and the texts and
-- endings of the lines make up the file, and each line's offsets are its place in it.
pub editable_text_lines-bytes :
    (s : Bytes) {lines : List Line}
    → editable_text_lines s ≡ ok lines
    → (take (body_start s) s ++ bytes_of lines ≡ s) × Placed (body_start s) lines
unfolding editable_text_lines
editable_text_lines-bytes s {lines} h =
    let cut : lines_from (length s) s (body_start s) ≡ lines = ground arith in
    let (whole, placed) =
      lines_from-bytes (length s) s (body_start s) (body_start-le s) (omega arith) in
    subst (λ ls. (take (body_start s) s ++ bytes_of ls ≡ s) × Placed (body_start s) ls) cut
      (rw whole (take-append-drop (body_start s) s), placed)
