-- ===== src/Redaction.antt =====
-- The redaction of a stream of output: `StreamRedactor` of internal/security/redact.go, over bytes.
-- The regular expressions are parameters: `redact` for `Redactor.Redact`, and `begins` and `ends` for
-- the tests of a line against `privateKeyBegin` and `privateKeyEnd`. A method runs under the lock, so it
-- is one step.
pub mod Lines
pub mod Chunks
pub mod Examples
use eino_ops_agent_enterpr1s.Base.{
  ℕ, zero, suc, Bool, true, false, not, ◌&&◌, ◌||◌, Option, none, some, List, [], ◌∷◌, ◌++◌, Bytes,
  codes, has_suffix, is_empty, length, ◌==◌, if◌then◌else◌,
}

pub record Stream : Type 0 where
  pub pending : Bytes
  pub private_key_block : Bool

abbrev pub new_stream : Stream
new_stream = record { pending = []; private_key_block = false }

abbrev pub starts_newline : Bytes → Bool
starts_newline [] = false
starts_newline (c ∷ s) = c == b'\n'

-- Whether `c`, with `s` behind it, is the last byte of a line.
abbrev pub ends_line : ℕ → Bytes → Bool
ends_line c s = (c == b'\n') || ((c == b'\r') && not (starts_newline s))

-- The first line with its ending, and what follows; `none` where `IndexAny` finds no ending.
pub cut_line : Bytes → Option (Bytes × Bytes)
cut_line [] = none
cut_line (c ∷ s) =
    let later = cut_line s in
    if ends_line c s
    then some (c ∷ [], s)
    else elim later [ none ↦ none | some found ↦ some (c ∷ found.0, found.1) ]

abbrev pub redacted_mark : Bytes
redacted_mark = codes "[REDACTED]"

-- What stands for the first line of a private key block.
pub block_mark : Bytes → Bytes
unfolding has_suffix
block_mark line =
    if has_suffix line (b'\r' ∷ (b'\n' ∷ []))
    then redacted_mark ++ b'\r' ∷ (b'\n' ∷ [])
    else if has_suffix line (b'\n' ∷ [])
    then redacted_mark ++ b'\n' ∷ []
    else if has_suffix line (b'\r' ∷ [])
    then redacted_mark ++ b'\r' ∷ []
    else redacted_mark

module _ (redact : Bytes → Bytes) (begins ends : Bytes → Bool) where
  -- `redactLine`, with the new value of `privateKeyBlock`.
  pub redact_line : Bool → Bytes → Bool × Bytes
  unfolding block_mark
  redact_line block line =
      if block
      then (not (ends line), [])
      else if begins line
      then (not (ends line), block_mark line)
      else (false, redact line)

  -- The loop of `Write`, on fuel; each round takes a line off `pending`.
  pub write_lines : ℕ → Stream → Stream × Bytes
  unfolding cut_line redact_line
  write_lines zero r = (r, [])
  write_lines (suc fuel) r = elim (cut_line r.pending) [
    | none ↦ (r, [])
    | some found ↦
        let (block, out) = redact_line r.private_key_block found.0 in
        let (final, later) =
          write_lines fuel (record { pending = found.1; private_key_block = block }) in
        (final, out ++ later)
  ]

  -- `Write`.
  pub write : Bytes → Stream → Stream × Bytes
  unfolding write_lines
  write added r =
      if is_empty added
      then (r, [])
      else (let pending = r.pending ++ added in
          write_lines (length pending) (record r { pending = pending }))

  -- `Flush`.
  pub flush : Stream → Stream × Bytes
  unfolding redact_line
  flush r =
      if is_empty r.pending
      then (r, [])
      else (let (block, out) = redact_line r.private_key_block r.pending in
          (record { pending = []; private_key_block = block }, out))
