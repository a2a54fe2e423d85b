-- ===== src/TerminalText.antt =====
-- The ANSI stripper of PTY output: internal/terminaltext/strip.go, over the bytes of a string.
pub mod Laws
pub mod Examples
use eino_ops_agent_enterpr1s.Base.{
  ℕ, Bool, true, false, ◌&&◌, ◌||◌, List, [], ◌∷◌, ◌++◌, Bytes, leb, ◌==◌, if◌then◌else◌,
}

-- The field `state` of a `Stripper`.
pub data State : Type 0 where
  text escape csi string string_escape : State

-- The bytes that the loop writes, and the state that it leaves, for one byte `value`.
abbrev pub step : State → ℕ → State × Bytes
step text value =
    if value == 0x1b
    then (escape, [])
    else if value == 0x9b
    then (csi, [])
    else if (value == 0x90) || (value == 0x9d) || (value == 0x9e) || (value == 0x9f)
    then (string, [])
    else (text, value ∷ [])
step escape value =
    if value == b'['
    then (csi, [])
    else if (value == b']')
        || (value == b'P')
        || (value == b'X')
        || (value == b'^')
        || (value == b'_')
    then (string, [])
    else (text, [])
step csi value = if leb 0x40 value && leb value 0x7e then (text, []) else (csi, [])
step string value =
    if value == 0x07
    then (text, [])
    else if value == 0x1b
    then (string_escape, [])
    else (string, [])
step string_escape value =
    if value == b'\\'
    then (text, [])
    else if value == 0x1b
    then (string_escape, [])
    else (string, [])

-- `WriteString`, with the stripper's new state.
unfoldable pub write_string : State → Bytes → State × Bytes
write_string s [] = (s, [])
write_string s (value ∷ input) =
    let (next, written) = step s value in
    let (final, output) = write_string next input in (final, written ++ output)

pub strip : Bytes → Bytes
unfolding write_string
strip input = (write_string text input).1
