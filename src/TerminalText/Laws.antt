-- ===== src/TerminalText/Laws.antt =====
-- What internal/terminaltext promises: chunks may be cut anywhere, and no control introducer is left.
use eino_ops_agent_enterpr1s.Base.{
  ℕ, ◌≤◌, Bool, false, ◌&&◌, ◌||◌, [], ◌∷◌, ◌++◌, Bytes, All, ◌==◌, leb, ◌≡◌, refl, sym, ap, arith,
  append_assoc,
}
use eino_ops_agent_enterpr1s.TerminalText.{State, text, csi, string, step, write_string, strip}

-- The bytes that open a control sequence: ESC and the eight-bit forms of CSI, DCS, OSC, PM and APC.
abbrev pub is_introducer : ℕ → Bool
is_introducer value =
    (value == 0x1b)
    || (value == 0x9b)
    || (value == 0x90)
    || (value == 0x9d)
    || (value == 0x9e)
    || (value == 0x9f)

abbrev pub IsPlain : Bytes → Type 0
IsPlain = All (λ value. is_introducer value ≡ false)

-- Writing two chunks writes what writing them as one does: a sequence that a read has split is
-- stripped all the same.
pub write_string-append :
    (s : State) (first second : Bytes)
    → let (mid, early) = write_string s first in
      let (final, late) = write_string mid second in
      write_string s (first ++ second) ≡ (final, early ++ late)
unfolding write_string
write_string-append s [] second = refl
write_string-append s (value ∷ first) second =
    let next = (step s value).0 in
    let written = (step s value).1 in
    let (mid, early) = write_string next first in
    let (final, late) = write_string mid second in
    rw (write_string-append next first second)
      (ap (λ (b : Bytes). (final, b)) (sym (append_assoc written early late)))

-- Plain bytes pass through a stripper that is in its text state.
pub write_string-IsPlain : (input : Bytes) → IsPlain input → write_string text input ≡ (text, input)
unfolding write_string
write_string-IsPlain [] p = refl
write_string-IsPlain (value ∷ input) p = ground (arith, write_string-IsPlain input p.1)

IsPlain-append : (a b : Bytes) → IsPlain a → IsPlain b → IsPlain (a ++ b)
IsPlain-append [] b p q = q
IsPlain-append (x ∷ a) b p q = (p.0, IsPlain-append a b p.1 q)

step-IsPlain : (s : State) (value : ℕ) → IsPlain (step s value).1
step-IsPlain text value = ground arith
step-IsPlain s value = ground arith

write_string-IsPlain' : (s : State) (input : Bytes) → IsPlain (write_string s input).1
unfolding write_string
write_string-IsPlain' s [] = tt
write_string-IsPlain' s (value ∷ input) =
    IsPlain-append (step s value).1 _ (step-IsPlain s value)
      (write_string-IsPlain' (step s value).0 input)

-- No stripped output holds ESC or the eight-bit CSI, DCS, OSC, PM or APC, whatever the input was. (0x98, the eight-bit
-- SOS, passes through.)
pub strip-IsPlain : (input : Bytes) → IsPlain (strip input)
unfolding strip
strip-IsPlain input = write_string-IsPlain' text input

-- Stripping twice is stripping once.
pub strip-strip : (input : Bytes) → strip (strip input) ≡ strip input
strip-strip input = strip_plain (strip input) (strip-IsPlain input)
  where
    strip_plain : (b : Bytes) → IsPlain b → strip b ≡ b
    strip_plain b p = unfold strip in ap (λ (r : State × Bytes). r.1) (write_string-IsPlain b p)

-- The bytes of a control sequence before its final byte.
abbrev IsParameter : ℕ → Type 0
IsParameter value = (leb 0x40 value && leb value 0x7e) ≡ false

write_string-csi :
    (parameters rest : Bytes) (final : ℕ)
    → All IsParameter parameters
    → 0x40 ≤ final
    → final ≤ 0x7e
    → write_string csi (parameters ++ final ∷ rest) ≡ write_string text rest
unfolding write_string
write_string-csi [] rest final p low high = ground arith
write_string-csi (value ∷ parameters) rest final p low high =
    ground (arith, write_string-csi parameters rest final p.1 low high)

-- A control sequence, ESC `[` with any parameter bytes and its final byte, leaves no trace: what
-- follows is read as if the sequence were not there.
pub write_string-control_sequence :
    (parameters rest : Bytes) (final : ℕ)
    → All IsParameter parameters
    → 0x40 ≤ final
    → final ≤ 0x7e
    → write_string text (0x1b ∷ (b'[' ∷ (parameters ++ final ∷ rest))) ≡ write_string text rest
unfolding write_string
write_string-control_sequence parameters rest final p low high =
    write_string-csi parameters rest final p low high

abbrev IsBody : ℕ → Type 0
IsBody value = ((value == 0x07) || (value == 0x1b)) ≡ false

write_string-string :
    (body rest : Bytes)
    → All IsBody body
    → write_string string (body ++ 0x07 ∷ rest) ≡ write_string text rest
unfolding write_string
write_string-string [] rest p = refl
write_string-string (value ∷ body) rest p = ground (arith, write_string-string body rest p.1)

-- An operating system command, ESC `]` with a body and BEL, leaves no trace either.
pub write_string-command :
    (body rest : Bytes)
    → All IsBody body
    → write_string text (0x1b ∷ (b']' ∷ (body ++ 0x07 ∷ rest))) ≡ write_string text rest
unfolding write_string
write_string-command body rest p = write_string-string body rest p
