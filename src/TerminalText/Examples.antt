-- ===== src/TerminalText/Examples.antt =====
-- A coloured word, and a window title, stripped.
use eino_ops_agent_enterpr1s.Base.{[], ◌∷◌, ◌++◌, ◌≡◌, refl, arith, Bytes}
use eino_ops_agent_enterpr1s.TerminalText.{text, write_string, strip}
use eino_ops_agent_enterpr1s.TerminalText.Laws.{write_string-append, write_string-control_sequence}

abbrev coloured : Bytes
coloured = 0x1b ∷ (b'[' ∷ (b'3' ∷ (b'1' ∷ (b'm' ∷ (b'o' ∷ (b'k' ∷ []))))))

strip-coloured : strip coloured ≡ b'o' ∷ (b'k' ∷ [])
unfolding strip
strip-coloured = refl

-- The bytes of the rune U+8FD0 (in UTF-8) and what comes behind it.
strip-rune :
    strip (b'a' ∷ (0xe8 ∷ (0xbf ∷ (0x90 ∷ (b'o' ∷ (b'k' ∷ [])))))) ≡ b'a' ∷ (0xe8 ∷ (0xbf ∷ []))
unfolding strip
strip-rune = refl

write_string-append_example :
    write_string text ((0x1b ∷ (b'[' ∷ [])) ++ (b'3' ∷ (b'1' ∷ (b'm' ∷ (b'o' ∷ (b'k' ∷ []))))))
    ≡ (text, b'o' ∷ (b'k' ∷ []))
unfolding write_string
write_string-append_example =
    write_string-append text (0x1b ∷ (b'[' ∷ [])) (b'3' ∷ (b'1' ∷ (b'm' ∷ (b'o' ∷ (b'k' ∷ [])))))

write_string-control_sequence_example :
    write_string text (0x1b ∷ (b'[' ∷ ((b'3' ∷ (b'1' ∷ [])) ++ b'm' ∷ (b'o' ∷ (b'k' ∷ [])))))
    ≡ write_string text (b'o' ∷ (b'k' ∷ []))
write_string-control_sequence_example =
    write_string-control_sequence (b'3' ∷ (b'1' ∷ [])) (b'o' ∷ (b'k' ∷ [])) b'm' (refl, (refl, tt))
      (omega arith) (omega arith)

-- The eight-bit SOS is kept.
strip-sos : strip (0x98 ∷ (b'o' ∷ [])) ≡ 0x98 ∷ (b'o' ∷ [])
unfolding strip
strip-sos = refl
