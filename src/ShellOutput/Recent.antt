-- ===== src/ShellOutput/Recent.antt =====
-- The recent output that an interactive shell keeps (internal/service/shell_output.go).
use eino_ops_agent_enterpr1s.Base.{
  ℕ, zero, suc, ◌/◌, ◌≤◌, ◌<◌, [], ◌∷◌, Text, length, length-drop, drop, ltb, if◌then◌else◌, inl,
  inr, arith, Bool-cases,
}
use eino_ops_agent_enterpr1s.ShellOutput.{
  max_recent_bytes, append_runes, text_bytes, shorten, append_readable_text,
}

abbrev dropped : ℕ → ℕ
dropped quarter = if ltb quarter 1 then 1 else quarter

dropped_pos : (quarter : ℕ) → 0 < dropped quarter
dropped_pos quarter = ground arith

module _ (rune_bytes : ℕ → ℕ) where
  shorten-bound :
      (fuel : ℕ) (runes : Text)
      → length runes ≤ fuel
      → text_bytes rune_bytes (shorten rune_bytes fuel runes) ≤ max_recent_bytes
  unfolding shorten text_bytes
  shorten-bound zero [] h = omega arith
  shorten-bound zero (c ∷ s) h = absurd (omega arith)
  shorten-bound (suc fuel) [] h = omega arith
  shorten-bound (suc fuel) (c ∷ s) h =
      elim (Bool-cases (ltb max_recent_bytes (text_bytes rune_bytes (c ∷ s)))) [
        | inl large ↦
            let n = dropped (length (c ∷ s) / 4) in
            rw large (
              shorten-bound fuel (drop n (c ∷ s))
                (omega (arith, length-drop n (c ∷ s), dropped_pos (length (c ∷ s) / 4))))
        | inr fits ↦ rw fits (ground (arith, fits))
      ]

  -- However much text comes in, the recent output that is kept has at most 16,384 bytes. The fuel of the
  -- loop that shortens it, the number of its runes, is enough.
  pub append_readable_text-bound :
      (previous clean : Text)
      → text_bytes rune_bytes (append_readable_text rune_bytes previous clean) ≤ max_recent_bytes
  unfolding append_readable_text
  append_readable_text-bound previous clean =
      let runes = append_runes previous clean in shorten-bound (length runes) runes (omega arith)
