-- ===== src/Redaction/Examples.antt =====
-- A stream whose private keys begin with a line `B` and end with a line `E`.
use eino_ops_agent_enterpr1s.Base.{ℕ, Bool, false, [], ◌∷◌, ◌++◌, Bytes, ◌==◌, ◌≡◌, refl}
use eino_ops_agent_enterpr1s.Redaction.{new_stream, block_mark, write}
use eino_ops_agent_enterpr1s.Redaction.Lines.{split_lines, redact_lines}
use eino_ops_agent_enterpr1s.Redaction.Chunks.{write-append, write-block_mark}

abbrev keep : Bytes → Bytes
keep line = line

abbrev starts_with : ℕ → Bytes → Bool
starts_with b [] = false
starts_with b (c ∷ line) = c == b

write-append_example :
    write keep
      (starts_with b'B')
      (starts_with b'E')
      (b'x' ∷ (b'\n' ∷ (b'y' ∷ [])) ++ b'\n' ∷ [])
      new_stream
    ≡ (
      (write keep
          (starts_with b'B')
          (starts_with b'E')
          (b'\n' ∷ [])
          (write keep
            (starts_with b'B')
            (starts_with b'E')
            (b'x' ∷ (b'\n' ∷ (b'y' ∷ [])))
            new_stream).0).0,
      (write keep (starts_with b'B') (starts_with b'E') (b'x' ∷ (b'\n' ∷ (b'y' ∷ []))) new_stream).1
          ++ (write keep
              (starts_with b'B')
              (starts_with b'E')
              (b'\n' ∷ [])
              (write keep
                (starts_with b'B')
                (starts_with b'E')
                (b'x' ∷ (b'\n' ∷ (b'y' ∷ [])))
                new_stream).0).1,
    )
write-append_example =
    write-append keep (starts_with b'B') (starts_with b'E') (b'x' ∷ (b'\n' ∷ (b'y' ∷ [])))
      (b'\n' ∷ []) new_stream refl

abbrev key : Bytes
key = b'B' ∷ (b'\n' ∷ (b'k' ∷ (b'\n' ∷ (b'E' ∷ (b'\n' ∷ (b'x' ∷ (b'\n' ∷ [])))))))

write-block_mark_example :
    (write keep (starts_with b'B') (starts_with b'E') key new_stream).1
    ≡ block_mark (b'B' ∷ (b'\n' ∷ []))
      ++ (redact_lines keep
          (starts_with b'B')
          (starts_with b'E')
          false
          ((b'x' ∷ (b'\n' ∷ [])) ∷ [])).1
unfolding split_lines
write-block_mark_example =
    write-block_mark keep (starts_with b'B') (starts_with b'E') b'B'
      (b'\n' ∷ (b'k' ∷ (b'\n' ∷ (b'E' ∷ (b'\n' ∷ (b'x' ∷ (b'\n' ∷ []))))))) new_stream
      (b'B' ∷ (b'\n' ∷ [])) (b'E' ∷ (b'\n' ∷ [])) ((b'k' ∷ (b'\n' ∷ [])) ∷ [])
      ((b'x' ∷ (b'\n' ∷ [])) ∷ []) refl refl refl refl (refl, tt) refl
