-- ===== src/Redaction/Chunks.antt =====
-- The redaction of a stream does not depend on how it is cut into chunks, and writes nothing of a private
-- key (internal/security/redact.go).
use eino_ops_agent_enterpr1s.Base.{
  ℕ, Bool, true, false, List, [], ◌∷◌, ◌++◌, append-nil, append_assoc, Bytes, length, All, ◌≡◌,
  refl, sym, ap, ◌∙◌, arith,
}
use eino_ops_agent_enterpr1s.Redaction.{Stream, redact_line, block_mark, write}
use eino_ops_agent_enterpr1s.Redaction.Lines.{
  split_lines, IsUncut, split_lines-append, redact_lines, redact_lines-append, lines_written,
  write_lines-lines,
}

append-IsUncut :
    (s : Bytes) (c : ℕ) (added : Bytes) → IsUncut (c ∷ added) → IsUncut (s ++ c ∷ added)
append-IsUncut [] c added h = h
append-IsUncut (d ∷ []) c added h = h
append-IsUncut (d ∷ (e ∷ s)) c added h = append-IsUncut (e ∷ s) c added h

module _ (redact : Bytes → Bytes) (begins ends : Bytes → Bool) where
  abbrev grown : Stream → Bytes → Stream
  grown r added = record r { pending = r.pending ++ added }

  abbrev followed_by : Stream × Bytes → (Stream → Stream × Bytes) → Stream × Bytes
  followed_by (r, out) f = ((f r).0, out ++ (f r).1)

  write-lines_written :
      (c : ℕ) (added : Bytes) (r : Stream)
      → write redact begins ends (c ∷ added) r
        ≡ lines_written redact begins ends (grown r (c ∷ added))
  unfolding write
  write-lines_written c added r =
      write_lines-lines redact begins ends (length (r.pending ++ c ∷ added)) (grown r (c ∷ added))
        (omega arith)

  lines_written-append :
      (r : Stream) (added : Bytes)
      → IsUncut r.pending
      → lines_written redact begins ends (grown r added)
        ≡ followed_by
            (lines_written redact begins ends r)
            (λ next. lines_written redact begins ends (grown next added))
  lines_written-append r added h = rw (
    split_lines-append r.pending added h,
    redact_lines-append redact begins ends r.private_key_block (split_lines r.pending).0
        (split_lines ((split_lines r.pending).1 ++ added)).0,
  )

  -- A chunk that does not end in a carriage return may be written apart from the next one: the output
  -- and the stream are those of both chunks written as one.
  pub write-append :
      (first second : Bytes) (r : Stream)
      → IsUncut first
      → write redact begins ends (first ++ second) r ≡ (
        (write redact begins ends second (write redact begins ends first r).0).0,
        (write redact begins ends first r).1
            ++ (write redact begins ends second (write redact begins ends first r).0).1,
      )
  unfolding write
  write-append [] second r h = refl
  write-append (c ∷ first) [] r h =
      rw (append-nil first, append-nil (write redact begins ends (c ∷ first) r).1)
  write-append (c ∷ first) (d ∷ second) r h =
      write-lines_written c (first ++ d ∷ second) r
      ∙ ap (λ p. lines_written redact begins ends (record r { pending = p }))
          (sym (append_assoc r.pending (c ∷ first) (d ∷ second)))
      ∙ lines_written-append (grown r (c ∷ first)) (d ∷ second) (append-IsUncut r.pending c first h)
      ∙ rejoin
    where
      rejoin :
          followed_by
            (lines_written redact begins ends (grown r (c ∷ first)))
            (λ next. lines_written redact begins ends (grown next (d ∷ second)))
          ≡ (
            (write redact begins ends (d ∷ second) (write redact begins ends (c ∷ first) r).0).0,
            (write redact begins ends (c ∷ first) r).1
                ++ (write redact begins ends
                    (d ∷ second)
                    (write redact begins ends (c ∷ first) r).0).1,
          )
      rejoin = rw (
        write-lines_written c first r,
        write-lines_written d second (lines_written redact begins ends (grown r (c ∷ first))).0,
      )

  silent :
      (body : List Bytes)
      → All (λ line. ends line ≡ false) body
      → redact_lines redact begins ends true body ≡ (true, [])
  unfolding redact_lines redact_line
  silent [] h = refl
  silent (line ∷ body) h = rw (h.0, silent body h.1)

  -- Of a private key in the lines that a chunk completes, from the line that begins it to the one that
  -- ends it, nothing is written but one mark in place of the first line.
  pub write-block_mark :
      (c : ℕ) (added : Bytes) (r : Stream) (first last : Bytes) (body rest : List Bytes)
      → r.private_key_block ≡ false
      → (split_lines (r.pending ++ c ∷ added)).0 ≡ first ∷ (body ++ last ∷ rest)
      → begins first ≡ true
      → ends first ≡ false
      → All (λ line. ends line ≡ false) body
      → ends last ≡ true
      → (write redact begins ends (c ∷ added) r).1
        ≡ block_mark first ++ (redact_lines redact begins ends false rest).1
  unfolding redact_line redact_lines
  write-block_mark c added r first last body rest outside lines begun more inside close = rw (
    write-lines_written c added r,
    lines,
    outside,
    begun,
    more,
    redact_lines-append redact begins ends true body (last ∷ rest),
    silent body inside,
    close,
  )
