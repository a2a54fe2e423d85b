-- ===== src/ShellOutput/Generation.antt =====
-- What a chunk of output does to a persistent shell (internal/service/shell_output.go).
use mathlib.Core.Path.{subst}
use eino_ops_agent_enterpr1s.Base.{
  ℕ, ◌+◌, ◌≤◌, true, false, ◌||◌, List, [], ◌∷◌, ◌++◌, ==_refl, Text, Bytes, is_empty, length, take,
  drop, take-append-drop, length-take, if◌then◌else◌, ◌≡◌, ◌⊎◌, inl, inr, refl, sym, ap, ◌∙◌,
  Bool-cases,
}
use eino_ops_agent_enterpr1s.ShellOutput.{
  Stream, stdout, stderr, Event, Shell, update_output_state, part_events, parts_of,
  append_output_events, record_events, append_generation_output, safe_end_of, redact_known_secrets,
  put_pending,
}
use eino_ops_agent_enterpr1s.ShellOutput.Retention.{
  Known, IsUnbordered, safe_end_of-end, safe_end_of-whole,
}

module _ (decode : Bytes → Text) (rune_bytes : ℕ → ℕ) (to_lower : ℕ → ℕ)
    (redact : Bytes → Bytes) where
  part_events-pending :
      (stream : Stream) (parts : List Bytes) (s : Shell)
      → (part_events decode rune_bytes to_lower redact stream parts s).0.pending ≡ s.pending
  unfolding part_events update_output_state
  part_events-pending stream [] s = refl
  part_events-pending stream (part ∷ parts) s =
      part_events-pending stream parts
        (update_output_state decode rune_bytes to_lower redact part s).0

  record_events-pending :
      (events : List Event) (s : Shell) → (record_events events s).0.pending ≡ s.pending
  unfolding record_events
  record_events-pending events s = elim (Bool-cases (is_empty events || s.output_closed)) [
    | inl nothing ↦ rw nothing
    | inr sent ↦ rw sent
  ]

  append_output_events-pending :
      (stream : Stream) (content : Bytes) (s : Shell)
      → (append_output_events decode rune_bytes to_lower redact stream content s).0.pending
        ≡ s.pending
  unfolding append_output_events
  append_output_events-pending stream content s =
      let parts =
        part_events decode rune_bytes to_lower redact stream (parts_of (length content) content)
          s in
      record_events-pending parts.1 parts.0
      ∙ part_events-pending stream (parts_of (length content) content) s

  put_pending-same :
      (stream : Stream) (value : Bytes) (s : Shell)
      → (put_pending decode rune_bytes to_lower redact stream value s).pending stream ≡ value
  put_pending-same stdout value s = refl
  put_pending-same stderr value s = refl

  -- What is done with an output that is cut in two.
  abbrev cut_at : Stream → Shell → Bytes → Bytes → Shell × List Event
  cut_at stream s out rest =
      let content = redact_known_secrets (redact out) s.secrets in
      let held = put_pending decode rune_bytes to_lower redact stream rest s in
      if is_empty content
      then (held, [])
      else append_output_events decode rune_bytes to_lower redact stream content held

  cut_at-pending :
      (stream : Stream) (s : Shell) (out rest : Bytes)
      → (cut_at stream s out rest).0.pending stream ≡ rest
  cut_at-pending stream s out rest =
      let content = redact_known_secrets (redact out) s.secrets in
      let held = put_pending decode rune_bytes to_lower redact stream rest s in
      elim (Bool-cases (is_empty content)) [
        | inl nothing ↦ rw nothing (put_pending-same stream rest s)
        | inr some_text ↦ rw some_text (
            ap (λ pending. pending stream) (append_output_events-pending stream content held)
            ∙ put_pending-same stream rest s)
      ]

  append_generation_output-cut_at :
      (stream : Stream) (added : Bytes) (s : Shell)
      → is_empty added ≡ false
      → s.output_closed ≡ false
      → s.persistence_failed ≡ false
      → s.persistent ≡ true
      → let combined = s.pending stream ++ added in
        let e = safe_end_of s.secrets combined (length combined) in
        append_generation_output decode rune_bytes to_lower redact s.generation stream added s
        ≡ cut_at stream s (take e combined) (drop e combined)
  unfolding append_generation_output
  append_generation_output-cut_at stream added s some_bytes opened sound kept =
      rw (some_bytes, ==_refl s.generation, opened, sound, kept)

  -- A chunk for the current generation of an open persistent shell is joined to what was held back. What
  -- is cut off in front is redacted and goes into events, if anything is left of it; the rest is held back.
  -- If no proper prefix of a known secret ends a known secret, then wherever a secret occurs in what was
  -- held back, the chunk and what follows it, it is in the redacted part or still wholly to come.
  pub append_generation_output-whole :
      (stream : Stream) (added : Bytes) (s : Shell) (future secret before behind : Bytes)
      → is_empty added ≡ false
      → s.output_closed ≡ false
      → s.persistence_failed ≡ false
      → s.persistent ≡ true
      → IsUnbordered s.secrets
      → Known secret s.secrets
      → (s.pending stream ++ added) ++ future ≡ before ++ (secret ++ behind)
      → let after =
          append_generation_output decode rune_bytes to_lower redact s.generation stream added s in
        (out : Bytes) × (s.pending stream ++ added ≡ out ++ after.0.pending stream)
        × (let content = redact_known_secrets (redact out) s.secrets in
            let held =
              put_pending decode rune_bytes to_lower redact stream (after.0.pending stream) s in
            after ≡ (
              if is_empty content
              then (held, [])
              else append_output_events decode rune_bytes to_lower redact stream content held))
        × ((length before + length secret ≤ length out) ⊎ (length out ≤ length before))
  append_generation_output-whole stream added s future secret before behind some_bytes opened sound
        kept free known place =
      let combined = s.pending stream ++ added in
      let e = safe_end_of s.secrets combined (length combined) in
      let after =
        append_generation_output decode rune_bytes to_lower redact s.generation stream added s in
      let is_cut : after ≡ cut_at stream s (take e combined) (drop e combined) =
        append_generation_output-cut_at stream added s some_bytes opened sound kept in
      let held : after.0.pending stream ≡ drop e combined =
        ap (λ (r : Shell × List Event). r.0.pending stream) is_cut
        ∙ cut_at-pending stream s (take e combined) (drop e combined) in
      let whole : combined ≡ take e combined ++ after.0.pending stream =
        sym (take-append-drop e combined) ∙ ap (λ rest. take e combined ++ rest) (sym held) in
      let size : length (take e combined) ≡ e =
        length-take e combined (safe_end_of-end s.secrets combined (length combined)).0 in
      (
        take e combined,
        whole,
        is_cut ∙ ap (λ rest. cut_at stream s (take e combined) rest) (sym held),
        subst (λ n. (length before + length secret ≤ n) ⊎ (n ≤ length before)) (sym size)
            (safe_end_of-whole s.secrets combined future secret before behind free known place),
      )
