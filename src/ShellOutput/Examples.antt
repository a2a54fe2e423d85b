-- ===== src/ShellOutput/Examples.antt =====
-- A persistent shell with one known secret and one subscriber.
use mathlib.Core.Path.{subst}
use eino_ops_agent_enterpr1s.Base.{
  ℕ, ◌+◌, ◌≤◌, true, false, List, [], ◌∷◌, ◌++◌, Bytes, codes, is_empty, length, if◌then◌else◌,
  zero, suc, ◌-◌, ◌<◌, take, drop, ◌≡◌, ◌≢◌, ◌⊎◌, inl, inr, refl, ap, arith,
}
use eino_ops_agent_enterpr1s.TerminalText.{text}
use eino_ops_agent_enterpr1s.ShellOutput.{
  max_recent_bytes, stdout, stderr, Event, Shell, parts_of, text_bytes, append_readable_text,
  record_events, append_output_events, put_pending, append_generation_output, redact_known_secrets,
}
use eino_ops_agent_enterpr1s.ShellOutput.Events.{joined, AreCut, parts_of-AreCut}
use eino_ops_agent_enterpr1s.ShellOutput.Retention.{Known, IsUnbordered}
use eino_ops_agent_enterpr1s.ShellOutput.Generation.{append_generation_output-whole}
use eino_ops_agent_enterpr1s.ShellOutput.Recent.{append_readable_text-bound}
use eino_ops_agent_enterpr1s.ShellOutput.Delivery.{IsNumbered, AreServed, record_events-IsServed}

abbrev same : Bytes → Bytes
same s = s

abbrev one_byte : ℕ → ℕ
one_byte c = 1

abbrev same_code : ℕ → ℕ
same_code c = c

abbrev new_shell : List Bytes → Shell
new_shell secrets = record {
  last_sequence = 7;
  generation = 1;
  output_closed = false;
  persistence_failed = false;
  persistent = true;
  secrets = secrets;
  pending = λ stream. [];
  ansi_stripper = text;
  recent_output = [];
  secret_prompt = false;
  subscribers = record { events = []; overflow = false; done = false } ∷ [];
}

abbrev contents : List Event → List Bytes
contents [] = []
contents (e ∷ events) = e.content ∷ contents events

abbrev output_of : List Bytes → Bytes → Shell × List Event
output_of secrets added =
    append_generation_output same one_byte same_code same 1 stdout added (new_shell secrets)

-- The start of a secret is held back, and the whole of it is redacted.
output_of-start :
    (contents (output_of (codes "tok" ∷ []) (codes "a to")).1 ≡ codes "a " ∷ [])
    × ((output_of (codes "tok" ∷ []) (codes "a to")).0.pending stdout ≡ codes "to")
    × (contents (output_of (codes "tok" ∷ []) (codes "a tok")).1 ≡ codes "a [REDACTED]" ∷ [])
unfolding append_generation_output
output_of-start = (refl, refl, refl)

-- A secret that ends with its own first letter: only this letter is held back, and the rest is not redacted.
output_of-bordered :
    (contents (output_of (codes "test" ∷ []) (codes "test")).1 ≡ codes "tes" ∷ [])
    × ((output_of (codes "test" ∷ []) (codes "test")).0.pending stdout ≡ codes "t")
unfolding append_generation_output
output_of-bordered = (refl, refl)

parts_of-AreCut_example :
    (joined (parts_of (length (codes "ok")) (codes "ok")) ≡ codes "ok")
    × AreCut (parts_of (length (codes "ok")) (codes "ok"))
parts_of-AreCut_example = parts_of-AreCut (codes "ok")

append_readable_text-bound_example :
    text_bytes one_byte (append_readable_text one_byte (codes "a") (codes "b")) ≤ max_recent_bytes
append_readable_text-bound_example = append_readable_text-bound one_byte (codes "a") (codes "b")

abbrev two_events : List Event
two_events =
    record { sequence = 0; stream = stdout; content = codes "a"; readable = codes "a" }
    ∷ (record { sequence = 0; stream = stderr; content = codes "b"; readable = codes "b" } ∷ [])

record_events-IsServed_example :
    let (after, sent) = record_events two_events (new_shell []) in
    IsNumbered 7 two_events sent
    × (after.last_sequence ≡ 9)
    × AreServed sent (new_shell []).subscribers after.subscribers
record_events-IsServed_example = record_events-IsServed two_events (new_shell []) refl

abbrev token : Bytes
token = b't' ∷ (b'o' ∷ [])

abbrev first : Bytes → ℕ
first [] = 0
first (c ∷ s) = c

token-IsUnbordered : IsUnbordered (token ∷ [])
token-IsUnbordered s t k known other pos a b =
    let e = only s known in
    let f = only t other in rw (e, f) (by_size k pos (subst (λ u. k < length u) e a))
  where
    only : (s : Bytes) → Known s (token ∷ []) → s ≡ token
    only s (inl e) = e
    only s (inr h) = absurd h

    by_size : (k : ℕ) → 0 < k → k < 2 → take k token ≢ drop (2 - k) token
    by_size zero p q h = absurd (omega arith)
    by_size (suc zero) p q h = omega (arith, ap first h)
    by_size (suc (suc k)) p q h = absurd (omega arith)

-- The chunk ends with the start of the secret.
append_generation_output-whole_example :
    let after = output_of (token ∷ []) (b'a' ∷ (b't' ∷ [])) in
    (out : Bytes) × (b'a' ∷ (b't' ∷ []) ≡ out ++ after.0.pending stdout)
    × (let content = redact_known_secrets out (token ∷ []) in
        let held =
          put_pending same one_byte same_code same stdout
            (after.0.pending stdout)
            (new_shell (token ∷ [])) in
        after ≡ (
          if is_empty content
          then (held, [])
          else append_output_events same one_byte same_code same stdout content held))
    × ((1 + 2 ≤ length out) ⊎ (length out ≤ 1))
append_generation_output-whole_example =
    append_generation_output-whole same one_byte same_code same stdout (b'a' ∷ (b't' ∷ []))
      (new_shell (token ∷ [])) (b'o' ∷ []) token (b'a' ∷ []) [] refl refl refl refl
      token-IsUnbordered (inl refl) refl
