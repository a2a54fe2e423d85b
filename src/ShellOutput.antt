-- ===== src/ShellOutput.antt =====
-- The output of an interactive shell: internal/service/shell_output.go. The state has the fields that
-- this file reads or writes; `eventMu` makes each of its functions one step. Strings are bytes, but for
-- the recent output, which the Go code handles as runes: `decode` stands for `[]rune(s)`, and
-- `rune_bytes` for the number of bytes of a rune in `string(runes)`. `redact` is the redactor. The
-- clock, the persistent writer and the published execution events are left out.
pub mod Events
pub mod Retention
pub mod Generation
pub mod Recent
pub mod Delivery
pub mod Examples
use eino_ops_agent_enterpr1s.Base.{
  ℕ, zero, suc, ◌+◌, ◌-◌, ◌*◌, ◌/◌, Bool, true, false, not, ◌&&◌, ◌||◌, Option, none, some, List,
  [], ◌∷◌, ◌++◌, map, Text, Bytes, codes, equal, is_empty, trim_space, contains, has_suffix,
  includes, replace_all, length, take, drop, get_elem?, ltb, leb, ◌==◌, if◌then◌else◌,
}
use eino_ops_agent_enterpr1s.TerminalText.{State, write_string}

abbrev pub max_recent_bytes : ℕ
max_recent_bytes = 16 * 1024

abbrev pub max_event_bytes : ℕ
max_event_bytes = 16 * 1024

-- A stream that is not "stderr" counts as "stdout".
pub data Stream : Type 0 where
  stdout stderr : Stream

-- `SSHShellEvent`, as far as output events fill it.
pub record Event : Type 0 where
  pub sequence : ℕ
  pub stream : Stream
  pub content : Bytes
  pub readable : Bytes

-- `sshShellSubscriber`: the channel holds 256 events, `overflow` is closed or open, and so is `done`.
pub record Subscriber : Type 0 where
  pub events : List Event
  pub overflow : Bool
  pub done : Bool

pub record Shell : Type 0 where
  pub last_sequence : ℕ
  pub generation : ℕ
  pub output_closed : Bool
  pub persistence_failed : Bool  -- reason == "persistence_failed"
  pub persistent : Bool
  pub secrets : List Bytes
  pub pending : Stream → Bytes
  pub ansi_stripper : State
  pub recent_output : Text
  pub secret_prompt : Bool
  pub subscribers : List Subscriber

-- `appendUniqueSecret`.
pub append_unique_secret : List Bytes → Bytes → List Bytes
unfolding contains
append_unique_secret values secret =
    if is_empty secret
    then values
    else if contains values secret
    then values
    else values ++ secret ∷ []

-- `redactKnownSecrets`.
pub redact_known_secrets : Bytes → List Bytes → Bytes
unfolding replace_all
redact_known_secrets content [] = content
redact_known_secrets content (secret ∷ secrets) =
    redact_known_secrets
      (if is_empty secret then content else replace_all content secret (codes "[REDACTED]")) secrets

-- The inner loop of `appendSSHShellGenerationOutput`, from `size` down to 1.
pub hold_back : ℕ → Bytes → Bytes → ℕ → ℕ
unfolding has_suffix
hold_back zero secret combined safe_end = safe_end
hold_back (suc size) secret combined safe_end =
    let smaller = hold_back size secret combined safe_end in
    if has_suffix combined (take (suc size) secret) && ltb (length combined - suc size) safe_end
    then length combined - suc size
    else smaller

abbrev pub max_prefix : Bytes → Bytes → ℕ
max_prefix secret combined =
    let size = length secret - 1 in if ltb (length combined) size then length combined else size

-- The loop over the secrets. An empty one has no prefix.
pub safe_end_of : List Bytes → Bytes → ℕ → ℕ
unfolding hold_back
safe_end_of [] combined safe_end = safe_end
safe_end_of (secret ∷ secrets) combined safe_end =
    safe_end_of secrets combined (hold_back (max_prefix secret combined) secret combined safe_end)

-- `utf8.RuneStart`.
abbrev pub rune_start : ℕ → Bool
rune_start b = not (leb 0x80 b && ltb b 0xc0)

-- `for end > 0 && !utf8.RuneStart(content[end])`.
pub back_to_rune : Bytes → ℕ → ℕ
back_to_rune content zero = zero
back_to_rune content (suc end) =
    let earlier = back_to_rune content end in
    elim (get_elem? content (suc end)) [
      | none ↦ suc end
      | some b ↦ if rune_start b then suc end else earlier
    ]

pub part_end : Bytes → ℕ
unfolding back_to_rune
part_end content =
    if ltb max_event_bytes (length content)
    then (let end = back_to_rune content max_event_bytes in
        if end == 0 then max_event_bytes else end)
    else length content

-- The loop `for content != ""`, on fuel: the parts of an output.
pub parts_of : ℕ → Bytes → List Bytes
unfolding part_end
parts_of zero content = []
parts_of (suc fuel) content =
    let rest = parts_of fuel (drop (part_end content) content) in
    if is_empty content then [] else take (part_end content) content ∷ rest

-- A backspace takes the last rune off its line.
pub back_space : Text → Text
back_space [] = []
back_space (c ∷ []) = if c == b'\n' then c ∷ [] else []
back_space (c ∷ (d ∷ runes)) = c ∷ back_space (d ∷ runes)

pub append_rune : Text → ℕ → Text
unfolding back_space
append_rune runes c =
    if c == b'\r'
    then runes ++ b'\n' ∷ []
    else if c == 0x08
    then back_space runes
    else runes ++ c ∷ []

-- The loop of `appendReadableSSHShellText` over the runes of the new text.
pub append_runes : Text → Text → Text
unfolding append_rune
append_runes runes [] = runes
append_runes runes (c ∷ []) = append_rune runes c
append_runes runes (c ∷ (d ∷ clean)) =
    let joined = append_runes (runes ++ b'\n' ∷ []) clean in
    let next = append_runes (append_rune runes c) (d ∷ clean) in
    if (c == b'\r') && (d == b'\n') then joined else next

pub has_break : Text → Bool
has_break [] = false
has_break (c ∷ s) = (c == b'\r') || (c == b'\n') || has_break s

-- What stands behind the last line break.
pub last_line : Text → Text
unfolding has_break
last_line [] = []
last_line (c ∷ s) =
    let rest = last_line s in if has_break s then rest else if has_break (c ∷ []) then s else c ∷ s

-- `secretPrompt`.
pub asks_secret : (ℕ → ℕ) → Text → Bool
unfolding last_line includes has_suffix trim_space
asks_secret to_lower recent =
    let line = map to_lower (trim_space (last_line recent)) in
    has_suffix line (codes ":")
    && (includes line (codes "password")
        || includes line (codes "passphrase")
        || includes line (codes "token")
        || includes line (codes "secret"))

module _ (rune_bytes : ℕ → ℕ) where
  -- `len(string(runes))`.
  pub text_bytes : Text → ℕ
  text_bytes [] = 0
  text_bytes (c ∷ runes) = rune_bytes c + text_bytes runes

  -- The loop that shortens the recent output, on fuel.
  pub shorten : ℕ → Text → Text
  unfolding text_bytes
  shorten zero runes = runes
  shorten (suc fuel) runes =
      let quarter = length runes / 4 in
      let rest = shorten fuel (drop (if ltb quarter 1 then 1 else quarter) runes) in
      if ltb max_recent_bytes (text_bytes runes) && not (is_empty runes) then rest else runes

  -- `appendReadableSSHShellText`.
  pub append_readable_text : Text → Text → Text
  unfolding append_runes shorten
  append_readable_text previous clean =
      let runes = append_runes previous clean in shorten (length runes) runes

-- `select { case subscriber.events <- event: default: overflow }`.
pub deliver : Event → Subscriber → Subscriber
deliver e s =
    if s.done
    then s
    else if ltb (length s.events) 256
    then record s { events = s.events ++ e ∷ [] }
    else record s { overflow = true }

-- `publishSSHShellEvents`.
pub publish_events : List Event → List Subscriber → List Subscriber
unfolding deliver
publish_events [] subscribers = subscribers
publish_events (e ∷ events) subscribers = publish_events events (map (deliver e) subscribers)

-- The sequence numbers of `recordSSHShellEventsLocked`.
pub numbered : ℕ → List Event → List Event
numbered last [] = []
numbered last (e ∷ events) = record e { sequence = last + 1 } ∷ numbered (last + 1) events

-- `recordSSHShellEventsLocked`, with the events that it records.
pub record_events : List Event → Shell → Shell × List Event
unfolding numbered publish_events
record_events events s =
    if is_empty events || s.output_closed
    then (s, [])
    else (let sent = numbered s.last_sequence events in
        (
          record s {
            last_sequence = s.last_sequence + length events;
            subscribers = publish_events sent s.subscribers;
          },
          sent,
        ))

module _ (decode : Bytes → Text) (rune_bytes : ℕ → ℕ) (to_lower : ℕ → ℕ)
    (redact : Bytes → Bytes) where
  -- `updateSSHShellOutputState`, with the readable text.
  pub update_output_state : Bytes → Shell → Shell × Bytes
  unfolding write_string append_readable_text asks_secret
  update_output_state content s =
      let (stripper, readable) = write_string s.ansi_stripper content in
      let recent = append_readable_text rune_bytes s.recent_output (decode readable) in
      (
        record s {
          ansi_stripper = stripper;
          recent_output = recent;
          secret_prompt = asks_secret to_lower recent;
        },
        readable,
      )

  -- The events of the parts of an output.
  pub part_events : Stream → List Bytes → Shell → Shell × List Event
  unfolding update_output_state
  part_events stream [] s = (s, [])
  part_events stream (part ∷ parts) s =
      let (next, readable) = update_output_state part s in
      let (final, events) = part_events stream parts next in
      (
        final,
        record { sequence = 0; stream = stream; content = part; readable = readable } ∷ events,
      )

  -- `appendSSHShellOutputEventsLocked`, with the events that are recorded.
  pub append_output_events : Stream → Bytes → Shell → Shell × List Event
  unfolding parts_of part_events record_events
  append_output_events stream content s =
      let (next, events) = part_events stream (parts_of (length content) content) s in
      record_events events next

  abbrev pub put_pending : Stream → Bytes → Shell → Shell
  put_pending stream value s = record s {
    pending = λ other. elim other [
      | stdout ↦ elim stream [ stdout ↦ value | stderr ↦ s.pending stdout ]
      | stderr ↦ elim stream [ stdout ↦ s.pending stderr | stderr ↦ value ]
    ];
  }

  -- `appendSSHShellGenerationOutput`, with the events that are recorded.
  pub append_generation_output : ℕ → Stream → Bytes → Shell → Shell × List Event
  unfolding append_output_events safe_end_of redact_known_secrets
  append_generation_output generation stream added s =
      if is_empty added
        || not (s.generation == generation)
        || s.output_closed
        || s.persistence_failed
      then (s, [])
      else if not s.persistent
      then append_output_events stream added s
      else (let combined = s.pending stream ++ added in
          let safe_end = safe_end_of s.secrets combined (length combined) in
          let held = put_pending stream (drop safe_end combined) s in
          let content = redact_known_secrets (redact (take safe_end combined)) s.secrets in
          if is_empty content then (held, []) else append_output_events stream content held)

  pub flush_stream : Stream → Shell → Shell × List Event
  unfolding append_output_events redact_known_secrets
  flush_stream stream s =
      let content = redact_known_secrets (redact (s.pending stream)) s.secrets in
      let cleared = put_pending stream [] s in
      if is_empty content then (cleared, []) else append_output_events stream content cleared

  -- `flushSSHShellPendingLocked`: the streams come in the order of their names.
  pub flush_pending : Shell → Shell × List Event
  unfolding flush_stream
  flush_pending s =
      let (next, first) = flush_stream stderr s in
      let (final, second) = flush_stream stdout next in (final, first ++ second)
