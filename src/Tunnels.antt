-- ===== src/Tunnels.antt =====
-- The life of an SSH tunnel (internal/sshtunnel: lifecycle.go, reconnect.go, manager.go, runtime.go). Each section
-- under the locks of a tunnel is one step, of its worker (`run`) or of a caller; opening a connection, serving it
-- and waiting give their results as inputs. A generation is a number, and a tunnel keeps those that are not closed.
-- The counters of connections and bytes are left out, and so is the time of the start. The clean texts of errors come with the inputs.
pub mod Steps
pub mod Delays
pub mod Stages
pub mod Sections
pub mod Lifecycle
pub mod Ranks
pub mod Endings
pub mod Examples
use eino_ops_agent_enterpr1s.Base.{
  ℕ, zero, suc, ◌+◌, ◌-◌, ◌*◌, ltb, Bool, true, false, not, ◌&&◌, ◌||◌, Option, none, some, List,
  [], ◌∷◌, ◌++◌, Text, codes, equal, is_empty, ◌==◌, if◌then◌else◌, Result, ok, err,
}

pub data Status : Type 0 where
  running retrying stopping stopped failed : Status

abbrev pub is_running : Status → Bool
is_running running = true
is_running _ = false

abbrev pub is_retrying : Status → Bool
is_retrying retrying = true
is_retrying _ = false

abbrev pub is_ending : Status → Bool
is_ending stopping = true
is_ending stopped = true
is_ending failed = true
is_ending _ = false

-- `SSHTunnel`.
pub record SshTunnel : Type 0 where
  pub id : Text
  pub host_id : Text
  pub host_name : Text
  pub direction : Text
  pub local_host : Text
  pub local_port : ℕ
  pub remote_host : Text
  pub remote_port : ℕ
  pub status : Status
  pub proxy_used : Bool
  pub error : Text
  pub reconnect_attempt : ℕ

-- What a new connection brings: the name of the host, the ports, and whether there is a proxy or a jump.
pub record Endpoint : Type 0 where
  pub host_name : Text
  pub local_port : ℕ
  pub remote_port : ℕ
  pub proxy_used : Bool

-- Where the goroutine of `run` stands.
pub data Worker : Type 0 where
  serving : ℕ → Worker
  disconnected : ℕ → Text → Worker
  reconnecting waiting opening : ℕ → Worker
  opened : ℕ → ℕ → Endpoint → Worker
  finishing finished : Worker

-- `tunnel`, with `ctx` as whether it is canceled, `retry` as whether its channel is full and `published` as what
-- was handed to `publish`. The channel `done` is closed where the worker has finished.
pub record Tunnel : Type 0 where
  pub value : SshTunnel
  pub runtime : Option ℕ
  pub is_canceled : Bool
  pub retry : Bool
  pub worker : Worker
  pub published : List (SshTunnel × Bool)
  pub open_generations : List ℕ
  pub next_generation : ℕ

abbrev pub publish : Bool → Tunnel → Tunnel
publish terminal t = record t { published = t.published ++ (t.value, terminal) ∷ [] }

abbrev pub as_published : Option Tunnel → Option Tunnel
as_published none = none
as_published (some after) = some (publish false after)

-- `transition`; `none` is `false`.
unfoldable pub transition : (Tunnel → Option Tunnel) → Tunnel → Option Tunnel
transition change t = if t.is_canceled then none else as_published (change t)

abbrev pub go_to : Worker → Tunnel → Tunnel
go_to worker t = record t { worker = worker }

-- The worker goes on after a transition, or finishes.
abbrev pub or_finish : Worker → Tunnel → Option Tunnel → Tunnel
or_finish next t none = go_to finishing t
or_finish next t (some after) = go_to next after

abbrev pub without : ℕ → List ℕ → List ℕ
without g [] = []
without g (x ∷ xs) = if x == g then without g xs else x ∷ without g xs

-- `generation.close`.
abbrev pub close_generation : ℕ → Tunnel → Tunnel
close_generation g t = record t { open_generations = without g t.open_generations }

abbrev pub is_runtime : Tunnel → ℕ → Bool
is_runtime t g = elim t.runtime [ none ↦ false | some current ↦ current == g ]

-- The transitions of `run`, `reconnect` and `forward`.
abbrev pub disconnect : ℕ → Text → Tunnel → Option Tunnel
disconnect g failure t =
    if is_runtime t g && is_running t.value.status
    then some (record t {
      runtime = none;
      value = record t.value { status = retrying; error = failure; reconnect_attempt = 0 };
    })
    else none

abbrev pub count_attempt : ℕ → Tunnel → Option Tunnel
count_attempt attempt t =
    if is_retrying t.value.status
    then some (record t { value = record t.value { reconnect_attempt = attempt } })
    else none

abbrev pub note_failure : Text → Tunnel → Option Tunnel
note_failure failure t =
    if is_retrying t.value.status
    then some (record t { value = record t.value { error = failure } })
    else none

abbrev pub has_runtime : Tunnel → Bool
has_runtime t = elim t.runtime [ none ↦ false | some g ↦ true ]

abbrev pub reconnect_as : ℕ → Endpoint → Tunnel → Option Tunnel
reconnect_as g e t =
    if not (is_retrying t.value.status) || has_runtime t
    then none
    else some (record t {
      runtime = some g;
      retry = false;
      value = record t.value {
        host_name = e.host_name;
        local_port = e.local_port;
        remote_port = e.remote_port;
        proxy_used = e.proxy_used;
        status = running;
        error = [];
        reconnect_attempt = 0;
      };
    })

abbrev pub note_forward : ℕ → Text → Tunnel → Option Tunnel
note_forward g failure t =
    if not (is_runtime t g) || not (is_running t.value.status) || equal t.value.error failure
    then none
    else some (record t { value = record t.value { error = failure } })

-- `finish`; closing the generation and the section after it are one step.
unfoldable pub finish : Tunnel → Tunnel
finish t =
    let value : SshTunnel =
      if t.is_canceled then record t.value { status = stopped } else record t.value {
        status = failed;
        error =
            if is_empty t.value.error
            then codes "SSH tunnel stopped unexpectedly"
            else t.value.error;
      } in
    let left : List ℕ = elim t.runtime [
      | none ↦ t.open_generations
      | some g ↦ without g t.open_generations
    ] in
    publish true (record t {
      value = value;
      runtime = none;
      is_canceled = true;
      worker = finished;
      open_generations = left;
    })

-- The worker serves the new generation, or closes it and finishes.
abbrev pub or_close : ℕ → Tunnel → Option Tunnel → Tunnel
or_close g t none = close_generation g (go_to finishing t)
or_close g t (some after) = go_to (serving g) after
