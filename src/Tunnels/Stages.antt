-- ===== src/Tunnels/Stages.antt =====
-- What holds of a tunnel while its worker stands at each of its stages (internal/sshtunnel).
use mathlib.Core.Path.{subst}
use eino_ops_agent_enterpr1s.Base.{
  ℕ, Bool, true, false, not, ◌&&◌, ◌||◌, Option, none, some, List, [], ◌∷◌, ◌++◌, All, Text, equal,
  if◌then◌else◌, ◌≡◌, ◌⊎◌, inl, inr, refl, sym, ap, ◌∙◌, arith, Bool-cases,
}
use eino_ops_agent_enterpr1s.Tunnels.{
  Status, running, retrying, stopping, stopped, SshTunnel, Endpoint, Worker, serving, disconnected,
  reconnecting, waiting, opening, opened, finishing, finished, Tunnel, publish, transition,
  as_published, is_running, is_retrying, is_runtime, has_runtime, disconnect, count_attempt,
  note_failure, reconnect_as, note_forward,
}

-- The status that belongs to a stage; or the tunnel is stopping, and canceled.
abbrev pub Phase : Status → Status → Bool → Type 0
Phase base status canceled = (status ≡ base) ⊎ ((status ≡ stopping) × (canceled ≡ true))

abbrev pub Stage : Worker → Option ℕ → List ℕ → Status → Bool → Type 0
Stage (serving g) runtime open_ones status canceled =
    (runtime ≡ some g) × (open_ones ≡ g ∷ []) × Phase running status canceled
Stage (disconnected g failure) runtime open_ones status canceled =
    (runtime ≡ some g) × (open_ones ≡ []) × Phase running status canceled
Stage (reconnecting attempt) runtime open_ones status canceled =
    (runtime ≡ none) × (open_ones ≡ []) × Phase retrying status canceled
Stage (waiting attempt) runtime open_ones status canceled =
    (runtime ≡ none) × (open_ones ≡ []) × Phase retrying status canceled
Stage (opening attempt) runtime open_ones status canceled =
    (runtime ≡ none) × (open_ones ≡ []) × Phase retrying status canceled
Stage (opened attempt g e) runtime open_ones status canceled =
    (runtime ≡ none) × (open_ones ≡ g ∷ []) × Phase retrying status canceled
Stage finishing runtime open_ones status canceled = (canceled ≡ true) × (open_ones ≡ [])
Stage finished runtime open_ones status canceled =
    (canceled ≡ true) × (open_ones ≡ []) × (status ≡ stopped) × (runtime ≡ none)

abbrev pub is_finished : Worker → Bool
is_finished finished = true
is_finished _ = false

abbrev pub IsQuiet : SshTunnel × Bool → Type 0
IsQuiet (value, terminal) = terminal ≡ false

-- The last event that was published shows the tunnel as it is, and it is the only one that can be the terminal one.
abbrev pub IsTold : SshTunnel → Bool → List (SshTunnel × Bool) → Type 0
IsTold value terminal published =
    (earlier : List (SshTunnel × Bool)) × (published ≡ earlier ++ (value, terminal) ∷ [])
    × All IsQuiet earlier

abbrev pub IsSound : Tunnel → Type 0
IsSound t =
    Stage t.worker t.runtime t.open_generations t.value.status t.is_canceled
    × IsTold t.value (is_finished t.worker) t.published

All-snoc :
    (earlier : List (SshTunnel × Bool)) (value : SshTunnel)
    → All IsQuiet earlier
    → All IsQuiet (earlier ++ (value, false) ∷ [])
All-snoc [] value quiet = (refl, tt)
All-snoc (e ∷ earlier) value (q, quiet) = (q, All-snoc earlier value quiet)

pub IsTold-next :
    (value next : SshTunnel) (terminal : Bool) (published : List (SshTunnel × Bool))
    → IsTold value false published
    → IsTold next terminal (published ++ (next, terminal) ∷ [])
IsTold-next value next terminal published (earlier, e, quiet) =
    (published, refl, subst (All IsQuiet) (sym e) (All-snoc earlier value quiet))

pub transition-canceled :
    (change : Tunnel → Option Tunnel) (t : Tunnel)
    → t.is_canceled ≡ true
    → transition change t ≡ none
unfolding transition
transition-canceled change t canceled = rw canceled refl

pub transition-live :
    (change : Tunnel → Option Tunnel) (t : Tunnel) {after : Tunnel}
    → t.is_canceled ≡ false
    → change t ≡ some after
    → transition change t ≡ some (publish false after)
unfolding transition
transition-live change t live e =
    ap (λ (b : Bool). if b then none else as_published (change t)) live ∙ ap as_published e

-- The changes that the transitions make at the stages where they are made.
pub disconnect-live :
    (g : ℕ) (failure : Text) (t : Tunnel)
    → t.runtime ≡ some g
    → t.value.status ≡ running
    → disconnect g failure t
      ≡ some (record t {
        runtime = none;
        value = record t.value { status = retrying; error = failure; reconnect_attempt = 0 };
      })
disconnect-live g failure t r s =
    let test : is_runtime t g && is_running t.value.status ≡ true = rw (r, s) (ground arith) in
    rw test refl

pub count_attempt-live :
    (attempt : ℕ) (t : Tunnel)
    → t.value.status ≡ retrying
    → count_attempt attempt t
      ≡ some (record t { value = record t.value { reconnect_attempt = attempt } })
count_attempt-live attempt t s = let test = ap is_retrying s in rw test refl

pub note_failure-live :
    (failure : Text) (t : Tunnel)
    → t.value.status ≡ retrying
    → note_failure failure t ≡ some (record t { value = record t.value { error = failure } })
note_failure-live failure t s = let test = ap is_retrying s in rw test refl

pub reconnect_as-live :
    (g : ℕ) (e : Endpoint) (t : Tunnel)
    → t.runtime ≡ none
    → t.value.status ≡ retrying
    → reconnect_as g e t
      ≡ some (record t {
        runtime = some g;
        retry = false;
        value = record t.value {
          host_name = e.host_name;
          local_port = e.local_port;
          remote_port = e.remote_port;
          proxy_used = e.proxy_used;
          status = running;
          error = [];
          reconnect_attempt = 0;
        };
      })
reconnect_as-live g e t r s =
    let test : not (is_retrying t.value.status) || has_runtime t ≡ false = rw (r, s) refl in
    rw test refl

pub transition-unchanged :
    (change : Tunnel → Option Tunnel) (t : Tunnel) → change t ≡ none → transition change t ≡ none
unfolding transition
transition-unchanged change t e = elim (Bool-cases t.is_canceled) [
  | inl canceled ↦ transition-canceled change t canceled
  | inr live ↦
      ap (λ (b : Bool). if b then none else as_published (change t)) live ∙ ap as_published e
]

-- What `forward` changes.
pub note_forward-some :
    (g : ℕ) (failure : Text) (t : Tunnel) {after : Tunnel}
    → note_forward g failure t ≡ some after
    → after ≡ record t { value = record t.value { error = failure } }
note_forward-some g failure t h =
    elim (Bool-cases
      (not (is_runtime t g) || not (is_running t.value.status) || equal t.value.error failure)) [
        | inl kept ↦ cc (sym h, kept)
        | inr new ↦ ground (arith, new, h)
      ]
