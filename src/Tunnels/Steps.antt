-- ===== src/Tunnels/Steps.antt =====
-- What the worker of a tunnel and its callers do (internal/sshtunnel: lifecycle.go, reconnect.go, manager.go), and sequences of it.
use eino_ops_agent_enterpr1s.Base.{
  ℕ, zero, suc, ◌+◌, ◌-◌, ◌*◌, ltb, true, false, not, ◌||◌, Option, none, some, List, [], ◌∷◌, Text,
  codes, if◌then◌else◌, Result, ok, err,
}
use eino_ops_agent_enterpr1s.Tunnels.{
  is_retrying, is_ending, SshTunnel, Endpoint, Worker, Tunnel, publish, transition, go_to,
  or_finish, close_generation, disconnect, count_attempt, note_failure, reconnect_as, note_forward,
  finish, or_close, running, stopping, serving, disconnected, reconnecting, waiting, opening,
  opened, finishing,
}

-- What the worker waits for: the end of `serve`, with its error; the timer or `retry`; the end of
-- `openRuntime`, with its error; or nothing but, while it waits, that the tunnel is canceled.
pub data Input : Type 0 where
  serve_ends : Option Text → Input
  by_timer by_retry : Input
  opens : Endpoint → Input
  fails : Text → Input
  goes_on : Input

abbrev pub failure_of : Option Text → Text
failure_of none = codes "SSH tunnel connection closed"
failure_of (some e) = e

-- The next section of the worker. An input that it does not wait for changes nothing.
unfoldable pub work_at : Worker → Input → Tunnel → Tunnel
unfolding transition finish
work_at (serving g) (serve_ends e) t = close_generation g (go_to (disconnected g (failure_of e)) t)
work_at (disconnected g failure) goes_on t =
    if t.is_canceled
    then go_to finishing t
    else or_finish (reconnecting 1) t (transition (disconnect g failure) t)
work_at (reconnecting attempt) goes_on t =
    or_finish (waiting attempt) t (transition (count_attempt attempt) t)
work_at (waiting attempt) by_timer t = go_to (opening attempt) t
work_at (waiting attempt) by_retry t =
    if t.retry then go_to (opening attempt) (record t { retry = false }) else t
work_at (waiting attempt) goes_on t = if t.is_canceled then go_to finishing t else t
work_at (opening attempt) (opens e) t = record t {
  worker = opened attempt t.next_generation e;
  open_generations = t.next_generation ∷ t.open_generations;
  next_generation = t.next_generation + 1;
}
work_at (opening attempt) (fails failure) t =
    if t.is_canceled
    then go_to finishing t
    else or_finish (reconnecting (attempt + 1)) t (transition (note_failure failure) t)
work_at (opened attempt g e) goes_on t = or_close g t (transition (reconnect_as g e) t)
work_at finishing goes_on t = finish t
work_at _ _ t = t

unfoldable pub work : Input → Tunnel → Tunnel
unfolding work_at
work input t = work_at t.worker input t

pub data RetryError : Type 0 where
  not_retrying : RetryError

-- `reconnectDelay` in seconds: at most `rounds` times, while it is below 30, the delay is doubled.
unfoldable pub doubled : ℕ → ℕ → ℕ
doubled zero delay = delay
doubled (suc rounds) delay =
    let longer = doubled rounds (delay * 2) in if ltb delay 30 then longer else delay

-- The delay of the timer before an attempt.
unfoldable pub reconnect_delay : ℕ → ℕ
reconnect_delay attempt = let delay = doubled (attempt - 1) 1 in if ltb 30 delay then 30 else delay

-- The section of `Retry`.
unfoldable pub retry_tunnel : Tunnel → Result RetryError Tunnel
retry_tunnel t =
    if not (is_retrying t.value.status) || t.is_canceled
    then err not_retrying
    else ok (record t { retry = true })

-- The section of `stop`.
unfoldable pub stop_tunnel : Tunnel → Tunnel
stop_tunnel t =
    if is_ending t.value.status
    then record t { is_canceled = true }
    else publish false
        (record t { value = record t.value { status = stopping }; is_canceled = true })

-- A tunnel that `start` has registered, from its first generation.
unfoldable pub started : SshTunnel → Tunnel
started value = publish false (record {
  value = record value { status = running; error = []; reconnect_attempt = 0 };
  runtime = some 0;
  is_canceled = false;
  retry = false;
  worker = serving 0;
  published = [];
  open_generations = 0 ∷ [];
  next_generation = 1;
})

-- What happens to a tunnel: its worker goes on, or one of `Stop`, `Close`, `Retry` and `forward` comes between.
pub data Act : Type 0 where
  working : Input → Act
  stops closes retries : Act
  forwards : ℕ → Text → Act

abbrev pub or_same : Tunnel → Option Tunnel → Tunnel
or_same t none = t
or_same t (some after) = after

abbrev pub or_old : Tunnel → Result RetryError Tunnel → Tunnel
or_old t (err e) = t
or_old t (ok after) = after

unfoldable pub act : Act → Tunnel → Tunnel
unfolding work stop_tunnel retry_tunnel transition
act (working input) t = work input t
act stops t = stop_tunnel t
act closes t = record t { is_canceled = true }
act retries t = or_old t (retry_tunnel t)
act (forwards g failure) t = or_same t (transition (note_forward g failure) t)

unfoldable pub act_all : List Act → Tunnel → Tunnel
unfolding act
act_all [] t = t
act_all (a ∷ acts) t = act_all acts (act a t)
