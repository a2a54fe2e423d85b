-- ===== src/Tunnels/Ranks.antt =====
-- How far the worker of a canceled tunnel is from its end (internal/sshtunnel).
use mathlib.Core.Path.{subst}
use eino_ops_agent_enterpr1s.Base.{
  ℕ, ◌+◌, ◌≤◌, Bool, true, false, not, ◌||◌, none, List, [], ◌∷◌, if◌then◌else◌, ◌≡◌, inl, inr,
  refl, sym, arith, Bool-cases, ok, err,
}
use eino_ops_agent_enterpr1s.Tunnels.{
  stopping, stopped, SshTunnel, Worker, serving, disconnected, reconnecting, waiting, opening,
  opened, finishing, finished, Tunnel, publish, transition, disconnect, count_attempt, note_failure,
  reconnect_as, note_forward, is_retrying, is_ending, finish, or_finish, or_close, go_to,
}
use eino_ops_agent_enterpr1s.Tunnels.Steps.{
  Input, serve_ends, by_timer, by_retry, opens, fails, goes_on, work_at, work, retry_tunnel,
  stop_tunnel, started, Act, working, stops, closes, retries, forwards, or_same, or_old,
  not_retrying, act, act_all,
}
use eino_ops_agent_enterpr1s.Tunnels.Stages.{Stage, is_finished, IsSound, transition-canceled}

pub started-IsSound : (value : SshTunnel) → IsSound (started value)
unfolding started
started-IsSound value = ((refl, refl, inl refl), ([], refl, tt))

pub finished_stage :
    (t : Tunnel)
    → IsSound t
    → is_finished t.worker ≡ true
    → (t.is_canceled ≡ true)
      × (t.open_generations ≡ [])
      × (t.value.status ≡ stopped)
      × (t.runtime ≡ none)
finished_stage t sound ended = at t.worker sound.0 ended
  where
    at :
        (worker : Worker)
        → Stage worker t.runtime t.open_generations t.value.status t.is_canceled
        → is_finished worker ≡ true
        → (t.is_canceled ≡ true)
          × (t.open_generations ≡ [])
          × (t.value.status ≡ stopped)
          × (t.runtime ≡ none)
    at finished stage e = stage
    at (serving g) stage e = cc
    at (disconnected g failure) stage e = cc
    at (reconnecting attempt) stage e = cc
    at (waiting attempt) stage e = cc
    at (opening attempt) stage e = cc
    at (opened attempt g c) stage e = cc
    at finishing stage e = cc

-- How many inputs of those that it waits for are between a canceled tunnel's worker and its end.
abbrev pub rank : Worker → ℕ
rank (serving g) = 3
rank (disconnected g failure) = 2
rank (reconnecting attempt) = 2
rank (waiting attempt) = 4
rank (opening attempt) = 3
rank (opened attempt g e) = 2
rank finishing = 1
rank finished = 0

-- Whether the worker of a canceled tunnel waits for the input; `retry` says that the channel is full.
abbrev pub is_awaited : Worker → Input → Bool → Bool
is_awaited (serving g) (serve_ends e) retry = true
is_awaited (disconnected g failure) goes_on retry = true
is_awaited (reconnecting attempt) goes_on retry = true
is_awaited (waiting attempt) by_timer retry = true
is_awaited (waiting attempt) by_retry retry = retry
is_awaited (waiting attempt) goes_on retry = true
is_awaited (opening attempt) (opens e) retry = true
is_awaited (opening attempt) (fails failure) retry = true
is_awaited (opened attempt g e) goes_on retry = true
is_awaited finishing goes_on retry = true
is_awaited _ _ retry = false

abbrev pub Falls : Worker → Bool → Tunnel → Type 0
Falls worker awaited after =
    (after.is_canceled ≡ true) × (rank after.worker + (if awaited then 1 else 0) ≤ rank worker)

same-Falls :
    (worker : Worker) (t : Tunnel) → t.worker ≡ worker → t.is_canceled ≡ true → Falls worker false t
same-Falls worker t at canceled =
    (canceled, subst (λ w. rank t.worker + 0 ≤ rank w) at (omega arith))

finish-Falls : (t : Tunnel) → Falls finishing true (finish t)
unfolding finish
finish-Falls t = (refl, omega arith)

work_at-Falls :
    (worker : Worker) (input : Input) (t : Tunnel)
    → t.worker ≡ worker
    → t.is_canceled ≡ true
    → Falls worker (is_awaited worker input t.retry) (work_at worker input t)
unfolding work_at
work_at-Falls (serving g) (serve_ends e) t at canceled = (canceled, omega arith)
work_at-Falls (disconnected g failure) goes_on t at canceled =
    subst (λ b. Falls (disconnected g failure) true (left b)) (sym canceled) (canceled, omega arith)
  where
    left : Bool → Tunnel
    left b =
        if b
        then go_to finishing t
        else or_finish (reconnecting 1) t (transition (disconnect g failure) t)
work_at-Falls (reconnecting attempt) goes_on t at canceled =
    subst (λ z. Falls (reconnecting attempt) true (or_finish (waiting attempt) t z))
      (sym (transition-canceled (count_attempt attempt) t canceled)) (canceled, omega arith)
work_at-Falls (waiting attempt) by_timer t at canceled = (canceled, omega arith)
work_at-Falls (waiting attempt) by_retry t at canceled = elim (Bool-cases t.retry) [
  | inl full ↦ subst (λ b. Falls (waiting attempt) b (woken b)) (sym full) (canceled, omega arith)
  | inr empty ↦
      subst (λ b. Falls (waiting attempt) b (woken b)) (sym empty)
        (same-Falls (waiting attempt) t at canceled)
]
  where
    woken : Bool → Tunnel
    woken b = if b then go_to (opening attempt) (record t { retry = false }) else t
work_at-Falls (waiting attempt) goes_on t at canceled =
    subst (λ b. Falls (waiting attempt) true (left b)) (sym canceled) (canceled, omega arith)
  where
    left : Bool → Tunnel
    left b = if b then go_to finishing t else t
work_at-Falls (opening attempt) (opens e) t at canceled = (canceled, omega arith)
work_at-Falls (opening attempt) (fails failure) t at canceled =
    subst (λ b. Falls (opening attempt) true (left b)) (sym canceled) (canceled, omega arith)
  where
    left : Bool → Tunnel
    left b =
        if b
        then go_to finishing t
        else or_finish (reconnecting (attempt + 1)) t (transition (note_failure failure) t)
work_at-Falls (opened attempt g e) goes_on t at canceled =
    subst (λ z. Falls (opened attempt g e) true (or_close g t z))
      (sym (transition-canceled (reconnect_as g e) t canceled)) (canceled, omega arith)
work_at-Falls finishing goes_on t at canceled = finish-Falls t
work_at-Falls worker input t at canceled = same-Falls worker t at canceled

-- The inputs that the worker waited for.
abbrev pub awaited_by : Act → Tunnel → ℕ
awaited_by (working input) t = if is_awaited t.worker input t.retry then 1 else 0
awaited_by _ t = 0

unfoldable pub count_awaited : List Act → Tunnel → ℕ
count_awaited [] t = 0
count_awaited (a ∷ acts) t = awaited_by a t + count_awaited acts (act a t)

abbrev pub Sinks : ℕ → Tunnel → Tunnel → Type 0
Sinks count t after = (after.is_canceled ≡ true) × (rank after.worker + count ≤ rank t.worker)

still-Sinks : (t : Tunnel) → t.is_canceled ≡ true → Sinks 0 t t
still-Sinks t canceled = (canceled, omega arith)

act-Sinks : (a : Act) (t : Tunnel) → t.is_canceled ≡ true → Sinks (awaited_by a t) t (act a t)
unfolding act work stop_tunnel retry_tunnel
act-Sinks (working input) t canceled = work_at-Falls t.worker input t refl canceled
act-Sinks stops t canceled = elim (Bool-cases (is_ending t.value.status)) [
  | inl ending ↦ subst (λ b. Sinks 0 t (stopped_as b)) (sym ending) (refl, omega arith)
  | inr going ↦ subst (λ b. Sinks 0 t (stopped_as b)) (sym going) (refl, omega arith)
]
  where
    stopped_as : Bool → Tunnel
    stopped_as b =
        if b
        then record t { is_canceled = true }
        else publish false
            (record t { value = record t.value { status = stopping }; is_canceled = true })
act-Sinks closes t canceled = (refl, omega arith)
act-Sinks retries t canceled =
    elim (Bool-cases (not (is_retrying t.value.status) || t.is_canceled)) [
      | inl refused ↦ subst (λ b. Sinks 0 t (answered b)) (sym refused) (still-Sinks t canceled)
      | inr taken ↦ subst (λ b. Sinks 0 t (answered b)) (sym taken) (still-Sinks t canceled)
    ]
  where
    answered : Bool → Tunnel
    answered b = or_old t (if b then err not_retrying else ok (record t { retry = true }))
act-Sinks (forwards g failure) t canceled =
    subst (λ z. Sinks 0 t (or_same t z))
      (sym (transition-canceled (note_forward g failure) t canceled)) (still-Sinks t canceled)

pub act_all-Sinks :
    (acts : List Act) (t : Tunnel)
    → t.is_canceled ≡ true
    → Sinks (count_awaited acts t) t (act_all acts t)
unfolding act_all count_awaited
act_all-Sinks [] t canceled = still-Sinks t canceled
act_all-Sinks (a ∷ acts) t canceled =
    let (first, once) = act-Sinks a t canceled in
    let (last, rest) = act_all-Sinks acts (act a t) first in (last, omega (arith, once, rest))

pub rank_le : (worker : Worker) → rank worker ≤ 4
rank_le (serving g) = omega arith
rank_le (disconnected g failure) = omega arith
rank_le (reconnecting attempt) = omega arith
rank_le (waiting attempt) = omega arith
rank_le (opening attempt) = omega arith
rank_le (opened attempt g e) = omega arith
rank_le finishing = omega arith
rank_le finished = omega arith

pub rank_zero : (worker : Worker) → rank worker ≤ 0 → is_finished worker ≡ true
rank_zero finished h = refl
rank_zero (serving g) h = absurd (omega arith)
rank_zero (disconnected g failure) h = absurd (omega arith)
rank_zero (reconnecting attempt) h = absurd (omega arith)
rank_zero (waiting attempt) h = absurd (omega arith)
rank_zero (opening attempt) h = absurd (omega arith)
rank_zero (opened attempt g e) h = absurd (omega arith)
rank_zero finishing h = absurd (omega arith)

pub stop_tunnel-canceled : (t : Tunnel) → (stop_tunnel t).is_canceled ≡ true
unfolding stop_tunnel
stop_tunnel-canceled t = elim (Bool-cases (is_ending t.value.status)) [
  | inl ending ↦ rw ending refl
  | inr going ↦ rw going refl
]
