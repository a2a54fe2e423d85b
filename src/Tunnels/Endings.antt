-- ===== src/Tunnels/Endings.antt =====
-- How a tunnel ends (internal/sshtunnel).
use mathlib.Core.Path.{subst}
use eino_ops_agent_enterpr1s.Base.{
  ◌≤◌, true, not, ◌||◌, Option, none, List, [], ◌∷◌, ◌≡◌, inl, inr, refl, ap, ◌∙◌, arith,
  Bool-cases,
}
use eino_ops_agent_enterpr1s.Tunnels.{
  stopped, SshTunnel, Worker, serving, disconnected, reconnecting, waiting, opening, opened,
  finishing, finished, Tunnel, note_forward, is_retrying, is_ending,
}
use eino_ops_agent_enterpr1s.Tunnels.Steps.{
  Input, work_at, work, retry_tunnel, stop_tunnel, started, Act, working, stops, closes, retries,
  forwards, or_same, or_old, act, act_all,
}
use eino_ops_agent_enterpr1s.Tunnels.Stages.{is_finished, IsTold, IsSound, transition-canceled}
use eino_ops_agent_enterpr1s.Tunnels.Lifecycle.{act-IsSound, act_all-IsSound, stop_tunnel-IsSound}
use eino_ops_agent_enterpr1s.Tunnels.Ranks.{
  started-IsSound, finished_stage, count_awaited, act_all-Sinks, rank_le, rank_zero,
  stop_tunnel-canceled,
}

-- Once `Stop` has run on a tunnel, its worker ends with the fourth input at most that it waits for, whatever
-- comes between and whatever the network answers: its status is `stopped`, every generation is closed, and
-- the terminal event, the last one published, shows that status.
pub act_all-stopped :
    (before acts : List Act) (value : SshTunnel)
    → 4 ≤ count_awaited acts (stop_tunnel (act_all before (started value)))
    → let t = act_all acts (stop_tunnel (act_all before (started value))) in
      (t.value.status ≡ stopped)
      × (t.open_generations ≡ [])
      × (t.runtime ≡ none)
      × IsTold t.value true t.published
act_all-stopped before acts value enough =
    let here = act_all before (started value) in
    let sound =
      stop_tunnel-IsSound here (act_all-IsSound before (started value) (started-IsSound value)) in
    let t = act_all acts (stop_tunnel here) in
    let sound_after : IsSound t = act_all-IsSound acts (stop_tunnel here) sound in
    let sinks = act_all-Sinks acts (stop_tunnel here) (stop_tunnel-canceled here) in
    let ended : is_finished t.worker ≡ true =
      rank_zero t.worker (omega (arith, sinks.1, rank_le (stop_tunnel here).worker)) in
    let (canceled, closed, status, no_runtime) = finished_stage t sound_after ended in
    (status, closed, no_runtime, subst (λ b. IsTold t.value b t.published) ended sound_after.1)

finished_idle :
    (worker : Worker) (input : Input) (t : Tunnel)
    → is_finished worker ≡ true
    → work_at worker input t ≡ t
unfolding work_at
finished_idle finished input t ended = refl
finished_idle (serving g) input t ended = cc
finished_idle (disconnected g failure) input t ended = cc
finished_idle (reconnecting attempt) input t ended = cc
finished_idle (waiting attempt) input t ended = cc
finished_idle (opening attempt) input t ended = cc
finished_idle (opened attempt g e) input t ended = cc
finished_idle finishing input t ended = cc

stop_tunnel-ended :
    (t : Tunnel) → t.value.status ≡ stopped → stop_tunnel t ≡ record t { is_canceled = true }
unfolding stop_tunnel
stop_tunnel-ended t s = let ending = ap is_ending s in rw ending refl

retry_tunnel-kept :
    (t : Tunnel)
    → ((or_old t (retry_tunnel t)).published ≡ t.published)
      × ((or_old t (retry_tunnel t)).worker ≡ t.worker)
unfolding retry_tunnel
retry_tunnel-kept t = elim (Bool-cases (not (is_retrying t.value.status) || t.is_canceled)) [
  | inl refused ↦ rw refused (refl, refl)
  | inr taken ↦ rw taken (refl, refl)
]

act-finished :
    (a : Act) (t : Tunnel)
    → IsSound t
    → is_finished t.worker ≡ true
    → ((act a t).published ≡ t.published) × (is_finished (act a t).worker ≡ true)
unfolding act work
act-finished (working input) t sound ended =
    let idle = finished_idle t.worker input t ended in
    (ap (λ (z : Tunnel). z.published) idle, ap (λ (z : Tunnel). is_finished z.worker) idle ∙ ended)
act-finished stops t sound ended = (
  ap (λ (z : Tunnel). z.published) (stop_tunnel-ended t (finished_stage t sound ended).2),
  ap (λ (z : Tunnel). is_finished z.worker) (stop_tunnel-ended t (finished_stage t sound ended).2)
      ∙ ended,
)
act-finished closes t sound ended = (refl, ended)
act-finished retries t sound ended =
    ((retry_tunnel-kept t).0, ap is_finished (retry_tunnel-kept t).1 ∙ ended)
act-finished (forwards g failure) t sound ended =
    let e = transition-canceled (note_forward g failure) t (finished_stage t sound ended).0 in
    (
      ap (λ (z : Option Tunnel). (or_same t z).published) e,
      ap (λ (z : Option Tunnel). is_finished (or_same t z).worker) e ∙ ended,
    )

quiet :
    (more : List Act) (t : Tunnel)
    → IsSound t
    → is_finished t.worker ≡ true
    → (act_all more t).published ≡ t.published
unfolding act_all
quiet [] t sound ended = refl
quiet (a ∷ more) t sound ended =
    let (same, still) = act-finished a t sound ended in
    quiet more (act a t) (act-IsSound a t sound) still ∙ same

-- A tunnel that was started ends only after it was canceled, and then as `stopped`, never as `failed`; no
-- generation is left open, and nothing is published any more, whatever comes.
pub act_all-final :
    (acts more : List Act) (value : SshTunnel)
    → is_finished (act_all acts (started value)).worker ≡ true
    → let t = act_all acts (started value) in
      (t.is_canceled ≡ true)
      × (t.value.status ≡ stopped)
      × (t.open_generations ≡ [])
      × ((act_all more t).published ≡ t.published)
act_all-final acts more value ended =
    let sound = act_all-IsSound acts (started value) (started-IsSound value) in
    let (canceled, closed, status, no_runtime) =
      finished_stage (act_all acts (started value)) sound ended in
    (canceled, status, closed, quiet more (act_all acts (started value)) sound ended)
