-- ===== src/Tunnels/Sections.antt =====
-- Each section of the worker keeps a tunnel sound (internal/sshtunnel/lifecycle.go, internal/sshtunnel/reconnect.go).
use mathlib.Core.Path.{subst}
use eino_ops_agent_enterpr1s.Base.{
  ℕ, ◌+◌, Bool, true, false, Option, some, [], ◌∷◌, Text, if◌then◌else◌, ◌≡◌, inl, inr, refl, sym,
  ap, ◌∙◌, arith, Bool-cases, Option-cases,
}
use eino_ops_agent_enterpr1s.Tunnels.{
  Status, Endpoint, Worker, serving, disconnected, reconnecting, waiting, opening, opened,
  finishing, Tunnel, publish, transition, without, disconnect, count_attempt, note_failure,
  reconnect_as, finish, or_finish, or_close, go_to,
}
use eino_ops_agent_enterpr1s.Tunnels.Steps.{
  Input, serve_ends, by_timer, by_retry, opens, fails, goes_on, work_at,
}
use eino_ops_agent_enterpr1s.Tunnels.Stages.{
  Phase, Stage, is_finished, IsTold, IsSound, IsTold-next, transition-canceled, transition-live,
  disconnect-live, count_attempt-live, note_failure-live, reconnect_as-live,
}

-- A status that is not the one of the stage is `stopping`, and the tunnel is canceled.
pub Phase-live :
    {base status : Status} (canceled : Bool)
    → canceled ≡ false
    → Phase base status canceled
    → status ≡ base
Phase-live canceled live (inl s) = s
Phase-live canceled live (inr (s, c)) = cc

-- A transition at a stage: the tunnel is canceled and finishes, or it goes on as changed.
or_finish-IsSound :
    (next : Worker) (change : Tunnel → Option Tunnel) (t after : Tunnel)
    → t.open_generations ≡ []
    → IsTold t.value false t.published
    → (t.is_canceled ≡ false → change t ≡ some after)
    → (t.is_canceled ≡ false → IsSound (go_to next (publish false after)))
    → IsSound (or_finish next t (transition change t))
or_finish-IsSound next change t after none_open told changed sound =
    elim (Bool-cases t.is_canceled) [
      | inl canceled ↦
          subst (λ z. IsSound (or_finish next t z)) (sym (transition-canceled change t canceled))
            ((canceled, none_open), told)
      | inr live ↦
          subst (λ z. IsSound (or_finish next t z))
            (sym (transition-live change t live (changed live))) (sound live)
    ]

disconnected-IsSound :
    (g : ℕ) (failure : Text) (t : Tunnel)
    → Stage (disconnected g failure) t.runtime t.open_generations t.value.status t.is_canceled
    → IsTold t.value false t.published
    → IsSound (work_at (disconnected g failure) goes_on t)
unfolding work_at
disconnected-IsSound g failure t (r, o, phase) told = elim (Bool-cases t.is_canceled) [
  | inl canceled ↦
      subst
        (λ b. IsSound (
          if b
          then go_to finishing t
          else or_finish (reconnecting 1) t (transition (disconnect g failure) t)))
        (sym canceled) ((canceled, o), told)
  | inr live ↦
      subst
        (λ b. IsSound (
          if b
          then go_to finishing t
          else or_finish (reconnecting 1) t (transition (disconnect g failure) t)))
        (sym live)
        (or_finish-IsSound (reconnecting 1) (disconnect g failure) t _ o told
          (λ _. disconnect-live g failure t r (Phase-live t.is_canceled live phase))
          (λ _. ((refl, o, inl refl), IsTold-next t.value _ false t.published told)))
]

reconnecting-IsSound :
    (attempt : ℕ) (t : Tunnel)
    → Stage (reconnecting attempt) t.runtime t.open_generations t.value.status t.is_canceled
    → IsTold t.value false t.published
    → IsSound (work_at (reconnecting attempt) goes_on t)
unfolding work_at
reconnecting-IsSound attempt t (r, o, phase) told =
    or_finish-IsSound (waiting attempt) (count_attempt attempt) t _ o told
      (λ live. count_attempt-live attempt t (Phase-live t.is_canceled live phase))
      (λ live. ((r, o, phase), IsTold-next t.value _ false t.published told))

failing-IsSound :
    (attempt : ℕ) (failure : Text) (t : Tunnel)
    → Stage (opening attempt) t.runtime t.open_generations t.value.status t.is_canceled
    → IsTold t.value false t.published
    → IsSound (work_at (opening attempt) (fails failure) t)
unfolding work_at
failing-IsSound attempt failure t (r, o, phase) told =
    let failed : Bool → Tunnel = λ b.
      if b
      then go_to finishing t
      else or_finish (reconnecting (attempt + 1)) t (transition (note_failure failure) t) in
    elim (Bool-cases t.is_canceled) [
      | inl canceled ↦ subst (λ b. IsSound (failed b)) (sym canceled) ((canceled, o), told)
      | inr live ↦
          subst (λ b. IsSound (failed b)) (sym live)
            (or_finish-IsSound (reconnecting (attempt + 1)) (note_failure failure) t _ o told
              (λ _. note_failure-live failure t (Phase-live t.is_canceled live phase))
              (λ _. ((r, o, phase), IsTold-next t.value _ false t.published told)))
    ]

without-same : (g : ℕ) → without g (g ∷ []) ≡ []
without-same g = ground arith

opened-IsSound :
    (attempt g : ℕ) (e : Endpoint) (t : Tunnel)
    → Stage (opened attempt g e) t.runtime t.open_generations t.value.status t.is_canceled
    → IsTold t.value false t.published
    → IsSound (work_at (opened attempt g e) goes_on t)
unfolding work_at
opened-IsSound attempt g e t (r, o, phase) told = elim (Bool-cases t.is_canceled) [
  | inl canceled ↦
      subst (λ z. IsSound (or_close g t z))
        (sym (transition-canceled (reconnect_as g e) t canceled))
        ((canceled, ap (without g) o ∙ without-same g), told)
  | inr live ↦
      subst (λ z. IsSound (or_close g t z))
        (sym (
          transition-live (reconnect_as g e) t live
            (reconnect_as-live g e t r (Phase-live t.is_canceled live phase))))
        ((refl, o, inl refl), IsTold-next t.value _ false t.published told)
]

finish-IsSound :
    (t : Tunnel)
    → Stage finishing t.runtime t.open_generations t.value.status t.is_canceled
    → IsTold t.value false t.published
    → IsSound (finish t)
unfolding finish
finish-IsSound t (canceled, o) told = elim (Option-cases t.runtime) [
  | inl no_runtime ↦
      rw (no_runtime, canceled) ((refl, o, refl, refl), IsTold-next t.value _ true t.published told)
  | inr (g, r) ↦
      rw (r, canceled)
        ((refl, ap (without g) o, refl, refl), IsTold-next t.value _ true t.published told)
]

-- A tunnel that stays as it is.
same-IsSound :
    (worker : Worker) (t : Tunnel)
    → t.worker ≡ worker
    → Stage worker t.runtime t.open_generations t.value.status t.is_canceled
    → IsTold t.value (is_finished worker) t.published
    → IsSound t
same-IsSound worker t at stage told =
    subst
      (λ w.
        Stage w t.runtime t.open_generations t.value.status t.is_canceled
        × IsTold t.value (is_finished w) t.published)
      (sym at) (stage, told)

pub work_at-IsSound :
    (worker : Worker) (input : Input) (t : Tunnel)
    → t.worker ≡ worker
    → Stage worker t.runtime t.open_generations t.value.status t.is_canceled
    → IsTold t.value (is_finished worker) t.published
    → IsSound (work_at worker input t)
unfolding work_at
work_at-IsSound (serving g) (serve_ends e) t at (r, o, phase) told =
    ((r, ap (without g) o ∙ without-same g, phase), told)
work_at-IsSound (disconnected g failure) goes_on t at stage told =
    disconnected-IsSound g failure t stage told
work_at-IsSound (reconnecting attempt) goes_on t at stage told =
    reconnecting-IsSound attempt t stage told
work_at-IsSound (waiting attempt) by_timer t at stage told = (stage, told)
work_at-IsSound (waiting attempt) by_retry t at stage told = elim (Bool-cases t.retry) [
  | inl full ↦ subst (λ b. IsSound (woken b)) (sym full) (stage, told)
  | inr empty ↦
      subst (λ b. IsSound (woken b)) (sym empty) (same-IsSound (waiting attempt) t at stage told)
]
  where
    woken : Bool → Tunnel
    woken b = if b then go_to (opening attempt) (record t { retry = false }) else t
work_at-IsSound (waiting attempt) goes_on t at (r, o, phase) told =
    elim (Bool-cases t.is_canceled) [
      | inl canceled ↦ subst (λ b. IsSound (left b)) (sym canceled) ((canceled, o), told)
      | inr live ↦
          subst (λ b. IsSound (left b)) (sym live)
            (same-IsSound (waiting attempt) t at (r, o, phase) told)
    ]
  where
    left : Bool → Tunnel
    left b = if b then go_to finishing t else t
work_at-IsSound (opening attempt) (opens e) t at (r, o, phase) told =
    ((r, ap (◌∷◌ t.next_generation) o, phase), told)
work_at-IsSound (opening attempt) (fails failure) t at stage told =
    failing-IsSound attempt failure t stage told
work_at-IsSound (opened attempt g e) goes_on t at stage told =
    opened-IsSound attempt g e t stage told
work_at-IsSound finishing goes_on t at stage told = finish-IsSound t stage told
work_at-IsSound worker input t at stage told = same-IsSound worker t at stage told
