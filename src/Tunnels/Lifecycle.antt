-- ===== src/Tunnels/Lifecycle.antt =====
-- Sequences of what happens to a tunnel (internal/sshtunnel).
use mathlib.Core.Path.{subst}
use eino_ops_agent_enterpr1s.Base.{
  ℕ, Bool, true, false, not, ◌||◌, Option, some, List, [], ◌∷◌, ◌++◌, Text, if◌then◌else◌, ◌≡◌, ◌⊎◌,
  inl, inr, refl, sym, ap, ◌∙◌, Bool-cases, Option-cases, ok, err,
}
use eino_ops_agent_enterpr1s.Tunnels.{
  Status, stopping, SshTunnel, Worker, serving, disconnected, reconnecting, waiting, opening,
  opened, finishing, finished, Tunnel, publish, transition, note_forward, is_retrying, is_ending,
}
use eino_ops_agent_enterpr1s.Tunnels.Steps.{
  work, retry_tunnel, stop_tunnel, Act, working, stops, closes, retries, forwards, or_same, or_old,
  not_retrying, act, act_all,
}
use eino_ops_agent_enterpr1s.Tunnels.Stages.{
  Phase, Stage, is_finished, IsTold, IsSound, IsTold-next, transition-canceled,
  transition-unchanged, note_forward-some, transition-live,
}
use eino_ops_agent_enterpr1s.Tunnels.Sections.{work_at-IsSound}

Phase-canceled :
    {base status : Status} {canceled : Bool} → Phase base status canceled → Phase base status true
Phase-canceled (inl s) = inl s
Phase-canceled (inr (s, c)) = inr (s, refl)

-- A tunnel that is canceled stays at its stage.
Stage-canceled :
    (worker : Worker) (runtime : Option ℕ) (open_ones : List ℕ) (status : Status) (canceled : Bool)
    → Stage worker runtime open_ones status canceled
    → Stage worker runtime open_ones status true
Stage-canceled (serving g) runtime open_ones status canceled (r, o, phase) =
    (r, o, Phase-canceled phase)
Stage-canceled (disconnected g failure) runtime open_ones status canceled (r, o, phase) =
    (r, o, Phase-canceled phase)
Stage-canceled (reconnecting attempt) runtime open_ones status canceled (r, o, phase) =
    (r, o, Phase-canceled phase)
Stage-canceled (waiting attempt) runtime open_ones status canceled (r, o, phase) =
    (r, o, Phase-canceled phase)
Stage-canceled (opening attempt) runtime open_ones status canceled (r, o, phase) =
    (r, o, Phase-canceled phase)
Stage-canceled (opened attempt g e) runtime open_ones status canceled (r, o, phase) =
    (r, o, Phase-canceled phase)
Stage-canceled finishing runtime open_ones status canceled (c, o) = (refl, o)
Stage-canceled finished runtime open_ones status canceled (c, o, s, r) = (refl, o, s, r)

Stage-stopping :
    (worker : Worker) (runtime : Option ℕ) (open_ones : List ℕ) (status : Status) (canceled : Bool)
    → is_ending status ≡ false
    → Stage worker runtime open_ones status canceled
    → Stage worker runtime open_ones stopping true
Stage-stopping (serving g) runtime open_ones status canceled going (r, o, phase) =
    (r, o, inr (refl, refl))
Stage-stopping (disconnected g failure) runtime open_ones status canceled going (r, o, phase) =
    (r, o, inr (refl, refl))
Stage-stopping (reconnecting attempt) runtime open_ones status canceled going (r, o, phase) =
    (r, o, inr (refl, refl))
Stage-stopping (waiting attempt) runtime open_ones status canceled going (r, o, phase) =
    (r, o, inr (refl, refl))
Stage-stopping (opening attempt) runtime open_ones status canceled going (r, o, phase) =
    (r, o, inr (refl, refl))
Stage-stopping (opened attempt g e) runtime open_ones status canceled going (r, o, phase) =
    (r, o, inr (refl, refl))
Stage-stopping finishing runtime open_ones status canceled going (c, o) = (refl, o)
Stage-stopping finished runtime open_ones status canceled going (c, o, s, r) =
    absurd (clash (sym (ap is_ending s) ∙ going))
  where
    clash : true ≡ false → ⊥
    clash e = cc

-- A tunnel that is not canceled, or whose status is not final, has a worker that has not finished.
not_finished :
    (worker : Worker) (runtime : Option ℕ) (open_ones : List ℕ) (status : Status) (canceled : Bool)
    → (canceled ≡ false) ⊎ (is_ending status ≡ false)
    → Stage worker runtime open_ones status canceled
    → is_finished worker ≡ false
not_finished (serving g) runtime open_ones status canceled going stage = refl
not_finished (disconnected g failure) runtime open_ones status canceled going stage = refl
not_finished (reconnecting attempt) runtime open_ones status canceled going stage = refl
not_finished (waiting attempt) runtime open_ones status canceled going stage = refl
not_finished (opening attempt) runtime open_ones status canceled going stage = refl
not_finished (opened attempt g e) runtime open_ones status canceled going stage = refl
not_finished finishing runtime open_ones status canceled going stage = refl
not_finished finished runtime open_ones status canceled (inl live) (c, o, s, r) = cc
not_finished finished runtime open_ones status canceled (inr going) (c, o, s, r) =
    absurd (clash (sym (ap is_ending s) ∙ going))
  where
    clash : true ≡ false → ⊥
    clash e = cc

-- An event behind those that were published, from a worker that has not finished.
worker_publishes :
    (worker : Worker) (value next : SshTunnel) (published : List (SshTunnel × Bool))
    → is_finished worker ≡ false
    → IsTold value (is_finished worker) published
    → IsTold next (is_finished worker) (published ++ (next, false) ∷ [])
worker_publishes worker value next published running_on told =
    subst (λ b. IsTold next b (published ++ (next, false) ∷ [])) (sym running_on)
      (IsTold-next value next false published
        (subst (λ b. IsTold value b published) running_on told))

pub stop_tunnel-IsSound : (t : Tunnel) → IsSound t → IsSound (stop_tunnel t)
unfolding stop_tunnel
stop_tunnel-IsSound t (stage, told) = elim (Bool-cases (is_ending t.value.status)) [
  | inl ending ↦
      subst (λ b. IsSound (stopped_as b)) (sym ending)
        (
          Stage-canceled t.worker t.runtime t.open_generations t.value.status t.is_canceled stage,
          told,
        )
  | inr going ↦
      subst (λ b. IsSound (stopped_as b)) (sym going)
        (
          Stage-stopping t.worker t.runtime t.open_generations t.value.status t.is_canceled going
              stage,
          worker_publishes t.worker t.value _ t.published
              (not_finished t.worker t.runtime t.open_generations t.value.status t.is_canceled
                (inr going) stage)
              told,
        )
]
  where
    stopped_as : Bool → Tunnel
    stopped_as b =
        if b
        then record t { is_canceled = true }
        else publish false
            (record t { value = record t.value { status = stopping }; is_canceled = true })

forward-IsSound :
    (g : ℕ) (failure : Text) (t : Tunnel)
    → IsSound t
    → IsSound (or_same t (transition (note_forward g failure) t))
forward-IsSound g failure t (stage, told) = elim (Bool-cases t.is_canceled) [
  | inl canceled ↦
      subst (λ z. IsSound (or_same t z))
        (sym (transition-canceled (note_forward g failure) t canceled)) (stage, told)
  | inr live ↦ elim (Option-cases (note_forward g failure t)) [
    | inl unchanged ↦
        subst (λ z. IsSound (or_same t z))
          (sym (transition-unchanged (note_forward g failure) t unchanged)) (stage, told)
    | inr (after, changed) ↦
        let e = note_forward-some g failure t changed in
        subst (λ z. IsSound (or_same t z))
          (sym (transition-live (note_forward g failure) t live (changed ∙ ap some e)))
          (
            stage,
            worker_publishes t.worker t.value _ t.published
                (not_finished t.worker t.runtime t.open_generations t.value.status t.is_canceled
                  (inl live) stage)
                told,
          )
  ]
]

pub act-IsSound : (a : Act) (t : Tunnel) → IsSound t → IsSound (act a t)
unfolding act work retry_tunnel
act-IsSound (working input) t (stage, told) = work_at-IsSound t.worker input t refl stage told
act-IsSound stops t sound = stop_tunnel-IsSound t sound
act-IsSound closes t (stage, told) =
    (Stage-canceled t.worker t.runtime t.open_generations t.value.status t.is_canceled stage, told)
act-IsSound retries t (stage, told) =
    elim (Bool-cases (not (is_retrying t.value.status) || t.is_canceled)) [
      | inl refused ↦ subst (λ b. IsSound (answered b)) (sym refused) (stage, told)
      | inr taken ↦ subst (λ b. IsSound (answered b)) (sym taken) (stage, told)
    ]
  where
    answered : Bool → Tunnel
    answered b = or_old t (if b then err not_retrying else ok (record t { retry = true }))
act-IsSound (forwards g failure) t sound = forward-IsSound g failure t sound

-- Whatever happens to a sound tunnel leaves it sound: the last event published shows it as it is and is the
-- terminal one exactly if its worker has finished, and none before it is. What its worker's stage asks for holds: the generation
-- that is open, if one is, the runtime, and the status, `running` or `retrying` or, once canceled, `stopping`.
pub act_all-IsSound : (acts : List Act) (t : Tunnel) → IsSound t → IsSound (act_all acts t)
unfolding act_all
act_all-IsSound [] t sound = sound
act_all-IsSound (a ∷ acts) t sound = act_all-IsSound acts (act a t) (act-IsSound a t sound)
