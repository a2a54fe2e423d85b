-- ===== src/Tunnels/Examples.antt =====
-- A tunnel that loses its connection, reconnects on the second attempt and is stopped.
use eino_ops_agent_enterpr1s.Base.{
  equal, ◌^◌, true, false, none, List, [], ◌∷◌, map, if◌then◌else◌, ltb, ◌≡◌, refl, arith,
}
use eino_ops_agent_enterpr1s.Tunnels.{
  Status, running, retrying, stopped, SshTunnel, Endpoint, Tunnel,
}
use eino_ops_agent_enterpr1s.Tunnels.Steps.{
  serve_ends, by_timer, by_retry, opens, fails, goes_on, stop_tunnel, started, Act, working, stops,
  closes, retries, forwards, act, act_all, reconnect_delay,
}
use eino_ops_agent_enterpr1s.Tunnels.Stages.{is_finished, IsTold, IsSound}
use eino_ops_agent_enterpr1s.Tunnels.Lifecycle.{act_all-IsSound}
use eino_ops_agent_enterpr1s.Tunnels.Delays.{reconnect_delay-closed}
use eino_ops_agent_enterpr1s.Tunnels.Endings.{act_all-stopped, act_all-final}
use eino_ops_agent_enterpr1s.Tunnels.Ranks.{started-IsSound, count_awaited}

abbrev value : SshTunnel
value = record {
  id = 1 ∷ [];
  host_id = 2 ∷ [];
  host_name = [];
  direction = [];
  local_host = [];
  local_port = 8000;
  remote_host = [];
  remote_port = 80;
  status = running;
  proxy_used = false;
  error = [];
  reconnect_attempt = 0;
}

abbrev new_endpoint : Endpoint
new_endpoint = record { host_name = []; local_port = 8000; remote_port = 80; proxy_used = false }

abbrev reconnection : List Act
reconnection =
    forwards 0 (3 ∷ [])
    ∷ (working (serve_ends none)
        ∷ (working goes_on
            ∷ (working goes_on
                ∷ (working by_timer
                    ∷ (working (fails (4 ∷ []))
                        ∷ (working goes_on
                            ∷ (retries
                                ∷ (working by_retry
                                    ∷ (working (opens new_endpoint)
                                        ∷ (working goes_on ∷ []))))))))))

abbrev statuses : Tunnel → List Status
statuses t = map (λ p. p.0.status) t.published

reconnects :
    statuses (act_all reconnection (started value))
    ≡ running ∷ (running ∷ (retrying ∷ (retrying ∷ (retrying ∷ (retrying ∷ (running ∷ []))))))
unfolding act_all started equal
reconnects = refl

act_all-IsSound_example : IsSound (act_all reconnection (started value))
act_all-IsSound_example = act_all-IsSound reconnection (started value) (started-IsSound value)

abbrev ending : List Act
ending = working (serve_ends none) ∷ (retries ∷ (working goes_on ∷ (working goes_on ∷ [])))

abbrev lost : List Act
lost = working (serve_ends none) ∷ (working goes_on ∷ (working goes_on ∷ []))

abbrev late_ending : List Act
late_ending =
    working by_timer
    ∷ (working (opens new_endpoint) ∷ (closes ∷ (working goes_on ∷ (working goes_on ∷ []))))

late_count : count_awaited late_ending (stop_tunnel (act_all lost (started value))) ≡ 4
unfolding count_awaited act_all act stop_tunnel started
late_count = refl

act_all-stopped_example :
    let t = act_all late_ending (stop_tunnel (act_all lost (started value))) in
    (t.value.status ≡ stopped)
    × (t.open_generations ≡ [])
    × (t.runtime ≡ none)
    × IsTold t.value true t.published
act_all-stopped_example = act_all-stopped lost late_ending value (omega (arith, late_count))

ends : is_finished (act_all (stops ∷ ending) (started value)).worker ≡ true
unfolding act_all act stop_tunnel started
ends = refl

act_all-final_example :
    let t = act_all (stops ∷ ending) (started value) in
    (t.is_canceled ≡ true)
    × (t.value.status ≡ stopped)
    × (t.open_generations ≡ [])
    × ((act_all reconnection t).published ≡ t.published)
act_all-final_example = act_all-final (stops ∷ ending) reconnection value ends

reconnect_delay-closed_example : reconnect_delay 4 ≡ (if ltb 3 5 then 2 ^ 3 else 30)
reconnect_delay-closed_example = reconnect_delay-closed 3
