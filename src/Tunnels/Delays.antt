-- ===== src/Tunnels/Delays.antt =====
-- The delays between the attempts to reconnect (internal/sshtunnel/reconnect.go).
use eino_ops_agent_enterpr1s.Base.{
  ℕ, zero, suc, false, arith, ◌-◌, ◌^◌, ltb, if◌then◌else◌, ◌≡◌, refl,
}
use eino_ops_agent_enterpr1s.Tunnels.Steps.{doubled, reconnect_delay}

doubled_long : (rounds : ℕ) → doubled rounds 32 ≡ 32
unfolding doubled
doubled_long zero = refl
doubled_long (suc rounds) = refl

doubled_far : (n : ℕ) → doubled (suc (suc (suc (suc (suc n))))) 1 ≡ 32
unfolding doubled
doubled_far n = doubled_long n

reconnect_delay_far : (n : ℕ) → reconnect_delay (suc (suc (suc (suc (suc (suc n)))))) ≡ 30
unfolding reconnect_delay
reconnect_delay_far n =
    let rounds : suc (suc (suc (suc (suc (suc n))))) - 1 ≡ suc (suc (suc (suc (suc n)))) =
      omega arith in
    rw (rounds, doubled_far n) refl

-- The delay before the first attempt is one second, and it doubles with each attempt up to the sixth; from
-- then on it is 30 seconds.
pub reconnect_delay-closed : (n : ℕ) → reconnect_delay (suc n) ≡ (if ltb n 5 then 2 ^ n else 30)
unfolding reconnect_delay doubled
reconnect_delay-closed zero = refl
reconnect_delay-closed (suc zero) = refl
reconnect_delay-closed (suc (suc zero)) = refl
reconnect_delay-closed (suc (suc (suc zero))) = refl
reconnect_delay-closed (suc (suc (suc (suc zero)))) = refl
reconnect_delay-closed (suc (suc (suc (suc (suc n))))) =
    let late : ltb (suc (suc (suc (suc (suc n))))) 5 ≡ false = ground arith in
    rw late (reconnect_delay_far n)
