-- ===== src/Transfer.antt =====
-- The progress of a file transfer: internal/transfer/progress.go. The count that the wrapped
-- `io.Writer` returns is an argument of `write`. A counter is a natural number, so that a transfer is
-- taken to stay below 2^63 bytes.
pub mod Reports
pub mod Examples
use eino_ops_agent_enterpr1s.Base.{
  ℕ, zero, suc, ◌+◌, ◌/◌, ◌*◌, Bool, true, false, not, ◌&&◌, ◌||◌, List, [], ◌∷◌, ltb, leb, ◌==◌,
  if◌then◌else◌,
}

pub record Progress : Type 0 where
  pub transferred : ℕ
  pub total : ℕ

-- `Writer`; `reports` are the calls of the reporter, the last one first, where `reporting` says that
-- there is one.
pub record Writer : Type 0 where
  pub total : ℕ
  pub written : ℕ
  pub next : ℕ
  pub step : ℕ
  pub last_emitted : ℕ
  pub reporting : Bool
  pub reports : List Progress

pub step_of : ℕ → ℕ
step_of total = let step = total / 100 in if ltb step (256 * 1024) then 256 * 1024 else step

-- `NewWriter`.
pub new_writer : ℕ → Bool → Writer
unfolding step_of
new_writer total reporting = record {
  total = total;
  written = 0;
  next = step_of total;
  step = step_of total;
  last_emitted = 0;
  reporting = reporting;
  reports = if reporting then record { transferred = 0; total = total } ∷ [] else [];
}

pub emit : Writer → Writer
emit w = record w {
  last_emitted = w.written;
  reports = record { transferred = w.written; total = w.total } ∷ w.reports;
}

-- The loop `for w.next <= w.written`, on fuel.
pub advance : ℕ → ℕ → ℕ → ℕ → ℕ
advance zero next step written = next
advance (suc fuel) next step written =
    let rest = advance fuel (next + step) step written in if leb next written then rest else next

-- `Write`, of which the wrapped writer has taken `n` bytes. The fuel is a bound on the rounds.
pub write : ℕ → Writer → Writer
unfolding emit advance
write n before =
    let w = record before { written = before.written + n } in
    if w.reporting && (leb w.next w.written || (ltb 0 w.total && (w.written == w.total)))
    then (let sent = emit w in
        record sent { next = advance (w.written + 1) w.next w.step w.written })
    else w

pub finish : Writer → Writer
unfolding emit
finish w = if w.reporting && not (w.last_emitted == w.written) then emit w else w

pub write_all : List ℕ → Writer → Writer
unfolding write
write_all [] w = w
write_all (n ∷ counts) w = write_all counts (write n w)
