-- ===== src/Transfer/Reports.antt =====
-- What the reporter of a transfer is told (internal/transfer/progress.go).
use mathlib.Core.Path.{subst}
use eino_ops_agent_enterpr1s.Base.{
  ℕ, zero, suc, ◌+◌, ◌≤◌, ◌<◌, true, ◌&&◌, ◌||◌, List, [], ◌∷◌, ltb, leb, ◌==◌, ◌≡◌, inl, inr, refl,
  ◌∙◌, arith, Bool-cases,
}
use eino_ops_agent_enterpr1s.Transfer.{
  Progress, Writer, step_of, new_writer, emit, advance, write, finish, write_all,
}

-- The bytes of the reports, the last one first, never rise, and are at most `top`.
abbrev pub IsFalling : ℕ → List Progress → Type 0
IsFalling top [] = Unit
IsFalling top (p ∷ reports) = (p.transferred ≤ top) × IsFalling p.transferred reports

-- The last report.
abbrev pub HasLast : ℕ → List Progress → Type 0
HasLast n [] = ⊥
HasLast n (p ∷ reports) = p.transferred ≡ n

-- Between two writes of a writer that reports.
pub record IsWriter (w : Writer) : Type 0 where
  pub told : w.reporting ≡ true
  pub ahead : w.written < w.next
  pub stepping : 0 < w.step
  pub near : w.next ≤ w.written + w.step
  pub latest : HasLast w.last_emitted w.reports
  pub falling : IsFalling w.last_emitted w.reports
  pub emitted_le : w.last_emitted ≤ w.written

-- With enough fuel the loop ends, on the first multiple behind the bytes written.
pub advance-ahead :
    (fuel next step written : ℕ)
    → 0 < step
    → next ≤ written + step
    → written < fuel + next
    → (written < advance fuel next step written) × (advance fuel next step written ≤ written + step)
unfolding advance
advance-ahead zero next step written s n f = (omega arith, n)
advance-ahead (suc fuel) next step written s n f = elim (Bool-cases (leb next written)) [
  | inl behind ↦
      rw behind (advance-ahead fuel (next + step) step written s (ground arith) (omega arith))
  | inr past ↦ rw past (ground arith, n)
]

step_of-pos : (total : ℕ) → 0 < step_of total
unfolding step_of
step_of-pos total = ground arith

new_writer-IsWriter : (total : ℕ) → IsWriter (new_writer total true)
unfolding new_writer
new_writer-IsWriter total = record {
  told = refl;
  ahead = step_of-pos total;
  stepping = step_of-pos total;
  near = omega arith;
  latest = refl;
  falling = (omega arith, tt);
  emitted_le = omega arith;
}

raise_top : (a b : ℕ) (reports : List Progress) → a ≤ b → IsFalling a reports → IsFalling b reports
raise_top a b [] h f = tt
raise_top a b (p ∷ reports) h f = (omega (arith, f.0), f.1)

write-IsWriter : (n : ℕ) (w : Writer) → IsWriter w → IsWriter (write n w)
unfolding write emit
write-IsWriter n w h =
    let told = h.told in
    let reached = leb w.next (w.written + n) || (ltb 0 w.total && ((w.written + n) == w.total)) in
    elim (Bool-cases reached) [
      | inl now ↦
          rw (told, now)
            (record {
              told = refl;
              ahead =
                  (advance-ahead (w.written + n + 1) w.next w.step (w.written + n) h.stepping
                    (omega (arith, h.near)) (omega arith)).0;
              stepping = h.stepping;
              near =
                  (advance-ahead (w.written + n + 1) w.next w.step (w.written + n) h.stepping
                    (omega (arith, h.near)) (omega arith)).1;
              latest = refl;
              falling = (
                omega arith,
                raise_top w.last_emitted (w.written + n) w.reports (omega (arith, h.emitted_le))
                    h.falling,
              );
              emitted_le = omega arith;
            })
      | inr later ↦
          rw (told, later)
            (record {
              told = refl;
              ahead = ground arith;
              stepping = h.stepping;
              near = omega (arith, h.near);
              latest = h.latest;
              falling = h.falling;
              emitted_le = omega (arith, h.emitted_le);
            })
    ]

write_all-IsWriter : (counts : List ℕ) (w : Writer) → IsWriter w → IsWriter (write_all counts w)
unfolding write_all
write_all-IsWriter [] w h = h
write_all-IsWriter (n ∷ counts) w h = write_all-IsWriter counts (write n w) (write-IsWriter n w h)

pub sum : List ℕ → ℕ
sum [] = 0
sum (n ∷ counts) = n + sum counts

write-written : (n : ℕ) (w : Writer) → (write n w).written ≡ w.written + n
unfolding write emit
write-written n w =
    elim (Bool-cases (
      w.reporting
      && (leb w.next (w.written + n) || (ltb 0 w.total && ((w.written + n) == w.total))))) [
        | inl now ↦ rw now
        | inr later ↦ rw later
      ]

write_all-written :
    (counts : List ℕ) (w : Writer) → (write_all counts w).written ≡ w.written + sum counts
unfolding write_all sum
write_all-written [] w = omega arith
write_all-written (n ∷ counts) w =
    omega (arith, write_all-written counts (write n w), write-written n w)

finish-told :
    (w : Writer)
    → IsWriter w
    → HasLast w.written (finish w).reports × IsFalling w.written (finish w).reports
unfolding finish emit
finish-told w h = elim (Bool-cases (w.last_emitted == w.written)) [
  | inl done ↦
      let same : w.last_emitted ≡ w.written = ground arith in
      rw (h.told, done)
        (subst (λ n. HasLast n w.reports × IsFalling n w.reports) same (h.latest, h.falling))
  | inr missing ↦
      rw (h.told, missing)
        (refl, (omega arith, raise_top w.last_emitted w.written w.reports h.emitted_le h.falling))
]

-- With a reporter, whatever the writes of a transfer are, the loop that moves the next report on ends
-- past the bytes written, by at most one step. After `Finish` the last report has the sum of the bytes
-- written, and no report has fewer bytes than the one before it.
pub finish_reports :
    (total : ℕ) (counts : List ℕ)
    → let w = write_all counts (new_writer total true) in
      (w.written < w.next)
      × (w.next ≤ w.written + w.step)
      × HasLast (sum counts) (finish w).reports
      × IsFalling (sum counts) (finish w).reports
unfolding new_writer
finish_reports total counts =
    let w = write_all counts (new_writer total true) in
    let h = write_all-IsWriter counts (new_writer total true) (new_writer-IsWriter total) in
    let all : w.written ≡ sum counts = write_all-written counts (new_writer total true) ∙ start in
    let (last, falling) = finish-told w h in
    (
      h.ahead,
      h.near,
      subst (λ n. HasLast n (finish w).reports) all last,
      subst (λ n. IsFalling n (finish w).reports) all falling,
    )
  where
    start : (new_writer total true).written + sum counts ≡ sum counts
    start = omega arith
