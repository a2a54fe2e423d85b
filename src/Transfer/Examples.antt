-- ===== src/Transfer/Examples.antt =====
-- A transfer of a known size in two writes.
use eino_ops_agent_enterpr1s.Base.{◌+◌, ◌≤◌, ◌<◌, true, [], ◌∷◌}
use eino_ops_agent_enterpr1s.Transfer.{new_writer, write_all, finish}
use eino_ops_agent_enterpr1s.Transfer.Reports.{HasLast, IsFalling, sum, finish_reports}

finish_reports_example :
    ((write_all (300000 ∷ (20 ∷ [])) (new_writer 300020 true)).written
      < (write_all (300000 ∷ (20 ∷ [])) (new_writer 300020 true)).next)
    × ((write_all (300000 ∷ (20 ∷ [])) (new_writer 300020 true)).next
        ≤ (write_all (300000 ∷ (20 ∷ [])) (new_writer 300020 true)).written
          + (write_all (300000 ∷ (20 ∷ [])) (new_writer 300020 true)).step)
    × HasLast
        (sum (300000 ∷ (20 ∷ [])))
        (finish (write_all (300000 ∷ (20 ∷ [])) (new_writer 300020 true))).reports
    × IsFalling
        (sum (300000 ∷ (20 ∷ [])))
        (finish (write_all (300000 ∷ (20 ∷ [])) (new_writer 300020 true))).reports
finish_reports_example = finish_reports 300020 (300000 ∷ (20 ∷ []))
