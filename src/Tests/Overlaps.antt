-- ===== src/Tests/Overlaps.antt =====
-- Two polls of one task, at a concrete interleaving.
use loony_rs_runtime.Base.{suc, ◌≤◌, ◌≡◌, refl, arith}
use loony_rs_runtime.Task.Overlap.{System, begin, init, Reach, here, later}
use loony_rs_runtime.Task.Overlap.Twice.{polls_at_most_twice, polls_overlap}

-- A worker polls the new task.
first : (s : System) × Reach (init 0x1_0000) s × (s.polling ≡ 1) × (s.word ≡ 0x1_0000)
first = (_, later here (begin 0 refl), refl, refl)

polls_at_most_twice_example : (first.0.started ≤ 2) × (first.0.polling ≤ first.0.started)
polls_at_most_twice_example = polls_at_most_twice (omega arith) first.1

polls_overlap_example :
    (t : System) × Reach first.0 t × (t.started ≡ suc first.0.started) × (t.polling ≡ 2)
polls_overlap_example = polls_overlap first.2 (rw first.3 refl) (rw first.3 refl)
