-- ===== src/Tests/Joins.antt =====
-- A join handle and the completion of its task, at concrete interleavings.
use loony_rs_runtime.Base.{◌≡◌, refl, arith, true, false}
use loony_rs_runtime.Task.Join.Race.{
  System, pending, registering, done, wrote, Reach, begin, later, Run, look_running, interest,
  store, write, mark, wake,
}
use loony_rs_runtime.Task.Join.Race.Wakes.{join_race_wakes}
use loony_rs_runtime.Task.Join.Race.Lost.{join_race_misses}
use loony_rs_runtime.Task.State

-- The handle registers at a new task, which then completes and wakes it.
in_time :
    (s : System) × Reach 0x1_0000 s × (s.joiner ≡ pending) × (s.runner ≡ done) × (s.late ≡ false)
unfolding State.is_complete State.is_aborted
in_time = (
  _,
  later
      (later
        (later
          (later (later (later begin (look_running refl refl refl)) (interest refl))
            (store 0x1_0000 refl refl))
          (write refl))
        (mark refl))
      (wake 0x1_0008 refl refl refl),
  refl,
  refl,
  refl,
)

join_race_wakes_example : in_time.0.woken ≡ 1
join_race_wakes_example =
    join_race_wakes (omega arith) (omega arith) in_time.1 in_time.2 in_time.3 in_time.4

-- The handle is about to register, and the completion about to mark the word.
meeting :
    (s : System) × Reach 0x1_0000 s
    × (s.joiner ≡ registering)
    × (s.runner ≡ wrote)
    × (s.stored ≡ false)
    × (s.word ≡ 0x1_0000)
unfolding State.is_complete State.is_aborted
meeting =
    (_, later (later begin (look_running refl refl refl)) (write refl), refl, refl, refl, refl)

join_race_misses_example :
    (t : System) × Run meeting.0 t
    × ((u : System)
        → Run t u
        → (u.joiner ≡ pending) × (u.runner ≡ done) × (u.written ≡ true) × (u.woken ≡ 0))
join_race_misses_example =
    join_race_misses (omega arith) (omega arith) meeting.1 meeting.2 meeting.3 meeting.4
      (rw meeting.5 refl)
