-- ===== src/Task/Join/Race/Wakes.antt =====
-- What the join handle may rely on.
use loony_rs_runtime.Base.{ℕ, ◌%◌, ◌^◌, ◌<◌, ◌≡◌, ◌≢◌, true, false}
use loony_rs_runtime.Task.Join.Race.{pending, answered, done, Reach, System}
use loony_rs_runtime.Task.Join.Race.Invariant.{Reach-Inv}

-- However the poll of the handle, the completion and the task's wakers interleave, the handle answers
-- with an output only if that was written.
pub join_race_reads :
    {w : ℕ} {s : System} → w < 2 ^ 64 → w % 4 ≢ 3 → Reach w s → s.joiner ≡ answered → s.read ≡ true
join_race_reads fits fresh r p = (Reach-Inv fits fresh r).took p

-- However the polls of the handle, the completion of a task that is not complete at the start and the
-- task's wakers interleave: once the completion is over, a handle that answered `Pending` has had its
-- waker woken once, unless the completion came between the two accesses of `set_join_waker`.
pub join_race_wakes :
    {w : ℕ} {s : System}
    → w < 2 ^ 64
    → w % 4 ≢ 3
    → Reach w s
    → s.joiner ≡ pending
    → s.runner ≡ done
    → s.late ≡ false
    → s.woken ≡ 1
join_race_wakes fits fresh r p q in_time = (Reach-Inv fits fresh r).was_woken p q in_time
