-- ===== src/Task/Join/Race/Lost.antt =====
-- A completion between the two accesses of `set_join_waker`.
use loony_rs_runtime.Base.{ℕ, ◌%◌, ◌^◌, ◌<◌, ◌≡◌, ◌≢◌, refl, arith, bit_or, true, false, ◌||◌}
use loony_rs_runtime.Bits.{bit_or_eight, bit_and_three, bit_and_eight}
use loony_rs_runtime.Task.Join.Race.{
  registering, pending, wrote, done, System, Step, look_complete, look_aborted, look_running,
  read_refused, read_output, interest, store, store_again, write, mark, wake, wake_nobody,
  no_interest, cloned, released, scheduled, Reach, Run, here, then_step,
}
use loony_rs_runtime.Task.Join.Race.Invariant.{Reach-Inv}

-- The handle has answered `Pending`, the task is over, and nobody has woken the handle.
record IsMissed (s : System) : Type 0 where
  sleeps : s.joiner ≡ pending
  over : s.runner ≡ done
  unread : s.written ≡ true
  silent : s.woken ≡ 0

Step-IsMissed : {s t : System} → Step s t → IsMissed s → IsMissed t
Step-IsMissed (look_complete p e) v = ground arith
Step-IsMissed (look_aborted p e f) v = ground arith
Step-IsMissed (look_running p e f) v = ground arith
Step-IsMissed (read_output p e f) v = ground arith
Step-IsMissed (read_refused p e) v = ground arith
Step-IsMissed (interest p) v = ground arith
Step-IsMissed (store prev p e) v = ground arith
Step-IsMissed (store_again prev p e) v = ground arith
Step-IsMissed (write p) v = ground arith
Step-IsMissed (mark p) v = ground arith
Step-IsMissed (wake prev p e f) v = ground arith
Step-IsMissed (wake_nobody prev p e f) v = ground arith
Step-IsMissed (no_interest prev p e) v = ground arith
Step-IsMissed cloned v = ground arith
Step-IsMissed released v = ground arith
Step-IsMissed (scheduled d e) v = ground arith

Run-IsMissed : {s t : System} → IsMissed s → Run s t → IsMissed t
Run-IsMissed v here = v
Run-IsMissed v (then_step r st) = Step-IsMissed st (Run-IsMissed v r)

-- Where in those interleavings a handle without a stored waker is about to register at an idle task,
-- and the completion is about to mark the word, the two can go on so that the handle answers `Pending`
-- to a complete task; and no further step ever wakes it.
pub join_race_misses :
    {w : ℕ} {s : System}
    → w < 2 ^ 64
    → w % 4 ≢ 3
    → Reach w s
    → s.joiner ≡ registering
    → s.runner ≡ wrote
    → s.stored ≡ false
    → s.word % 4 ≡ 0
    → (t : System) × Run s t
      × ((u : System)
          → Run t u
          → (u.joiner ≡ pending) × (u.runner ≡ done) × (u.written ≡ true) × (u.woken ≡ 0))
join_race_misses {w} {s} fits fresh r p q none_stored idle =
    let v = Reach-Inv fits fresh r in
    let prev = bit_or s.word 8 in
    let missed : IsMissed (record s {
      word = bit_or prev 3;
      joiner = pending;
      runner = done;
      stored = true;
      late = s.late || true;
    }) =
      record {
        sleeps = refl;
        over = refl;
        unread = ground (arith, v.output);
        silent = ground (arith, v.not_yet);
      } in
    (
      _,
      then_step
          (then_step (then_step (then_step here (interest p)) (mark q)) (
            wake_nobody prev refl (ground (arith, bit_and_eight prev, bit_or_eight s.word))
              none_stored))
          (store s.word refl (ground (arith, bit_and_three s.word))),
      λ u run. let m = Run-IsMissed missed run in (m.sleeps, m.over, m.unread, m.silent),
    )
