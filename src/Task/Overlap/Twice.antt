-- ===== src/Task/Overlap/Twice.antt =====
-- How many polls of a task there are, and how many at once.
use loony_rs_runtime.Base.{ℕ, suc, ◌+◌, ◌/◌, ◌%◌, ◌^◌, ◌<◌, ◌≤◌, ◌≡◌, refl, arith, some}
use loony_rs_runtime.Bits.{bit_or_three, bit_or_four, bit_or_eight, bit_and_not_eight}
use loony_rs_runtime.Task.Wake.{attempt}
use loony_rs_runtime.Task.Wake.Arithmetic.{attempt_lem}
use loony_rs_runtime.Task.Overlap.{
  System, Step, begin, mark, end, wake, push, cloned, released, abort, interest, forgotten, init,
  Reach, here, later,
}

record Inv (s : System) : Type 0 where
  fits : s.word < 2 ^ 64
  idle_once : s.word % 4 ≡ 0 → s.started + s.queued + s.pushing ≤ 1
  twice : s.started + s.queued + s.pushing ≤ 2
  begun : s.polling ≤ s.started

Step-Inv : {s t : System} → Step s t → Inv s → Inv t
Step-Inv (begin n e) v = ground arith
Step-Inv {s} (mark n e) v = ground (arith, bit_or_three s.word)
Step-Inv (end n e) v = ground arith
Step-Inv {s} (wake d e) v = ground (arith, attempt_lem s.word)
Step-Inv (push n e) v = ground arith
Step-Inv cloned v = ground arith
Step-Inv released v = ground arith
Step-Inv {s} abort v = ground (arith, bit_or_four s.word)
Step-Inv {s} interest v = ground (arith, bit_or_eight s.word)
Step-Inv {s} forgotten v = ground (arith, bit_and_not_eight s.word v.fits)

Reach-Inv : {w : ℕ} {s : System} → w < 2 ^ 64 → Reach (init w) s → Inv s
Reach-Inv fits here = ground arith
Reach-Inv fits (later r st) = Step-Inv st (Reach-Inv fits r)

-- However the wakes by the wakers of raw.rs, the polls and the other accesses to the word follow one
-- another, a task is polled at most twice, and no more polls are under way than have started.
pub polls_at_most_twice :
    {w : ℕ} {s : System} → w < 2 ^ 64 → Reach (init w) s → (s.started ≤ 2) × (s.polling ≤ s.started)
polls_at_most_twice fits r = let v = Reach-Inv fits r in (omega (arith, v.twice), v.begun)

-- While a task is polled that is idle and not aborted, further steps can come to two polls under way
-- with one more poll begun than now, so that the first has not ended.
pub polls_overlap :
    {s : System}
    → s.polling ≡ 1
    → s.word % 4 ≡ 0
    → s.word / 4 % 2 ≡ 0
    → (t : System) × Reach s t × (t.started ≡ suc s.started) × (t.polling ≡ 2)
polls_overlap {s} one idle kept =
    let woken : attempt s.word ≡ some (s.word + 1) = ground (arith, attempt_lem s.word) in
    (
      _,
      later (later (later here (wake (s.word + 1) woken)) (push s.pushing refl))
          (begin s.queued refl),
      refl,
      rw one refl,
    )
