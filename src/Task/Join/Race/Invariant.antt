-- ===== src/Task/Join/Race/Invariant.antt =====
-- What the word, the places of the two threads and the join waker have to do with one another.
use loony_rs_runtime.Base.{ℕ, ◌/◌, ◌%◌, ◌^◌, ◌<◌, ◌≡◌, ◌≢◌, arith, Bool, true, false}
use loony_rs_runtime.Bits.{bit_or_three, bit_or_eight, bit_and_three, bit_and_eight}
use loony_rs_runtime.Task.State.{from_bits}
use loony_rs_runtime.Task.State.Fields.{is_complete_lem}
use loony_rs_runtime.Task.Wake.Arithmetic.{attempt_lem}
use loony_rs_runtime.Task.Join.Race.{
  start, reading, storing, pending, answered, Runner, polled, wrote, marked, done, System, Step,
  look_complete, look_aborted, look_running, read_output, read_refused, interest, store,
  store_again, write, mark, wake, wake_nobody, no_interest, cloned, released, scheduled, init,
  Reach, begin, later, again,
}

-- Whether the word has been marked complete.
abbrev pub is_marked : Runner → Bool
is_marked polled = false
is_marked wrote = false
is_marked (marked prev) = true
is_marked done = true

pub record Inv (s : System) : Type 0 where
  pub fits : s.word < 2 ^ 64
  pub completed : s.word % 4 ≡ 3 → is_marked s.runner ≡ true
  pub stays : is_marked s.runner ≡ true → s.word % 4 ≡ 3
  pub output : s.runner ≢ polled → s.written ≡ true
  pub saw : s.joiner ≡ reading → is_marked s.runner ≡ true
  pub took : s.joiner ≡ answered → s.read ≡ true
  pub waits : s.joiner ≡ pending → s.word / 8 % 2 ≡ 1
  pub ready_waker : s.joiner ≡ pending → is_marked s.runner ≡ false → s.stored ≡ true
  pub not_yet : s.runner ≢ done → s.woken ≡ 0
  pub late_store :
      (prev : ℕ)
      → s.joiner ≡ storing prev
      → prev % 4 ≢ 3
      → is_marked s.runner ≡ true
      → s.late ≡ true
  pub interested : (prev : ℕ) → s.joiner ≡ storing prev → s.word / 8 % 2 ≡ 1
  pub about_to_wake :
      (prev : ℕ)
      → s.joiner ≡ pending
      → s.runner ≡ marked prev
      → s.late ≡ false
      → (prev / 8 % 2 ≡ 1) × (s.stored ≡ true)
  pub was_woken : s.joiner ≡ pending → s.runner ≡ done → s.late ≡ false → s.woken ≡ 1

Step-Inv : {s t : System} → Step s t → Inv s → Inv t
Step-Inv {s} (look_complete p e) v = ground (arith, is_complete_lem (from_bits s.word))
Step-Inv (look_aborted p e f) v = ground arith
Step-Inv (look_running p e f) v = ground arith
Step-Inv {s} (read_output p e f) v = ground (arith)
Step-Inv (read_refused p e) v = ground arith
Step-Inv {s} (interest p) v = ground (arith, bit_or_eight s.word)
Step-Inv (store prev p e) v =
    ground (arith, bit_and_three prev, v.late_store prev, v.interested prev)
Step-Inv (store_again prev p e) v = ground (arith)
Step-Inv (write p) v = ground arith
Step-Inv {s} (mark p) v = ground (arith, bit_or_three s.word)
Step-Inv (wake prev p e f) v = ground (arith, v.about_to_wake prev)
Step-Inv (wake_nobody prev p e f) v = ground (arith, v.about_to_wake prev)
Step-Inv (no_interest prev p e) v = ground (arith, v.about_to_wake prev, bit_and_eight prev)
Step-Inv {s} cloned v = ground arith
Step-Inv {s} released v = ground arith
Step-Inv {s} (scheduled d e) v = ground (arith, attempt_lem s.word)

init-Inv : (w : ℕ) → w < 2 ^ 64 → w % 4 ≢ 3 → Inv (init w)
init-Inv w fits fresh = ground arith

again-Inv : {s : System} → Inv s → Inv (record s { joiner = start })
again-Inv v = ground arith

pub Reach-Inv : {w : ℕ} {s : System} → w < 2 ^ 64 → w % 4 ≢ 3 → Reach w s → Inv s
Reach-Inv {w} fits fresh begin = init-Inv w fits fresh
Reach-Inv fits fresh (later r st) = Step-Inv st (Reach-Inv fits fresh r)
Reach-Inv fits fresh (again r p) = again-Inv (Reach-Inv fits fresh r)
