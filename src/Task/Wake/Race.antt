-- ===== src/Task/Wake/Race.antt =====
-- Any number of threads in the wake loop of a task at once, an atomic access at a time, while other
-- threads act on the same word. The loop is that of raw.rs; waker.rs tries the same exchanges.
pub mod Safety
use loony_rs_runtime.Base.{
  ℕ, ◌+◌, ◌-◌, ◌^◌, ◌%◌, ◌<◌, ◌≡◌, bit_and, bit_or, Option, none, some, update,
}
use loony_rs_runtime.Task.State.{
  usize, bit_not, shl, refcount_shift, aborted, complete, join_interest,
}
use loony_rs_runtime.Task.Wake.{attempt}

-- Where a thread stands: before the load, before the exchange of `current` for `desired`, or past
-- the loop because the load showed that there was nothing to do.
pub data Pc : Type 0 where
  start : Pc
  trying : (current desired : ℕ) → Pc
  stopped : Pc

-- What else is done to the word: `clone_waker`, `drop_waker`, the completion in `poll`,
-- `abort_task`, `set_join_waker`, and the drop of a join handle.
pub data Other : Type 0 where
  cloned released completed aborts joined handle_dropped : Other

unfoldable pub act : Other → ℕ → ℕ
act cloned w = usize (w + shl 1 refcount_shift)
act released w = usize (w + 2 ^ 64 - shl 1 refcount_shift)
act completed w = bit_or w complete.bits
act aborts w = bit_or w aborted.bits
act joined w = bit_or w join_interest.bits
act handle_dropped w = bit_and w (bit_not join_interest.bits)

-- `schedules` counts the calls of `Task::schedule`.
pub record System : Type 0 where
  pub word : ℕ
  pub pc : ℕ → Pc
  pub schedules : ℕ

-- A thread that has won or stopped may call `wake` again. `retry` is also the weak exchange of
-- waker.rs that fails for no reason.
pub data Step (s : System) : System → Type 0 where
  give_up :
      (i : ℕ)
      → s.pc i ≡ start
      → attempt s.word ≡ none
      → Step s (record s { pc = update s.pc i stopped })
  load :
      (i d : ℕ)
      → s.pc i ≡ start
      → attempt s.word ≡ some d
      → Step s (record s { pc = update s.pc i (trying s.word d) })
  exchange :
      (i c d : ℕ)
      → s.pc i ≡ trying c d
      → s.word ≡ c
      → Step s (record { word = d; pc = update s.pc i start; schedules = s.schedules + 1 })
  retry : (i c d : ℕ) → s.pc i ≡ trying c d → Step s (record s { pc = update s.pc i start })
  again : (i : ℕ) → s.pc i ≡ stopped → Step s (record s { pc = update s.pc i start })
  other : (o : Other) → Step s (record s { word = act o s.word })

abbrev pub init : ℕ → System
init w = record { word = w; pc = λ _. start; schedules = 0 }

pub data Reach (w : ℕ) : System → Type 0 where
  begin : Reach w (init w)
  later : {s t : System} → Reach w s → Step s t → Reach w t
