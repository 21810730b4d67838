-- ===== src/Task/Overlap.antt =====
-- The polls of one task on any number of workers: `VTableFor::poll` of src/task/raw.rs, with the queues
-- that the task is put in, an access to the word at a time. The task was just pushed by `spawn`.
pub mod Twice
use loony_rs_runtime.Base.{ℕ, zero, suc, ◌+◌, ◌-◌, ◌^◌, ◌≡◌, bit_and, bit_or, some}
use loony_rs_runtime.Task.State.{
  usize, shl, refcount_shift, bit_not, aborted, complete, join_interest,
}
use loony_rs_runtime.Task.Wake.{attempt}

-- `pushing` counts the threads that are past their exchange and have not pushed the task yet, `queued`
-- how often the task is in a queue, `polling` the polls that have begun and not ended, and `started` those
-- that have begun.
pub record System : Type 0 where
  pub word : ℕ
  pub pushing : ℕ
  pub queued : ℕ
  pub polling : ℕ
  pub started : ℕ

pub data Step (s : System) : System → Type 0 where
  -- A worker takes the task from a queue and enters `poll`, which asks nothing of the word.
  begin :
      (n : ℕ)
      → s.queued ≡ suc n
      → Step s (record s { queued = n; polling = suc s.polling; started = suc s.started })
  -- The future is ready: the word is marked. The end of a poll.
  mark : (n : ℕ) → s.polling ≡ suc n → Step s (record s { word = bit_or s.word complete.bits })
  end : (n : ℕ) → s.polling ≡ suc n → Step s (record s { polling = n })
  -- `wake_by_ref_waker`, and the push of the scheduler's function.
  wake : (d : ℕ) → attempt s.word ≡ some d → Step s (record s { word = d; pushing = suc s.pushing })
  push : (n : ℕ) → s.pushing ≡ suc n → Step s (record s { pushing = n; queued = suc s.queued })
  -- What the wakers and the join handle do to the word.
  cloned : Step s (record s { word = usize (s.word + shl 1 refcount_shift) })
  released : Step s (record s { word = usize (s.word + 2 ^ 64 - shl 1 refcount_shift) })
  abort : Step s (record s { word = bit_or s.word aborted.bits })
  interest : Step s (record s { word = bit_or s.word join_interest.bits })
  forgotten : Step s (record s { word = bit_and s.word (bit_not join_interest.bits) })

abbrev pub init : ℕ → System
init w = record { word = w; pushing = 0; queued = 1; polling = 0; started = 0 }

pub data Reach (s : System) : System → Type 0 where
  here : Reach s s
  later : {t u : System} → Reach s t → Step t u → Reach s u
