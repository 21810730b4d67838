-- ===== src/Task/Join/Race.antt =====
-- `JoinHandle::poll` of src/task/mod.safe.rs on one thread and the completion in `VTableFor::poll` of
-- src/task/raw.rs on another, an access to the header at a time, while wakers are cloned, dropped and
-- woken. `JoinHandle::abort` does not run beside them: `poll` borrows the handle mutably.
pub mod Invariant
pub mod Wakes
pub mod Lost
use loony_rs_runtime.Base.{
  ℕ, suc, ◌+◌, ◌-◌, ◌^◌, ◌==◌, ◌≡◌, bit_and, bit_or, Bool, true, false, not, ◌||◌, some,
}
use loony_rs_runtime.Task.State.{
  usize, shl, refcount_shift, aborted, complete, join_interest, from_bits, is_complete, is_aborted,
}
use loony_rs_runtime.Task.Wake.{attempt}

-- Where the poll of the handle stands: before its load; past it, with the word complete, or with a
-- task to register at; past the `fetch_or` of `set_join_waker`, which answered `prev`, and before the
-- store of the waker; and past the poll, with `Pending`, with an output, or with `Aborted`.
pub data Joiner : Type 0 where
  start reading registering : Joiner
  storing : (prev : ℕ) → Joiner
  pending answered refused : Joiner

-- Where the completion stands: before the write of the output, before the `fetch_or` of `COMPLETE`,
-- past it with its answer, and past the wake of the join waker.
pub data Runner : Type 0 where
  polled wrote : Runner
  marked : (prev : ℕ) → Runner
  done : Runner

-- `stored` says whether `join_waker` holds a waker, `written` and `read` whether the output was
-- written, and had been when the handle read it. `woken` counts the wakes of a join waker. `late` says
-- whether the completion came between the two accesses of `set_join_waker`.
pub record System : Type 0 where
  pub word : ℕ
  pub joiner : Joiner
  pub runner : Runner
  pub stored : Bool
  pub written : Bool
  pub read : Bool
  pub woken : ℕ
  pub late : Bool

abbrev pub is_storing : Joiner → Bool
is_storing start = false
is_storing reading = false
is_storing registering = false
is_storing (storing prev) = true
is_storing pending = false
is_storing answered = false
is_storing refused = false

pub data Step (s : System) : System → Type 0 where
  -- `JoinHandle::poll`
  look_complete :
      s.joiner ≡ start
      → is_complete (from_bits s.word) ≡ true
      → Step s (record s { joiner = reading })
  look_aborted :
      s.joiner ≡ start
      → is_complete (from_bits s.word) ≡ false
      → is_aborted (from_bits s.word) ≡ true
      → Step s (record s { joiner = refused })
  look_running :
      s.joiner ≡ start
      → is_complete (from_bits s.word) ≡ false
      → is_aborted (from_bits s.word) ≡ false
      → Step s (record s { joiner = registering })
  read_output :
      s.joiner ≡ reading
      → (bit_and s.word complete.bits == 0) ≡ false
      → (bit_and s.word aborted.bits == 0) ≡ true
      → Step s (record s { joiner = answered; read = s.written })
  -- The output is not read from an aborted task, and the word was aborted when it was loaded, too.
  read_refused :
      s.joiner ≡ reading
      → (bit_and s.word aborted.bits == 0) ≡ false
      → Step s (record s { joiner = refused })
  -- `set_join_waker`
  interest :
      s.joiner ≡ registering
      → Step s (record s { word = bit_or s.word join_interest.bits; joiner = storing s.word })
  store :
      (prev : ℕ)
      → s.joiner ≡ storing prev
      → (bit_and prev complete.bits == 0) ≡ true
      → Step s (record s { stored = true; joiner = pending })
  store_again :
      (prev : ℕ)
      → s.joiner ≡ storing prev
      → (bit_and prev complete.bits == 0) ≡ false
      → Step s (record s { stored = true; joiner = start })
  -- `VTableFor::poll`, once the future is ready
  write : s.runner ≡ polled → Step s (record s { written = true; runner = wrote })
  mark :
      s.runner ≡ wrote
      → Step s (record s {
        word = bit_or s.word complete.bits;
        runner = marked s.word;
        late = s.late || is_storing s.joiner;
      })
  wake :
      (prev : ℕ)
      → s.runner ≡ marked prev
      → (bit_and prev join_interest.bits == 0) ≡ false
      → s.stored ≡ true
      → Step s (record s { stored = false; woken = suc s.woken; runner = done })
  wake_nobody :
      (prev : ℕ)
      → s.runner ≡ marked prev
      → (bit_and prev join_interest.bits == 0) ≡ false
      → s.stored ≡ false
      → Step s (record s { runner = done })
  no_interest :
      (prev : ℕ)
      → s.runner ≡ marked prev
      → (bit_and prev join_interest.bits == 0) ≡ true
      → Step s (record s { runner = done })
  -- the task's wakers
  cloned : Step s (record s { word = usize (s.word + shl 1 refcount_shift) })
  released : Step s (record s { word = usize (s.word + 2 ^ 64 - shl 1 refcount_shift) })
  scheduled : (d : ℕ) → attempt s.word ≡ some d → Step s (record s { word = d })

-- A task that was just created, with its handle not polled yet.
abbrev pub init : ℕ → System
init w = record {
  word = w;
  joiner = start;
  runner = polled;
  stored = false;
  written = false;
  read = false;
  woken = 0;
  late = false;
}

-- The executor may poll a handle again that answered `Pending`.
pub data Reach (w : ℕ) : System → Type 0 where
  begin : Reach w (init w)
  later : {s t : System} → Reach w s → Step s t → Reach w t
  again : {s : System} → Reach w s → s.joiner ≡ pending → Reach w (record s { joiner = start })

-- Steps with no further poll of the handle.
pub data Run (s : System) : System → Type 0 where
  here : Run s s
  then_step : {t u : System} → Run s t → Step t u → Run s u
