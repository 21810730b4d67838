-- ===== src/Park/FlagPark.antt =====
-- `SleepPark` of src/runtime/park.rs and `BlockOnParker` of src/runtime/scheduler/multi_thread.rs: a
-- flag over the parking of std, an access at a time. One thread parks, any number of others unpark.
pub mod Stuck
pub mod Woken
use loony_rs_runtime.Base.{ℕ, suc, ◌≡◌, Bool, true, false}

-- They differ in whose thread `unpark` unparks: `SleepPark` calls `thread::current`, which is the
-- thread that calls it, and `BlockOnParker` has kept the thread that made it. Only `SleepPark` has a
-- `park_timeout`.
pub data Kind : Type 0 where
  sleep_park block_on_parker : Kind

-- Where the parking thread stands: outside; before the exchange of `park`, or in its `thread::park`;
-- before the exchange of `park_timeout`, or in its `thread::park_timeout`.
pub data Pc : Type 0 where
  outside looping blocked trying napping : Pc

-- `token` is that of the parking thread in std: `unpark` of the thread makes it, and a park takes it
-- or waits for it. `unparkers` counts the threads in `unpark` that set the flag and have not called
-- the `unpark` of std yet.
pub record System : Type 0 where
  pub flag : Bool
  pub token : Bool
  pub pc : Pc
  pub unparkers : ℕ

-- `SleepPark::new` and `BlockOnParker::new`
abbrev pub new : System
new = record { flag = false; token = false; pc = outside; unparkers = 0 }

-- The calls of `park`, `park_timeout` and `unpark`, with the exchange at the head of the last. `own`
-- is an `unpark` by the parking thread itself.
pub data Call (k : Kind) (s : System) : System → Type 0 where
  park : s.pc ≡ outside → Call k s (record s { pc = looping })
  park_timeout : k ≡ sleep_park → s.pc ≡ outside → Call k s (record s { pc = trying })
  unpark : s.flag ≡ false → Call k s (record s { flag = true; unparkers = suc s.unparkers })
  unpark_again : s.flag ≡ true → Call k s s
  own : s.pc ≡ outside → s.flag ≡ false → Call k s (record s { flag = true; token = true })

-- What the calls go on to do.
pub data Step (k : Kind) (s : System) : System → Type 0 where
  take : s.pc ≡ looping → s.flag ≡ true → Step k s (record s { flag = false; pc = outside })
  block : s.pc ≡ looping → s.flag ≡ false → Step k s (record s { pc = blocked })
  wake : s.pc ≡ blocked → s.token ≡ true → Step k s (record s { token = false; pc = looping })
  try_take : s.pc ≡ trying → s.flag ≡ true → Step k s (record s { flag = false; pc = outside })
  nap : s.pc ≡ trying → s.flag ≡ false → Step k s (record s { pc = napping })
  nap_ends : s.pc ≡ napping → s.token ≡ true → Step k s (record s { token = false; pc = outside })
  unpark_caller :
      (n : ℕ) → k ≡ sleep_park → s.unparkers ≡ suc n → Step k s (record s { unparkers = n })
  unpark_creator :
      (n : ℕ)
      → k ≡ block_on_parker
      → s.unparkers ≡ suc n
      → Step k s (record s { token = true; unparkers = n })

-- The parks of std may also return for no reason, and `park_timeout` when its duration is over.
pub data Expire (s : System) : System → Type 0 where
  spurious : s.pc ≡ blocked → Expire s (record s { pc = looping })
  elapsed : s.pc ≡ napping → Expire s (record s { pc = outside })

pub data Reach (k : Kind) (s : System) : System → Type 0 where
  here : Reach k s s
  called : {t u : System} → Reach k s t → Call k t u → Reach k s u
  later : {t u : System} → Reach k s t → Step k t u → Reach k s u
  expired : {t u : System} → Reach k s t → Expire t u → Reach k s u

-- The same with no park that returns for no reason.
pub data Patient (k : Kind) (s : System) : System → Type 0 where
  here : Patient k s s
  called : {t u : System} → Patient k s t → Call k t u → Patient k s u
  later : {t u : System} → Patient k s t → Step k t u → Patient k s u

-- The same with no further call.
pub data Settle (k : Kind) (s : System) : System → Type 0 where
  here : Settle k s s
  later : {t u : System} → Settle k s t → Step k t u → Settle k s u
