-- ===== src/Timer/Parker.antt =====
-- `Parker` of src/runtime/park.rs: a `ThreadPark`, with the two drivers or without them. The calls that
-- it makes on its `ThreadPark` are logged.
pub mod Waits
use loony_rs_runtime.Base.{ℕ, suc, Option, none, some, List, [], ◌∷◌, ◌++◌}
use loony_rs_runtime.Timer.{BinaryHeap, next_deadline, ParkCall, park_call}
use loony_rs_runtime.Io
use loony_rs_runtime.Io.{Result, ok, err, Mio, Slab, IoDriver}

module _ {W : Type 0} (M : Mio) (S : Slab W) (B : BinaryHeap W) where
  open B use {Heap}

  -- `unparked` counts the calls of `unpark`.
  pub record Parker : Type 0 where
    pub io_driver : Option (IoDriver M S)
    pub time_driver : Option Heap
    pub parked : List ParkCall
    pub unparked : ℕ

  -- `Parker::new_with_io`
  unfoldable pub new_with_io : Result (Mio.Error M) Parker
  unfolding Io.new
  new_with_io = elim (Io.new M S) [
    | ok d ↦ ok (record {
      io_driver = some d;
      time_driver = some (BinaryHeap.new B);
      parked = [];
      unparked = 0;
    })
    | err e ↦ err e
  ]

  -- `Parker::new`
  unfoldable pub new : Parker
  new = record { io_driver = none; time_driver = none; parked = []; unparked = 0 }

  -- The call that `park_timeout` makes at the instant `now`.
  unfoldable pub asked : ℕ → Option ℕ → Parker → ParkCall
  unfolding park_call next_deadline
  asked now timeout p =
      park_call (elim p.time_driver [ none ↦ none | some h ↦ next_deadline B h ]) now timeout

  unfoldable pub park_timeout : ℕ → Option ℕ → Parker → Parker
  unfolding asked
  park_timeout now timeout p = record p { parked = p.parked ++ asked now timeout p ∷ [] }

  unfoldable pub park : ℕ → Parker → Parker
  unfolding park_timeout
  park now p = park_timeout now none p

  unfoldable pub unpark : Parker → Parker
  unpark p = record p { unparked = suc p.unparked }
