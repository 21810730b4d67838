-- ===== src/Tests/Drivers.antt =====
-- The I/O driver and the wakers of the parkers at concrete inputs.
use loony_rs_runtime.Base.{
  ℕ, ◌+◌, ◌⊎◌, ◌<◌, ◌≡◌, ◌≤◌, refl, arith, true, false, Option, some, none, List, [], ◌∷◌,
  get_elem?,
}
use loony_rs_runtime.Timer.{TimerEntry, process, park_timeout}
use loony_rs_runtime.Timer.Parker.{Parker, asked}
use loony_rs_runtime.Timer.Parker.Waits.{whole, Within, parker_waits}
use loony_rs_runtime.Tests.Timers.{list_heap, at, three}
use loony_rs_runtime.Io.{Mio, Slab, Result, ok, IoDriver, poll}
use loony_rs_runtime.Io.Poll.{poll_wakes}
use loony_rs_runtime.Park.FlagPark.{System, blocked, sleep_park, block_on_parker, Settle, outside}
use loony_rs_runtime.Park.FlagPark
use loony_rs_runtime.Park.FlagPark.Woken.{unpark_wakes}
use loony_rs_runtime.Task.Layout.{Sizes}

-- A poll answers the registered tokens.
abbrev tokens : Mio
tokens = record {
  Poll = List ℕ;
  Source = ℕ;
  Error = ℕ;
  Interests = ℕ;
  readable = 1;
  writable = 2;
  both = λ a b. a + b;
  new = ok [];
  register = λ p s t i. (ok tt, t ∷ p);
  reregister = λ p s t i. (ok tt, p);
  deregister = λ p s. (ok tt, []);
  poll = λ p room timeout. (ok p, p);
}

abbrev wakers : Slab ℕ
wakers = record { Items = List ℕ; new = []; get = get_elem?; get-new = λ t. refl }

abbrev driver : IoDriver tokens wakers
driver = record { selector = 1 ∷ 7 ∷ 0 ∷ []; wakers = 100 ∷ 101 ∷ [] }

poll_wakes_example :
    ◌≡◌ {A = Option (Result ℕ (Unit {0}) × List ℕ) × IoDriver tokens wakers}
      (poll tokens wakers 4 driver none)
      (some (ok tt, 101 ∷ 100 ∷ []), driver)
poll_wakes_example = poll_wakes tokens wakers 4 driver none (λ events e. ground arith)

abbrev sleeper : System
sleeper = record { flag = false; token = false; pc = blocked; unparkers = 0 }

unpark_wakes_example :
    (t : System) × Settle block_on_parker (record sleeper { flag = true; unparkers = 1 }) t
    × (t.pc ≡ outside)
    × (t.flag ≡ false)
unpark_wakes_example =
    unpark_wakes
      (FlagPark.Reach.called
        (FlagPark.Reach.later (FlagPark.Reach.called FlagPark.Reach.here (FlagPark.Call.park refl))
          (FlagPark.Step.block refl refl))
        (FlagPark.Call.unpark refl))
      refl refl

abbrev sizes : Sizes
sizes = record {
  header_size = 56;
  header_align = 8;
  future_size = 24;
  future_align = 8;
  output_size = 4;
  output_align = 4;
  output_field = 32;
}

-- Both drivers, and the earliest timer at 10.
abbrev driven : Parker tokens wakers list_heap
driven = record {
  io_driver = some (record { selector = []; wakers = [] });
  time_driver = some three;
  parked = [];
  unparked = 0;
}

parker_waits_example :
    ((d : ℕ) × (asked tokens wakers list_heap 4 (some 9) driven ≡ park_timeout d)
      × Within (some 9) d
      × (4 < 10)
      × (4 + d ≤ 10)
      × ((some 9 ≡ some d)
          ⊎ ((es : List (TimerEntry ℕ)) × (g : List (TimerEntry ℕ)) × (process list_heap 4
                  (4 + d)
                  three
                ≡ some (at 10 ∷ es, g)))))
    ⊎ ((10 ≤ 4)
        × (asked tokens wakers list_heap 4 (some 9) driven ≡ whole (some 9))
        × ((es : List (TimerEntry ℕ)) × (g : List (TimerEntry ℕ)) × (process list_heap 4 4 three
              ≡ some (at 10 ∷ es, g))))
parker_waits_example =
    parker_waits tokens wakers list_heap 3 4 (some 9) driven three (at 10) refl refl (omega arith)
