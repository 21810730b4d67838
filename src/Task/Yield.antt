-- ===== src/Task/Yield.antt =====
-- `yield_now` and `block_on` of src/task/mod.safe.rs.
pub mod Laws
use loony_rs_runtime.Base.{
  ℕ, zero, suc, Bool, true, false, if◌then◌else◌, Option, none, some, [], ◌∷◌,
}
use loony_rs_runtime.Task.Header.{Poll, ready, pending, wake_by_ref, Polled}

pub record YieldNow : Type 0 where
  pub yielded : Bool

unfoldable pub yield_now : YieldNow
yield_now = record { yielded = false }

-- `YieldNow::poll`
unfoldable pub poll_yield : YieldNow → Polled YieldNow (Unit {0})
poll_yield y =
    if y.yielded
    then record { next = y; calls = []; result = ready tt }
    else record { next = record y { yielded = true }; calls = wake_by_ref ∷ []; result = pending }

-- `block_on`, whose waker does nothing, for so many polls. `none` is fuel that ran out.
module _ {F T : Type 0} (poll_future : F → Polled F T) where
  unfoldable pub block_on : ℕ → F → Option T
  block_on zero f = none
  block_on (suc polls) f =
      let p = poll_future f in elim p.result [ ready t ↦ some t | pending ↦ block_on polls p.next ]
