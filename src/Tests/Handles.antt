-- ===== src/Tests/Handles.antt =====
-- Handles at concrete inputs, with lists for the queues. A task is a number, and 100 spawns two.
use loony_rs_runtime.Base.{
  ℕ, zero, suc, ◌==◌, ◌≡◌, refl, if◌then◌else◌, some, none, Option, List, [], ◌∷◌,
}
use loony_rs_runtime.MultiThread.Shared.{Shared}
use loony_rs_runtime.Task.Header.{ready, pending, WakerCall, wake, wake_by_ref, clone, drop, Polled}
use loony_rs_runtime.Handle.BlockOn.{deadlocked, block_on_with_worker}
use loony_rs_runtime.Handle.Blocking.{starting, self_wake_deadlocks}
use loony_rs_runtime.Tests.Workers.{lists, busy}

abbrev spawns : ℕ → List ℕ
spawns t = if t == 100 then 1 ∷ 2 ∷ [] else []

abbrev queued : Shared (List ℕ)
queued = record busy { injector = 100 ∷ 7 ∷ [] }

-- A future that is pending so many times and then ready with 42; at 0 of the second number it wakes
-- its waker in every poll.
abbrev counts : ℕ → Polled ℕ ℕ
counts zero = record { next = 0; calls = clone ∷ drop ∷ []; result = ready 42 }
counts (suc k) = record { next = k; calls = clone ∷ []; result = pending }

abbrev wakes_itself : ℕ → Polled ℕ ℕ
wakes_itself zero = record { next = 0; calls = wake_by_ref ∷ []; result = pending }
wakes_itself (suc k) = record { next = k; calls = []; result = pending }

-- The waker is woken by value after the poll 1.
abbrev between : ℕ → List WakerCall
between n = if n == 1 then wake ∷ [] else wake_by_ref ∷ []

self_wake_deadlocks_example :
    block_on_with_worker lists spawns wakes_itself
      (λ n. [])
      3
      0
      (starting lists spawns wakes_itself 2)
      queued
    ≡ deadlocked
self_wake_deadlocks_example =
    self_wake_deadlocks lists spawns wakes_itself (λ n. []) 2 2 0 queued
      (refl, refl, refl, (refl, refl, refl, refl)) refl

abbrev awaited : ℕ → List ℕ × ℕ × Option ℕ
awaited zero = ([], 0, some 42)
awaited (suc k) = (k ∷ [], k, none)
