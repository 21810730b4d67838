-- ===== src/Runtime/Machine/Spawned.antt =====
-- Many tasks that are spawned one after the other, up to the answers of their join handles.
use loony_rs_runtime.Base.{ℕ, ◌≡◌, List, [], ◌∷◌, All}
use loony_rs_runtime.Task.Header.{Polled, ready}
use loony_rs_runtime.Task.Raw
use loony_rs_runtime.Task.Join
use loony_rs_runtime.MultiThread.Deque.{Deque}
use loony_rs_runtime.Runtime.Machine.{Machine, spawn}

-- The number of a task, its future, and the output that the future is ready with at its first poll.
abbrev pub Job : Type 0 → Type 0 → Type 0
Job F T = ℕ × F × T

abbrev pub numbers : {F T : Type 0} → List (Job F T) → List ℕ
numbers [] = []
numbers (j ∷ js) = j.0 ∷ numbers js

abbrev pub AllReady : {F T : Type 0} → (F → Polled F T) → List (Job F T) → Type 0
AllReady poll_future js = All (λ j. (poll_future j.1).result ≡ ready j.2) js

module _ (D : Deque ℕ) where
  open D use {Queue}

  -- The calls of `MultiThread::spawn`, in order.
  unfoldable pub spawn_all :
      {F T W : Type 0} → List (Job F T) → Machine Queue F T W → Machine Queue F T W
  unfolding spawn
  spawn_all [] m = m
  spawn_all (j ∷ js) m = spawn_all js (spawn D j.0 j.1 m)
