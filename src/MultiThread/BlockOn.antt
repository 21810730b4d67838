-- ===== src/MultiThread/BlockOn.antt =====
-- `MultiThread::block_on`, on a thread that is no worker. Its parker is modelled in Park/FlagPark; here
-- a park is one answer of `wait`.
pub mod Waits
use loony_rs_runtime.Base.{
  ℕ, zero, suc, ◌==◌, Bool, true, false, if◌then◌else◌, Option, none, some, List, [], ◌∷◌,
}
use loony_rs_runtime.MultiThread.Deque.{Deque}
use loony_rs_runtime.MultiThread.Shared.{Shared}
use loony_rs_runtime.MultiThread.Steal.{steal_work}
use loony_rs_runtime.Handle.BlockOn.{spawn_all}

-- What the thread does after a poll that answered `Pending`.
pub data Waited (Task : Type 0) : Type 0 where
  helps : Task → Waited Task
  parks yields : Waited Task

module _ {Task : Type 0} (D : Deque Task) (spawns : Task → List Task) where
  open D use {Queue, len}

  unfoldable pub wait : Shared Queue → Waited Task × Shared Queue
  unfolding steal_work spawn_all
  wait s =
      let (found, s') = steal_work D s in
      elim found [
        | some t ↦ (helps t, spawn_all D spawns (spawns t) s')
        | none ↦ (if len s'.injector == 0 then parks else yields, s')
      ]

  -- A poll of the future: the tasks that it spawns, what it has become, its output. The result
  -- comes with what was done after each poll before.
  module _ {F T : Type 0} (poll_future : F → List Task × F × Option T) where
    unfoldable pub block_on : ℕ → F → Shared Queue → Option (T × List (Waited Task) × Shared Queue)
    unfolding wait spawn_all
    block_on zero f s = none
    block_on (suc polls) f s =
        let (spawned, next, result) = poll_future f in
        let s1 = spawn_all D spawns spawned s in
        let (waited, s2) = wait s1 in
        let rest = block_on polls next s2 in
        elim result [
          | some t ↦ some (t, [], s1)
          | none ↦ elim rest [ none ↦ none | some (t, ws, s3) ↦ some (t, waited ∷ ws, s3) ]
        ]
