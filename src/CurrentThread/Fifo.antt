-- ===== src/CurrentThread/Fifo.antt =====
-- The calls of the current-thread scheduler, and a queue that is all a client sees of them.
pub mod Refines
use loony_rs_runtime.Base.{
  ℕ, suc, Bool, true, not, if◌then◌else◌, Option, List, [], ◌∷◌, ◌++◌, length,
}
use loony_rs_runtime.CurrentThread.{
  Outcome, done, panicked, bind, Local, spawn_local, spawn_task, run_until_idle, turn, shutdown,
}
use loony_rs_runtime.CurrentThread.Idle.{quiet}

-- `run` is the `run_until_idle` of `block_on`.
pub data Call (Task : Type 0) : Type 0 where
  spawn spawn_here : Task → Call Task
  run : Call Task
  turn_for : Option ℕ → Call Task
  close : Call Task

-- What a client sees: the tasks that were run, and the answer of a `turn`.
pub data Seen (Task : Type 0) : Type 0 where
  ran : List Task → Seen Task
  went_on : Bool → Seen Task

module _ {Task : Type 0} (spawns : Task → List Task) where
  -- A call with fuel for each task of the queue.
  unfoldable pub call : Call Task → Local Task → Outcome (List (Seen Task) × Local Task)
  unfolding spawn_task spawn_local run_until_idle shutdown
  call (spawn t) s = bind (spawn_task t s) (λ s'. done ([], s'))
  call (spawn_here t) s = bind (spawn_local t s) (λ s'. done ([], s'))
  call run s =
      bind (run_until_idle spawns (suc (length s.queue)) s) (λ (ts, s'). done (ran ts ∷ [], s'))
  call (turn_for duration) s = bind (run_until_idle spawns (suc (length s.queue)) s) (λ r.
      bind (turn spawns (suc (length s.queue)) duration s)
        (λ (b, s'). done (ran r.0 ∷ went_on b ∷ [], s')))
  call close s = bind (shutdown s) (λ s'. done ([], s'))

  unfoldable pub calls : List (Call Task) → Local Task → Outcome (List (Seen Task))
  unfolding call
  calls [] s = done []
  calls (c ∷ cs) s = bind (call c s) (λ r. bind (calls cs r.1) (λ seen. done (r.0 ++ seen)))

-- The tasks that wait, oldest first, and whether there was a shutdown.
pub record Fifo (Task : Type 0) : Type 0 where
  pub waiting : List Task
  pub closed : Bool

module _ {Task : Type 0} (spawns : Task → List Task) where
  -- What the calls mean: a run runs what waits in the order of the spawns, and panics if one of
  -- those tasks spawns another.
  unfoldable pub answer : Call Task → Fifo Task → Outcome (List (Seen Task) × Fifo Task)
  answer (spawn t) q = done ([], record q { waiting = q.waiting ++ t ∷ [] })
  answer (spawn_here t) q = done ([], record q { waiting = q.waiting ++ t ∷ [] })
  answer run q =
      if quiet spawns q.waiting
      then done (ran q.waiting ∷ [], record q { waiting = [] })
      else panicked
  answer (turn_for duration) q =
      if quiet spawns q.waiting
      then done (ran q.waiting ∷ went_on (not q.closed) ∷ [], record q { waiting = [] })
      else panicked
  answer close q = done ([], record { waiting = []; closed = true })

  unfoldable pub answers : List (Call Task) → Fifo Task → Outcome (List (Seen Task))
  unfolding answer
  answers [] q = done []
  answers (c ∷ cs) q = bind (answer c q) (λ r. bind (answers cs r.1) (λ seen. done (r.0 ++ seen)))
