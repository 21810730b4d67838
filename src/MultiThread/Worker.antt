-- ===== src/MultiThread/Worker.antt =====
-- `WorkerThread::run`: one worker, with its own queue apart from the shared state. What other threads
-- push meanwhile is an argument.
pub mod Lost
use loony_rs_runtime.Base.{
  ℕ, zero, suc, ◌+◌, ◌-◌, ◌^◌, ◌%◌, Bool, true, false, not, if◌then◌else◌, Option, none, some, List,
  [], ◌∷◌,
}
use loony_rs_runtime.MultiThread.Deque.{Deque, Steal, empty, retry, success}
use loony_rs_runtime.MultiThread.Shared.{Shared}
use loony_rs_runtime.MultiThread.Steal.{to_option, steal_others}

-- One round of the loop: the task that it runs, or that it drops unrun, or none.
pub data Round (Task : Type 0) : Type 0 where
  runs : Task → Round Task
  drops : Task → Round Task
  sleeps : Round Task
  stops : Round Task

module _ {Task : Type 0} (D : Deque Task) where
  open D use {Queue, push, steal, pop}

  unfoldable pub push_all : List Task → Shared Queue → Shared Queue
  push_all [] s = s
  push_all (t ∷ ts) s = push_all ts (record s { injector = push t s.injector })

  -- `worker.pop().is_some() || shared.injector.steal().success().is_some()`: the task that is found
  -- is dropped, and the injector is asked only if the own queue is empty.
  unfoldable pub check_for_work : Queue → Shared Queue → Option Task × Queue × Shared Queue
  check_for_work own s =
      let (mine, own') = pop own in
      let (r, q) = steal s.injector in
      elim mine [
        | some t ↦ (some t, own', s)
        | none ↦ (to_option r, own', record s { injector = q })
      ]

  -- The search for a task to run: the own queue, the other workers, the injector.
  unfoldable pub find_task : ℕ → Queue → Shared Queue → Option Task × Queue × Shared Queue
  unfolding steal_others
  find_task index own s =
      let (mine, own') = pop own in
      let (stolen, s') = steal_others D index s in
      let (r, q) = steal s'.injector in
      elim mine [
        | some t ↦ (some t, own', s)
        | none ↦ elim stolen [
          | some t ↦ (some t, own', s')
          | none ↦ (to_option r, own', record s' { injector = q })
        ]
      ]

  -- From the head of the loop to that of the inner one, entered with no shutdown since. `arrived` is
  -- what other threads push after the search
  -- and before the second check.
  unfoldable pub round : ℕ → List Task → Queue → Shared Queue → Round Task × Queue × Shared Queue
  unfolding find_task check_for_work push_all
  round index arrived own s =
      if s.shutdown
      then (stops, own, s)
      else let (found, own', s') = find_task index own s in
        let locked = record (push_all arrived s') { active = (s'.active + 2 ^ 64 - 1) % 2 ^ 64 } in
        let (dropped, own'', s'') = check_for_work own' locked in
        elim found [
          | some t ↦ (runs t, own', s')
          | none ↦ elim dropped [
            | some t ↦ (drops t, own'', record s'' { active = (s''.active + 1) % 2 ^ 64 })
            | none ↦ (sleeps, own'', s'')
          ]
        ]

  -- One return from the wait of a sleeping worker: `arrived` was pushed while it slept.
  unfoldable pub wake_round : List Task → Queue → Shared Queue → Round Task × Queue × Shared Queue
  unfolding check_for_work push_all
  wake_round arrived own s =
      let (dropped, own', s') = check_for_work own (push_all arrived s) in
      elim dropped [
        | some t ↦ (drops t, own', record s' { active = (s'.active + 1) % 2 ^ 64 })
        | none ↦
            if s'.shutdown
            then (stops, own', record s' { active = (s'.active + 1) % 2 ^ 64 })
            else (sleeps, own', s')
      ]
