-- ===== src/CurrentThread.antt =====
-- `CurrentThread` of src/runtime/scheduler/current_thread.rs: the queue of its thread, and the loops
-- over it. Its parker is modelled in Park/ThreadPark; here a park is one call that returns.
pub mod Idle
pub mod Tasks
pub mod Fifo
use loony_rs_runtime.Base.{
  ℕ, zero, suc, ◌+◌, Bool, true, false, not, ◌&&◌, if◌then◌else◌, Option, none, some, List, [], ◌∷◌,
  ◌++◌, length,
}

-- `panicked` is a `borrow_mut` of a `RefCell` that is borrowed, `unfinished` fuel that ran out.
pub data Outcome (A : Type 0) : Type 0 where
  done : A → Outcome A
  panicked : Outcome A
  unfinished : Outcome A

abbrev pub bind : {A B : Type 0} → Outcome A → (A → Outcome B) → Outcome B
bind (done a) f = f a
bind panicked f = panicked
bind unfinished f = unfinished

-- `TASK_QUEUE` with whether it is borrowed, whether `PARKER` is set, the flag of the shutdown, the
-- number of calls of `unpark`, and the durations of the calls of `park_timeout`, oldest first.
pub record Local (Task : Type 0) : Type 0 where
  pub queue : List Task
  pub borrowed : Bool
  pub parker : Bool
  pub shutdown : Bool
  pub unparks : ℕ
  pub parks : List (Option ℕ)

module _ {Task : Type 0} where
  -- `CurrentThread::new`, on a thread with these tasks in its queue.
  unfoldable pub new : List Task → Local Task
  new queue = record {
    queue = queue;
    borrowed = false;
    parker = true;
    shutdown = false;
    unparks = 0;
    parks = [];
  }

  -- `CurrentThread::spawn` and `CurrentThread::spawn_task`
  unfoldable pub spawn_task : Task → Local Task → Outcome (Local Task)
  spawn_task t s =
      if s.borrowed
      then panicked
      else done (record s { queue = s.queue ++ t ∷ []; unparks = s.unparks + 1 })

  unfoldable pub spawn_local : Task → Local Task → Outcome (Local Task)
  spawn_local t s =
      if s.borrowed
      then panicked
      else done (record s {
        queue = s.queue ++ t ∷ [];
        unparks = if s.parker then s.unparks + 1 else s.unparks;
      })

  unfoldable pub spawn_all : List Task → Local Task → Outcome (Local Task)
  unfolding spawn_local
  spawn_all [] s = done s
  spawn_all (t ∷ ts) s = bind (spawn_local t s) (spawn_all ts)

  unfoldable pub shutdown : Local Task → Outcome (Local Task)
  shutdown s =
      if s.borrowed
      then panicked
      else done (record s { shutdown = true; unparks = s.unparks + 1; queue = []; parker = false })

  unfoldable pub is_idle : Local Task → Bool
  is_idle s = elim s.queue [ [] ↦ true | _ ∷ _ ↦ false ]

-- `spawns` is what a run of a task spawns on its own thread, in order.
module _ {Task : Type 0} (spawns : Task → List Task) where
  -- The loop of `run_until_idle`, with the tasks that it ran.
  unfoldable pub drain : ℕ → Local Task → Outcome (List Task × Local Task)
  unfolding spawn_all
  drain zero s = unfinished
  drain (suc fuel) s = elim s.queue [
    | [] ↦ done ([], s)
    | t ∷ ts ↦
        bind (spawn_all (spawns t) (record s { queue = ts }))
          (λ s'. bind (drain fuel s') (λ r. done (t ∷ r.0, r.1)))
  ]

  unfoldable pub run_until_idle : ℕ → Local Task → Outcome (List Task × Local Task)
  unfolding drain
  run_until_idle fuel s =
      if s.borrowed
      then panicked
      else bind (drain fuel (record s { borrowed = true }))
          (λ r. done (r.0, record (r.1) { borrowed = false }))

  -- `CurrentThread::turn`
  unfoldable pub turn : ℕ → Option ℕ → Local Task → Outcome (Bool × Local Task)
  unfolding run_until_idle is_idle
  turn fuel duration s = bind (run_until_idle fuel s) (λ r.
      let s' = r.1 in
      done (
        not s'.shutdown,
        if is_idle s' && not s'.shutdown
            then record s' { parks = s'.parks ++ duration ∷ [] }
            else s',
      ))

  -- A poll of the future of `block_on`: the tasks that it spawns, what it has become, its output.
  module _ {F T : Type 0} (poll_future : F → List Task × F × Option T) where
    -- `CurrentThread::block_on`, for so many polls.
    unfoldable pub block_on : ℕ → F → Local Task → Outcome (T × Local Task)
    unfolding run_until_idle is_idle spawn_all
    block_on zero future s = unfinished
    block_on (suc polls) future s =
        let (spawned, next, result) = poll_future future in
        bind (spawn_all spawned s) (λ s1. elim result [
          | some t ↦ done (t, s1)
          | none ↦ bind (run_until_idle (suc (length s1.queue)) s1) (λ r.
              let s2 = r.1 in
              block_on polls next
                (if is_idle s2 then record s2 { parks = s2.parks ++ none ∷ [] } else s2))
        ])
