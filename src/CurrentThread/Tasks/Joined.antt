-- ===== src/CurrentThread/Tasks/Joined.antt =====
-- A future of `block_on` that spawns a task on its own thread and awaits it.
use loony_rs_runtime.Base.{
  update_self, ℕ, suc, ◌+◌, ◌≡◌, ◌≢◌, refl, ap, ◌∙◌, true, false, Option, some, List, [], ◌∷◌, ◌++◌,
  All, update,
}
use loony_rs_runtime.Task.Header.{Poll, ready, pending, Polled, Header, Event, frees_inside, U32}
use loony_rs_runtime.Task.Handle.{Answer, ok, poll, create_task, poll_task}
use loony_rs_runtime.Task.Handle.Laws.{run_then_poll, answer_frees}
use loony_rs_runtime.CurrentThread.{done}
use loony_rs_runtime.CurrentThread.Idle.{spawn_local_free}
use loony_rs_runtime.CurrentThread.Tasks.{
  Machine, MainWaker, main_waker, returned, start, join, poll_main, poll_join, spawn_local,
  block_on,
}
use loony_rs_runtime.CurrentThread.Tasks.Rounds.{
  run_tasks-notified, run_tasks_last, settled, park_notified, block_on_ready, block_on_pending,
}

-- The task as its handle leaves it at the first poll.
abbrev pub awaited : {F T : Type 0} → F → Header F (Option T) MainWaker
awaited f = record (create_task f) { join_waker = some main_waker }

-- The machine after the first poll of the future.
abbrev pub spawned : {F T : Type 0} → ℕ → F → Machine F T → Machine F T
spawned n f m = record {
  local = record (m.local) { queue = m.local.queue ++ n ∷ []; unparks = m.local.unparks + 1 };
  tasks = update (update m.tasks n (create_task f)) n (awaited f);
  notified = true;
}

module _ {F T : Type 0} (n : ℕ) where
  pub first_poll :
      (f : F) (m : Machine F T)
      → m.local.borrowed ≡ false
      → m.local.parker ≡ true
      → poll_main n (start f) m ≡ done (join, spawned n f m, pending)
  unfolding poll_main poll_join spawn_local create_task poll
  first_poll f m b p =
      rw (spawn_local_free (λ (_ : ℕ). []) n m.local b, p, update_self m.tasks n (create_task f))
        refl

  -- The machine after a later poll of the future.
  abbrev pub joined : Machine F T → Machine F T
  joined m = record m { tasks = update m.tasks n (poll main_waker (m.tasks n)).1 }

  pub later_poll :
      (m : Machine F T) (result : Poll (Answer T))
      → (poll main_waker (m.tasks n)).0 ≡ result
      → poll_main n join m ≡ done (join, joined m, result)
  unfolding poll_main poll_join
  later_poll m result e = ap (λ r. done (join, joined m, r)) e

  module _ (poll_future : F → Polled F T) where
    -- The machine when the first park has returned.
    abbrev pub after_first : F → Machine F T → Machine F T
    after_first f m = record (settled poll_future (spawned n f m)) { notified = false }

    -- The first park finds the notification of the spawn, so it returns at once.
    pub first_round :
        (polls : ℕ) (outside : List ℕ) (f : F) (m : Machine F T)
        → m.local.borrowed ≡ false
        → m.local.parker ≡ true
        → block_on poll_future (poll_main n) (suc polls) outside (start f) m
          ≡ block_on poll_future (poll_main n) polls outside join (after_first f m)
    first_round polls outside f m b p =
        let m1 = spawned n f m in
        block_on_pending poll_future (poll_main n) polls outside (start f) join m m1
          (first_poll f m b p) b
        ∙ rw
            (park_notified poll_future outside (settled poll_future m1)
              (run_tasks-notified poll_future m1.local.queue _ refl))
            refl

    -- By then the task was run once.
    pub after_first-task :
        (f : F) (m : Machine F T)
        → All (λ k. k ≢ n) m.local.queue
        → (after_first f m).tasks n ≡ poll_task poll_future 2 (awaited f)
    after_first-task f m fresh =
        run_tasks_last poll_future m.local.queue n _ fresh
        ∙ ap (poll_task poll_future 2)
            (update_self (update m.tasks n (create_task f)) n (awaited f))

    -- A poll that finds the task complete ends `block_on`.
    pub last_round :
        (polls : ℕ) (outside : List ℕ) (a : Answer T) (m : Machine F T)
        → (poll main_waker (m.tasks n)).0 ≡ ready a
        → block_on poll_future (poll_main n) (suc polls) outside join m
          ≡ done (returned a, joined m)
    last_round polls outside a m answer =
        block_on_ready poll_future (poll_main n) polls outside join join m (joined m) a
          (later_poll m (ready a) answer)

    -- The join handle that finds the task complete frees an address inside the task's header.
    pub last_frees :
        (m : Machine F T) (t : T)
        → (poll main_waker (m.tasks n)).0 ≡ ready (ok t)
        → ((joined m).tasks n).events ≡ (m.tasks n).events ++ frees_inside ∷ []
    last_frees m t answer =
        rw (update_self m.tasks n (poll main_waker (m.tasks n)).1)
          (answer_frees main_waker t (m.tasks n) answer)

module _ {F : Type 0} (n : ℕ) (poll_future : F → Polled F U32) where
  -- The queue is not borrowed and `PARKER` is set. The future of `block_on` spawns a task that is not
  -- in the queue yet and awaits it, and the task's future is ready with a `u32` at its first poll.
  -- Whatever else is queued, `block_on` then gets to the task's output at its second poll, and it gets
  -- there only past an undefined free: the last thing done to the task is the drop of a `Box` made of
  -- an address inside its header.
  pub local_join_frees :
      (polls : ℕ) (outside : List ℕ) (f : F) (t : U32) (m : Machine F U32)
      → m.local.borrowed ≡ false
      → m.local.parker ≡ true
      → All (λ k. k ≢ n) m.local.queue
      → (poll_future f).result ≡ ready t
      → (m' : Machine F U32) × (block_on poll_future
            (poll_main n)
            (suc (suc polls))
            outside
            (start f)
            m
          ≡ done (returned (ok t), m'))
        × (es : List (Event MainWaker)) × ((m'.tasks n).events ≡ es ++ frees_inside ∷ [])
  unfolding create_task
  local_join_frees polls outside f t m b p fresh r =
      let answer : (poll main_waker ((after_first n poll_future f m).tasks n)).0 ≡ ready (ok t) =
        rw (after_first-task n poll_future f m fresh)
          (run_then_poll poll_future 1 main_waker t (awaited f) r) in
      (
        joined n (after_first n poll_future f m),
        first_round n poll_future (suc polls) outside f m b p
            ∙ last_round n poll_future polls outside (ok t) (after_first n poll_future f m) answer,
        ((after_first n poll_future f m).tasks n).events,
        last_frees n poll_future (after_first n poll_future f m) t answer,
      )
