-- ===== src/CurrentThread/Tasks/Rounds.antt =====
-- A round of `block_on` of the current-thread scheduler, and what it does to the tasks.
use loony_rs_runtime.Base.{
  update_self, update_other, ℕ, suc, ◌≡◌, ◌≢◌, refl, ap, ◌∙◌, Bool, true, false, none, some, List,
  [], ◌∷◌, ◌++◌, All, arith, length,
}
use loony_rs_runtime.Task.Header.{ready, pending, Poll, Polled}
use loony_rs_runtime.Task.Handle.{poll_task}
use loony_rs_runtime.CurrentThread.{Outcome, done, bind, is_idle}
use loony_rs_runtime.CurrentThread.Idle.{quiet, run_until_idle_lem}
use loony_rs_runtime.CurrentThread.Tasks.{
  Machine, Ended, returned, asleep, visit, run_task, run_tasks, run_until_idle, park, block_on,
}

quiet_always : (ns : List ℕ) → quiet (λ _. []) ns ≡ true
quiet_always [] = refl
quiet_always (n ∷ ns) = quiet_always ns

elim_true : {A : Type 0} {b : Bool} (x y : A) → b ≡ true → elim b [ true ↦ x | false ↦ y ] ≡ x
elim_true x y e = rw e refl

module _ {F T : Type 0} (poll_future : F → Polled F T) where
  pub run_tasks-local :
      (ns : List ℕ) (m : Machine F T) → (run_tasks poll_future ns m).local ≡ m.local
  unfolding run_tasks run_task visit
  run_tasks-local [] m = refl
  run_tasks-local (n ∷ ns) m = run_tasks-local ns (run_task poll_future n m)

  -- A notification stays while tasks run.
  pub run_tasks-notified :
      (ns : List ℕ) (m : Machine F T)
      → m.notified ≡ true
      → (run_tasks poll_future ns m).notified ≡ true
  unfolding run_tasks run_task visit
  run_tasks-notified [] m e = e
  run_tasks-notified (n ∷ ns) m e = run_tasks-notified ns (run_task poll_future n m) (rw e refl)

  -- The last of the tasks is run once, at its header from before.
  pub run_tasks_last :
      (ns : List ℕ) (n : ℕ) (m : Machine F T)
      → All (λ k. k ≢ n) ns
      → (run_tasks poll_future (ns ++ n ∷ []) m).tasks n ≡ poll_task poll_future 2 (m.tasks n)
  unfolding run_tasks run_task visit
  run_tasks_last [] n m h = update_self m.tasks n (poll_task poll_future 2 (m.tasks n))
  run_tasks_last (k ∷ ks) n m h =
      run_tasks_last ks n (run_task poll_future k m) h.1
      ∙ ap (poll_task poll_future 2)
          (update_other m.tasks k n (poll_task poll_future 2 (m.tasks k)) h.0)

  -- The machine once its queue was run.
  abbrev pub settled : Machine F T → Machine F T
  settled m =
      run_tasks poll_future m.local.queue (record m { local = record (m.local) { queue = [] } })

  run_until_idle-settles :
      (m : Machine F T) → m.local.borrowed ≡ false → run_until_idle poll_future m ≡ done (settled m)
  unfolding run_until_idle
  run_until_idle-settles m b =
      rw
        (
          run_until_idle_lem (λ _. []) (suc (length m.local.queue)) m.local b (omega arith),
          quiet_always m.local.queue,
        )
        refl

  pub settled_empty :
      (m : Machine F T)
      → m.local.queue ≡ []
      → ((settled m).tasks ≡ m.tasks) × ((settled m).notified ≡ m.notified)
  unfolding run_tasks
  settled_empty m e = rw e (refl, refl)

  pub settled-local : (m : Machine F T) → (settled m).local ≡ record (m.local) { queue = [] }
  settled-local m =
      run_tasks-local m.local.queue (record m { local = record (m.local) { queue = [] } })

  settled_idle : (m : Machine F T) → is_idle (settled m).local ≡ true
  unfolding is_idle
  settled_idle m = rw (settled-local m) refl

  pub park_notified :
      (outside : List ℕ) (m : Machine F T)
      → m.notified ≡ true
      → park poll_future outside m ≡ some (outside, record m { notified = false })
  unfolding park
  park_notified [] m e = rw e refl
  park_notified (n ∷ ns) m e = rw e refl

  module _ {M A : Type 0} (poll_main : M → Machine F T → Outcome (M × Machine F T × Poll A)) where
    pub block_on_ready :
        (polls : ℕ) (outside : List ℕ) (main main' : M) (m m1 : Machine F T) (a : A)
        → poll_main main m ≡ done (main', m1, ready a)
        → block_on poll_future poll_main (suc polls) outside main m ≡ done (returned a, m1)
    unfolding block_on
    block_on_ready polls outside main main' m m1 a e = rw e refl

    pub block_on_pending :
        (polls : ℕ) (outside : List ℕ) (main main' : M) (m m1 : Machine F T)
        → poll_main main m ≡ done (main', m1, pending)
        → m1.local.borrowed ≡ false
        → block_on poll_future poll_main (suc polls) outside main m
          ≡ elim (park poll_future outside (settled m1)) [
            | none ↦ done (asleep, settled m1)
            | some (left, m3) ↦ block_on poll_future poll_main polls left main' m3
          ]
    unfolding block_on
    block_on_pending polls outside main main' m m1 e b =
        rw e (ap (λ o. bind o resume) (run_until_idle-settles m1 b) ∙ went)
      where
        resume : Machine F T → Outcome (Ended A × Machine F T)
        resume m2 = elim (is_idle m2.local) [
          | true ↦ elim (park poll_future outside m2) [
            | none ↦ done (asleep, m2)
            | some (left, m3) ↦ block_on poll_future poll_main polls left main' m3
          ]
          | false ↦ block_on poll_future poll_main polls outside main' m2
        ]

        went : resume (settled m1) ≡ elim (park poll_future outside (settled m1)) [
          | none ↦ done (asleep, settled m1)
          | some (left, m3) ↦ block_on poll_future poll_main polls left main' m3
        ]
        went = elim_true _ _ (settled_idle m1)
