-- ===== src/Runtime/Machine/Awaited.antt =====
-- A thread in `MultiThread::block_on` that awaits the join handle of a task, and helps: it runs the tasks
-- that it steals. The workers take no task meanwhile.
use loony_rs_runtime.Base.{
  update_self, ℕ, zero, suc, ◌≡◌, ◌≢◌, refl, ap, ◌∙◌, arith, inl, inr, Option-cases, none, some, [],
  ◌∷◌, update,
}
use loony_rs_runtime.Task.State.{with_refcount}
use loony_rs_runtime.Task.Header.{ready, pending, Polled, Header}
use loony_rs_runtime.Task.Raw
use loony_rs_runtime.Task.Join.{Joined, ok}
use loony_rs_runtime.Task.Join
use loony_rs_runtime.Task.Join.Laws.{join_answers}
use loony_rs_runtime.MultiThread.Deque.{Deque, retry}
use loony_rs_runtime.MultiThread.Shared.{Shared}
use loony_rs_runtime.MultiThread.Steal.{steal_first, steal_work}
use loony_rs_runtime.MultiThread.Steal.Conserve.{one, steal_first-total}
use loony_rs_runtime.Runtime.Machine.{Machine, spawn, run_task}
use loony_rs_runtime.Runtime.Machine.Rounds.{Holds, steal_oldest}
use loony_rs_runtime.Runtime.Machine.Queued.{spawned_task, spawned-Has}

-- The new task once its handle was polled.
abbrev pub registered : {F T W : Type 0} → W → F → Header F T W
registered w f = record (Raw.create_raw_task f) { state = 65544; join_waker = some w }

-- How the call ends: `overflows` is a poll of the join handle that calls itself without end, `parks` the
-- park of the thread, whose end is no part of this.
pub data Ended (A : Type 0) : Type 0 where
  returned : A → Ended A
  overflows parks unfinished : Ended A

module _ (D : Deque ℕ) where
  open D use {Queue, steal}

  steals_task :
      (prompt : (q : Queue) → (steal q).0 ≢ retry) (n : ℕ) (own : Queue) (s : Shared Queue)
      → Holds D (n ∷ []) own s
      → (steal_work D s).0 ≡ some n
  unfolding steal_work
  steals_task prompt n own s v =
      let loads = steal_first-total D (one D) s.stealers in
      let (found, rest) = steal_oldest D prompt s.injector n [] v.in_queue in
      elim (Option-cases (steal_first D s.stealers).0) [
        | inl e ↦ ground (arith, e, found)
        | inr (t, e) ↦ absurd (ground (arith, loads, v.others_empty))
      ]

module _ {F T W : Type 0} (D : Deque ℕ) (poll_future : F → Polled F T) where
  open D use {Queue, view, steal, len}

  -- `MultiThread::block_on` of the handle of the task `n`, for so many polls of the handle, each with
  -- fuel for its calls of itself. `w` is the waker of the thread.
  unfoldable pub block_on_handle : ℕ → ℕ → ℕ → W → Machine Queue F T W → Ended (Joined T)
  block_on_handle zero fuel n w m = unfinished
  block_on_handle (suc polls) fuel n w m = elim (Join.poll fuel w (m.tasks n)) [
    | none ↦ overflows
    | some (ready answer, h) ↦ returned answer
    | some (pending, h) ↦
        let (found, s) = steal_work D m.shared in
        let m' = record m { shared = s; tasks = update m.tasks n h } in
        elim found [
          | some t ↦ block_on_handle polls fuel n w (run_task D poll_future t m')
          | none ↦ elim (len s.injector) [
            | zero ↦ parks
            | suc _ ↦ block_on_handle polls fuel n w m'
          ]
        ]
  ]

  pub first_answer :
      (fuel : ℕ) (w : W) (f : F)
      → Join.poll {T = T} (suc fuel) w (Raw.create_raw_task f) ≡ some (pending, registered w f)
  unfolding Raw.create_raw_task with_refcount
  first_answer fuel w f = ground (arith, join_answers fuel w (Raw.create_raw_task {T = T} f))

  run_task_lem :
      (n : ℕ) (m : Machine Queue F T W)
      → (run_task D poll_future n m).tasks n ≡ Raw.poll poll_future 1 (m.tasks n)
  unfolding run_task
  run_task_lem n m = update_self m.tasks n (Raw.poll poll_future 1 (m.tasks n))

  -- The machine once the thread has registered with the task and taken one.
  abbrev helping : ℕ → Header F T W → Machine Queue F T W → Machine Queue F T W
  helping n h m = record m { shared = (steal_work D m.shared).1; tasks = update m.tasks n h }

  helps :
      (polls fuel n : ℕ) (w : W) (m : Machine Queue F T W) (h : Header F T W)
      → Join.poll fuel w (m.tasks n) ≡ some (pending, h)
      → (steal_work D m.shared).0 ≡ some n
      → block_on_handle (suc polls) fuel n w m
        ≡ block_on_handle polls fuel n w (run_task D poll_future n (helping n h m))
  unfolding block_on_handle
  helps polls fuel n w m h asked stolen = rw (block_on_handle, asked, stolen) refl

  module _ (prompt : (q : Queue) → (steal q).0 ≢ retry) where
    -- The first poll of the handle finds the task idle; then the thread runs the task itself.
    pub helps_once :
        (polls fuel n : ℕ) (f : F) (w : W) (m : Machine Queue F T W)
        → Holds D [] m.own m.shared
        → (m' : Machine Queue F T W) × (m'.tasks n ≡ Raw.poll poll_future 1 (registered w f))
          × (block_on_handle (suc polls) (suc fuel) n w (spawn D n f m)
              ≡ block_on_handle polls (suc fuel) n w m')
    helps_once polls fuel n f w m v =
        let start = spawn D n f m in
        let asked : Join.poll (suc fuel) w (start.tasks n) ≡ some (pending, registered w f) =
          rw (spawned_task D poll_future n f m) (first_answer fuel w f) in
        let stolen =
          steals_task D prompt n start.own start.shared (spawned-Has D poll_future n f [] m v) in
        let m' = helping n (registered w f) start in
        (
          run_task D poll_future n m',
          run_task_lem n m'
              ∙ ap (Raw.poll poll_future 1) (update_self start.tasks n (registered w f)),
          helps polls (suc fuel) n w start (registered w f) asked stolen,
        )
