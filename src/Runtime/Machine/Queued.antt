-- ===== src/Runtime/Machine/Queued.antt =====
-- The queue of the injector while tasks are spawned, run and woken.
use loony_rs_runtime.Base.{
  update_self, ℕ, zero, suc, ◌-◌, ◌≡◌, ◌≢◌, refl, ap, ◌∙◌, List, [], ◌∷◌, ◌++◌, update, replicate,
}
use mathlib.Core.Path.{subst, subst⁻¹}
use mathlib.Core.List.{append-nil, append_assoc}
use loony_rs_runtime.Task.Header.{Polled, Header}
use loony_rs_runtime.Task.Raw
use loony_rs_runtime.Task.Raw.Once.{schedules}
use loony_rs_runtime.MultiThread.Deque.{Deque, retry}
use loony_rs_runtime.MultiThread.Shared.{Shared, spawn_task}
use loony_rs_runtime.MultiThread.Shared.Notify.{notify_worker-keeps}
use loony_rs_runtime.MultiThread.Worker.{round}
use loony_rs_runtime.Runtime.Machine.{
  schedule_here_lem, Machine, spawn, reschedule, run_task, conclude, work,
}
use loony_rs_runtime.Runtime.Machine.Rounds.{Holds, round-runs}

module _ (D : Deque ℕ) where
  open D use {Queue, view, push, view-push}

  pub push-Holds :
      (n : ℕ) (ts : List ℕ) (own : Queue) (s : Shared Queue)
      → Holds D ts own s
      → Holds D (ts ++ n ∷ []) own (spawn_task D n s)
  unfolding spawn_task
  push-Holds n ts own s v =
      let pushed : Shared Queue = record s { injector = push n s.injector } in
      let (same, queues, flag) = notify_worker-keeps pushed in
      record {
        own_empty = v.own_empty;
        others_empty = rw queues v.others_empty;
        in_queue = rw same (view-push n s.injector ∙ ap (λ xs. xs ++ n ∷ []) v.in_queue);
        open_still = flag ∙ v.open_still;
      }

  replicate-last : (k n : ℕ) → replicate k n ++ n ∷ [] ≡ n ∷ replicate k n
  replicate-last zero n = refl
  replicate-last (suc k) n = ap (λ xs. n ∷ xs) (replicate-last k n)

  -- The wakes of a run put the task at the end of the injector, so often.
  pub reschedule-Holds :
      (k n : ℕ) (ts : List ℕ) (own : Queue) (s : Shared Queue)
      → Holds D ts own s
      → Holds D (ts ++ replicate k n) own (reschedule D k n s)
  unfolding reschedule
  reschedule-Holds zero n ts own s v = rw (append-nil ts) v
  reschedule-Holds (suc k) n ts own s v =
      subst (λ xs. Holds D xs own (reschedule D (suc k) n s))
        (append_assoc ts (replicate k n) (n ∷ []) ∙ ap (λ xs. ts ++ xs) (replicate-last k n))
        (rw (schedule_here_lem D n (reschedule D k n s)) (
          push-Holds n (ts ++ replicate k n) own (reschedule D k n s)
            (reschedule-Holds k n ts own s v)))

module _ {F T W : Type 0} (D : Deque ℕ) (poll_future : F → Polled F T) where
  open D use {Queue, steal}

  abbrev pub Has : List ℕ → Machine Queue F T W → Type 0
  Has ts m = Holds D ts m.own m.shared

  -- The calls of the scheduler in a run of the task.
  abbrev pub wakes : Header F T W → ℕ
  wakes h = schedules (Raw.poll poll_future 1 h).events - schedules h.events

  -- A new task is pushed behind those that wait.
  pub spawned-Has :
      (n : ℕ) (f : F) (ts : List ℕ) (m : Machine Queue F T W)
      → Has ts m
      → Has (ts ++ n ∷ []) (spawn D n f m)
  unfolding spawn
  spawned-Has n f ts m v = push-Holds D n ts m.own m.shared v

  pub spawned_task :
      (n : ℕ) (f : F) (m : Machine Queue F T W) → (spawn D n f m).tasks n ≡ Raw.create_raw_task f
  unfolding spawn
  spawned_task n f m = update_self m.tasks n (Raw.create_raw_task f)

  -- A round runs the first task, once, and puts it behind the others for each of its wakes.
  pub work_runs :
      (prompt : (q : Queue) → (steal q).0 ≢ retry) (index n : ℕ) (ts : List ℕ)
      (m : Machine Queue F T W)
      → Has (n ∷ ts) m
      → let m' = work D poll_future index m in
        (m'.tasks ≡ update m.tasks n (Raw.poll poll_future 1 (m.tasks n)))
        × Has (ts ++ replicate (wakes (m.tasks n)) n) m'
  unfolding work conclude run_task
  work_runs prompt index n ts m v =
      let (r, own, s) = round D index [] m.own m.shared in
      let (ran, after) = round-runs D prompt index n ts m.own m.shared v in
      let m' : Machine Queue F T W = record m { shared = s; own = own } in
      let went : work D poll_future index m ≡ run_task D poll_future n m' =
        ap (λ x. conclude D poll_future x m') ran in
      subst⁻¹
        (λ (x : Machine Queue F T W).
          (x.tasks ≡ update m.tasks n (Raw.poll poll_future 1 (m.tasks n)))
          × Has (ts ++ replicate (wakes (m.tasks n)) n) x)
        went (refl, reschedule-Holds D (wakes (m.tasks n)) n ts own s after)

  pub runs_first :
      (prompt : (q : Queue) → (steal q).0 ≢ retry) (index n : ℕ) (ts : List ℕ)
      (m : Machine Queue F T W)
      → Has (n ∷ ts) m
      → let m' = work D poll_future index m in
        (m'.tasks n ≡ Raw.poll poll_future 1 (m.tasks n))
        × Has (ts ++ replicate (wakes (m.tasks n)) n) m'
  runs_first prompt index n ts m v =
      let (ran, after) = work_runs prompt index n ts m v in
      (
        ap (λ (g : ℕ → Header F T W). g n) ran
            ∙ update_self m.tasks n (Raw.poll poll_future 1 (m.tasks n)),
        after,
      )
