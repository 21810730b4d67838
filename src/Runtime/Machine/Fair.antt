-- ===== src/Runtime/Machine/Fair.antt =====
-- A worker with many tasks in the injector, and many tasks that are spawned one after the other.
use loony_rs_runtime.Base.{
  update_self, update_other, ℕ, ◌≡◌, ◌≢◌, refl, sym, ap, ◌∙◌, List, [], ◌∷◌, ◌++◌, update,
  replicate, All, length,
}
use mathlib.Core.Path.{subst}
use mathlib.Core.List.{append-nil, append_assoc}
use loony_rs_runtime.Task.Header.{Polled, Header}
use loony_rs_runtime.Task.Raw
use loony_rs_runtime.MultiThread.Deque.{Deque, retry}
use loony_rs_runtime.Runtime.Machine.{Machine, work, rounds}
use loony_rs_runtime.Runtime.Machine.Queued.{Has, wakes, work_runs}

abbrev pub Distinct : List ℕ → Type 0
Distinct [] = Unit
Distinct (n ∷ ns) = All (λ k. n ≢ k) ns × Distinct ns

module _ {F T W : Type 0} (D : Deque ℕ) (poll_future : F → Polled F T) where
  open D use {Queue, steal}

  -- Each of these tasks is as one poll leaves it.
  abbrev pub RanOnce : Machine Queue F T W → Machine Queue F T W → List ℕ → Type 0
  RanOnce m m' ts = All (λ n. m'.tasks n ≡ Raw.poll poll_future 1 (m.tasks n)) ts

  -- Where the two machines agree but for a task that is not among them.
  moved :
      (n : ℕ) (h : Header F T W) (m m1 m' : Machine Queue F T W) (ts : List ℕ)
      → m1.tasks ≡ update m.tasks n h
      → All (λ k. n ≢ k) ts
      → RanOnce m1 m' ts
      → RanOnce m m' ts
  moved n h m m1 m' [] e away once = tt
  moved n h m m1 m' (k ∷ ks) e away once =
      let same = ap (λ (g : ℕ → Header F T W). g k) e ∙ update_other m.tasks n k h away.0 in
      (once.0 ∙ ap (Raw.poll poll_future 1) same, moved n h m m1 m' ks e away.1 once.1)

  -- Each of these tasks as often as its run calls the scheduler.
  abbrev pub woken_by : Machine Queue F T W → List ℕ → List ℕ
  woken_by m [] = []
  woken_by m (n ∷ ns) = replicate (wakes D poll_future (m.tasks n)) n ++ woken_by m ns

  moved_wakes :
      (n : ℕ) (h : Header F T W) (m m1 : Machine Queue F T W) (ts : List ℕ)
      → m1.tasks ≡ update m.tasks n h
      → All (λ k. n ≢ k) ts
      → woken_by m1 ts ≡ woken_by m ts
  moved_wakes n h m m1 [] e away = refl
  moved_wakes n h m m1 (k ∷ ks) e away =
      let same = ap (λ (g : ℕ → Header F T W). g k) e ∙ update_other m.tasks n k h away.0 in
      rw same (
        ap (λ xs. replicate (wakes D poll_future (m.tasks k)) k ++ xs)
          (moved_wakes n h m m1 ks e away.1))

  module _ (prompt : (q : Queue) → (steal q).0 ≢ retry) where
    untouched :
        (n : ℕ) (ts rest : List ℕ) (index : ℕ) (m : Machine Queue F T W)
        → All (λ k. n ≢ k) ts
        → Has D poll_future (ts ++ rest) m
        → (rounds D poll_future (length ts) index m).tasks n ≡ m.tasks n
    unfolding rounds
    untouched n [] rest index m away v = refl
    untouched n (k ∷ ks) rest index m away v =
        let (ran, after) = work_runs D poll_future prompt index k (ks ++ rest) m v in
        let after' =
          subst (λ xs. Has D poll_future xs (work D poll_future index m))
            (append_assoc ks rest (replicate (wakes D poll_future (m.tasks k)) k)) after in
        untouched n ks (rest ++ replicate (wakes D poll_future (m.tasks k)) k) index
          (work D poll_future index m) away.1 after'
        ∙ ap (λ (g : ℕ → Header F T W). g n) ran
        ∙ update_other m.tasks k n (Raw.poll poll_future 1 (m.tasks k)) (λ e. away.0 (sym e))

    -- No steal has to be retried, nothing is shut down, the queues of the workers are empty, and the
    -- injector holds different tasks and others behind them. After as many rounds of a worker as there
    -- are tasks each of them was run once, whatever they and their wakes did, and the injector holds
    -- the others, followed by each of the tasks, in order, as often as its run called the scheduler.
    pub fair_rounds :
        (ts rest : List ℕ) (index : ℕ) (m : Machine Queue F T W)
        → Distinct ts
        → Has D poll_future (ts ++ rest) m
        → let m' = rounds D poll_future (length ts) index m in
          RanOnce m m' ts × Has D poll_future (rest ++ woken_by m ts) m'
    unfolding rounds
    fair_rounds [] rest index m d v = (tt, rw (append-nil rest) v)
    fair_rounds (n ∷ ns) rest index m d v =
        let (ran, after) = work_runs D poll_future prompt index n (ns ++ rest) m v in
        let woken = replicate (wakes D poll_future (m.tasks n)) n in
        let m1 = work D poll_future index m in
        let after' : Has D poll_future (ns ++ (rest ++ woken)) m1 =
          subst (λ xs. Has D poll_future xs m1) (append_assoc ns rest woken) after in
        let (once, left) = fair_rounds ns (rest ++ woken) index m1 d.1 after' in
        let m' = rounds D poll_future (length ns) index m1 in
        let h = Raw.poll poll_future 1 (m.tasks n) in
        (
          (
            untouched n ns (rest ++ woken) index m1 d.0 after'
                ∙ ap (λ (g : ℕ → Header F T W). g n) ran
                ∙ update_self m.tasks n h,
            moved n h m m1 m' ns ran d.0 once,
          ),
          subst (λ xs. Has D poll_future xs m')
              (append_assoc rest woken (woken_by m1 ns)
                ∙ ap (λ xs. rest ++ (woken ++ xs)) (moved_wakes n h m m1 ns ran d.0))
              left,
        )
