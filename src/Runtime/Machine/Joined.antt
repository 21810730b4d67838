-- ===== src/Runtime/Machine/Joined.antt =====
-- A spawned task, from its push to the answer of its join handle.
use loony_rs_runtime.Base.{
  ℕ, zero, suc, ◌≤◌, ◌≡◌, ◌≢◌, refl, ap, ◌∙◌, arith, some, [], ◌∷◌, replicate,
}
use mathlib.Core.Path.{subst, subst⁻¹}
use loony_rs_runtime.Task.Header.{Polled, Header, ready, value}
use loony_rs_runtime.Task.Raw
use loony_rs_runtime.Task.Raw.Once.{schedules, scheduled_once}
use loony_rs_runtime.Task.Raw.Ops.{run, step, steps}
use loony_rs_runtime.Task.Join.{ok}
use loony_rs_runtime.Task.Join
use loony_rs_runtime.Task.Join.Round.{run_then_join}
use loony_rs_runtime.MultiThread.Deque.{Deque, retry}
use loony_rs_runtime.MultiThread.Worker.{round}
use loony_rs_runtime.Runtime.Machine.{Machine, spawn, conclude, work, rounds}
use loony_rs_runtime.Runtime.Machine.Rounds.{Holds, round_sleeps}
use loony_rs_runtime.Runtime.Machine.Queued.{spawned_task, Has, wakes, spawned-Has, runs_first}

module _ {F T W : Type 0} (D : Deque ℕ) (poll_future : F → Polled F T) where
  open D use {Queue, steal}

  module _ (prompt : (q : Queue) → (steal q).0 ≢ retry) where
    -- One that runs none.
    work_sleeps :
        (index : ℕ) (m : Machine Queue F T W)
        → Has D poll_future [] m
        → let m' = work D poll_future index m in (m'.tasks ≡ m.tasks) × Has D poll_future [] m'
    unfolding work conclude
    work_sleeps index m v =
        let (r, own, s) = round D index [] m.own m.shared in
        let (slept, after) = round_sleeps D prompt index m.own m.shared v in
        let m' : Machine Queue F T W = record m { shared = s; own = own } in
        let went : work D poll_future index m ≡ m' = ap (λ x. conclude D poll_future x m') slept in
        subst⁻¹ (λ (x : Machine Queue F T W). (x.tasks ≡ m.tasks) × Has D poll_future [] x) went
          (refl, after)

    rounds_asleep :
        (k index : ℕ) (m : Machine Queue F T W)
        → Has D poll_future [] m
        → (rounds D poll_future k index m).tasks ≡ m.tasks
    unfolding rounds
    rounds_asleep zero index m v = refl
    rounds_asleep (suc k) index m v =
        let (same, after) = work_sleeps index m v in
        rounds_asleep k index (work D poll_future index m) after ∙ same

    -- The rounds after the first, by what the first has called.
    later_rounds :
        (d k index n : ℕ) (m : Machine Queue F T W)
        → d ≤ 1
        → Has D poll_future (replicate d n) m
        → schedules (m.tasks n).events ≡ d
        → schedules (Raw.poll poll_future 1 (m.tasks n)).events ≤ 1
        → (rounds D poll_future (suc k) index m).tasks n
          ≡ elim d [ zero ↦ m.tasks n | suc _ ↦ Raw.poll poll_future 1 (m.tasks n) ]
    unfolding rounds
    later_rounds zero k index n m at_most v e few =
        ap (λ (g : ℕ → Header F T W). g n) (rounds_asleep (suc k) index m v)
    later_rounds (suc (suc d)) k index n m at_most v e few = absurd (omega arith)
    later_rounds (suc zero) k index n m at_most v e few =
        let none_more : wakes D poll_future (m.tasks n) ≡ 0 = omega (arith, e, few) in
        let (ran, after) = runs_first D poll_future prompt index n [] m v in
        let idle =
          subst (λ x. Has D poll_future (replicate x n) (work D poll_future index m)) none_more
            after in
        ap (λ (g : ℕ → Header F T W). g n) (rounds_asleep k index (work D poll_future index m) idle)
        ∙ ran

    -- A task is spawned where nothing else is queued, no steal has to be retried and nothing is shut down,
    -- and a worker takes two rounds or more. The task is run once, and a second time exactly if the first
    -- run called the scheduler; nothing runs it a third time, whatever its future did.
    pub spawned_polls :
        (k index n : ℕ) (f : F) (m : Machine Queue F T W)
        → Holds D [] m.own m.shared
        → let h : Header F T W = Raw.poll poll_future 1 (Raw.create_raw_task f) in
          (rounds D poll_future (suc (suc k)) index (spawn D n f m)).tasks n
          ≡ elim (schedules h.events) [ zero ↦ h | suc _ ↦ Raw.poll poll_future 1 h ]
    unfolding rounds Raw.create_raw_task steps step
    spawned_polls k index n f m v =
        let start = spawn D n f m in
        let fresh : Header F T W = Raw.create_raw_task f in
        let h = Raw.poll poll_future 1 fresh in
        let once : schedules h.events ≤ 1 = (scheduled_once poll_future f (run ∷ [])).0 in
        let twice : schedules (Raw.poll poll_future 1 h).events ≤ 1 =
          (scheduled_once poll_future f (run ∷ run ∷ [])).0 in
        let made = spawned_task D poll_future n f m in
        let called : wakes D poll_future (start.tasks n) ≡ schedules h.events =
          ap (wakes D poll_future) made ∙ omega arith in
        let (ran, after) =
          runs_first D poll_future prompt index n [] start (spawned-Has D poll_future n f [] m v) in
        let polled = ran ∙ ap (Raw.poll poll_future 1) made in
        later_rounds (schedules h.events) k index n (work D poll_future index start) once
          (subst (λ d. Has D poll_future (replicate d n) (work D poll_future index start)) called
            after)
          (ap (λ (x : Header F T W). schedules x.events) polled) (rw polled twice)
        ∙ ap
            (λ (x : Header F T W). elim (schedules h.events) as (λ _. Header F T W) [
              | zero ↦ x
              | suc _ ↦ Raw.poll poll_future 1 x
            ])
            polled

    -- A task is spawned where nothing else is queued, no steal has to be retried and nothing is shut down,
    -- and its future is ready at its first poll: after a round of a worker its join handle answers with
    -- the output.
    pub spawned_joins :
        (index n fuel : ℕ) (f : F) (t : T) (w : W) (m : Machine Queue F T W)
        → Holds D [] m.own m.shared
        → (poll_future f).result ≡ ready t
        → let h = (work D poll_future index (spawn D n f m)).tasks n in
          Join.poll (suc fuel) w h ≡ some (ready (ok (value t)), h)
    spawned_joins index n fuel f t w m v r =
        let start = spawn D n f m in
        let made = spawned_task D poll_future n f m in
        let polled =
          (runs_first D poll_future prompt index n [] start
            (spawned-Has D poll_future n f [] m v)).0
          ∙ ap (Raw.poll poll_future 1) made in
        rw polled (run_then_join poll_future fuel f t w r)
