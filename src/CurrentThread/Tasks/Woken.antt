-- ===== src/CurrentThread/Tasks/Woken.antt =====
-- The wake by another thread of a task that a future of `block_on` awaits on its own thread.
use loony_rs_runtime.Base.{
  update_self, ℕ, zero, suc, ◌+◌, ◌%◌, ◌≡◌, ◌≢◌, refl, ◌∙◌, arith, true, false, none, List, [], ◌∷◌,
  ◌++◌, All, replicate,
}
use loony_rs_runtime.Task.Header.{ready, pending, Polled, Event, frees_inside, U32}
use loony_rs_runtime.Task.Wake
use loony_rs_runtime.Task.Handle.{ok, poll, poll_task}
use loony_rs_runtime.Task.Handle.Laws.{run_then_poll}
use loony_rs_runtime.Task.Handle.Waiting.{busy_waiting-Keeps, busy_ready-wokes}
use loony_rs_runtime.Task.Raw.Keeps.{silent, absorbed_wake, wake_runs}
use loony_rs_runtime.CurrentThread.{done}
use loony_rs_runtime.CurrentThread.Tasks.{
  Machine, MainWaker, main_waker, returned, asleep, start, poll_main, visit, wake_task, park,
  block_on,
}
use loony_rs_runtime.CurrentThread.Tasks.Rounds.{park_notified}
use loony_rs_runtime.CurrentThread.Tasks.Waits.{Waiting, waits_first}
use loony_rs_runtime.CurrentThread.Tasks.Joined.{joined, last_round, last_frees}

module _ {F T : Type 0} (poll_future : F → Polled F T) (n : ℕ) where
  -- What the wake of the task comes to.
  woken :
      (f : F) (m : Machine F T)
      → Waiting poll_future n f m
      → let h = m.tasks n in
        Wake.wake_by_ref (poll_task poll_future 2) h
        ≡ poll_task poll_future 2 (record h { state = h.state + 1 })
  woken f m v = wake_runs (poll_task poll_future 2) (m.tasks n) v.own v.idle

  wake_finishes :
      (f : F) (t : T) (m : Machine F T)
      → Waiting poll_future n f m
      → (poll_future f).result ≡ ready t
      → let m' = wake_task poll_future n m in
        (m'.notified ≡ true) × ((poll main_waker (m'.tasks n)).0 ≡ ready (ok t))
  unfolding wake_task visit
  wake_finishes f t m v r =
      let h = m.tasks n in
      let marked = record h { state = h.state + 1 } in
      let done_now : (poll_future marked.future).result ≡ ready t = rw v.waits_with r in
      let count =
        busy_ready-wokes poll_future 1 main_waker t marked done_now (omega (arith, v.idle))
          v.for_main in
      (
        rw (v.quiet, woken f m v, count) (ground arith),
        rw (update_self m.tasks n (Wake.wake_by_ref (poll_task poll_future 2) h), woken f m v)
            (run_then_poll poll_future 1 main_waker t marked done_now),
      )

  wake_waits :
      (f : F) (m : Machine F T)
      → Waiting poll_future n f m
      → (poll_future f).result ≡ pending
      → let m' = wake_task poll_future n m in (m'.notified ≡ false) × ((m'.tasks n).state % 4 ≡ 1)
  unfolding wake_task visit
  wake_waits f m v r =
      let h = m.tasks n in
      let marked = record h { state = h.state + 1 } in
      let waits_on : (poll_future marked.future).result ≡ pending = rw v.waits_with r in
      let u = busy_waiting-Keeps poll_future 1 marked waits_on (omega (arith, v.idle)) in
      (
        rw (v.quiet, woken f m v, u.same_wokes) (ground arith),
        rw (update_self m.tasks n (Wake.wake_by_ref (poll_task poll_future 2) h), woken f m v)
            (omega (arith, u.low, v.idle)),
      )

  -- Once it was woken, a task that is pending sleeps through all further wakes.
  sleeps_on :
      (k : ℕ) (m : Machine F T)
      → m.notified ≡ false
      → (m.tasks n).state % 4 ≡ 1
      → park poll_future (replicate k n) m ≡ none
  unfolding park wake_task visit
  sleeps_on zero m q s = rw q refl
  sleeps_on (suc k) m q s =
      let h = m.tasks n in
      let same = absorbed_wake (poll_task poll_future 2) h (omega (arith, s)) in
      rw q (
        sleeps_on k (wake_task poll_future n m) (rw (q, same) (ground arith))
          (rw (update_self m.tasks n (Wake.wake_by_ref (poll_task poll_future 2) h), same) s))

  park-Waiting :
      (wakes : ℕ) (f : F) (m : Machine F T)
      → Waiting poll_future n f m
      → (poll_future f).result ≡ pending
      → park poll_future (replicate wakes n) m ≡ none
  unfolding park
  park-Waiting zero f m v r = rw v.quiet refl
  park-Waiting (suc k) f m v r =
      let (quiet, marked) = wake_waits f m v r in
      rw v.quiet (sleeps_on k (wake_task poll_future n m) quiet marked)

  -- The queue is not borrowed and `PARKER` is set. The future of `block_on` spawns a task that is not in
  -- the queue yet and awaits it; the task's future is pending at its first poll, at which it wakes
  -- nothing, and at the second. The thread then sleeps at its second park, and it sleeps on however
  -- often other threads wake the task, if nothing else unparks it.
  pub waits_twice_sleeps :
      (polls wakes : ℕ) (f : F) (m : Machine F T)
      → m.local.borrowed ≡ false
      → m.local.parker ≡ true
      → All (λ k. k ≢ n) m.local.queue
      → (poll_future f).result ≡ pending
      → silent (poll_future f).calls ≡ true
      → (poll_future (poll_future f).next).result ≡ pending
      → (m' : Machine F T) × (block_on poll_future
            (poll_main n)
            (suc (suc polls))
            (replicate wakes n)
            (start f)
            m
          ≡ done (asleep, m'))
  waits_twice_sleeps polls wakes f m b p fresh r s r' =
      let (m1, v, went) = waits_first poll_future n polls (replicate wakes n) f m b p fresh r s in
      (m1, went ∙ rw (park-Waiting wakes (poll_future f).next m1 v r') refl)

module _ {F : Type 0} (poll_future : F → Polled F U32) (n : ℕ) where
  -- The queue is not borrowed and `PARKER` is set. The future of `block_on` spawns a task that is not in
  -- the queue yet and awaits it; the task's future is pending at its first poll, at which it wakes
  -- nothing, and ready with a `u32` at the second, and another thread wakes the task while this one
  -- sleeps. `block_on` then gets to the output at its third poll, and it gets there only past an
  -- undefined free: the last thing done to the task is the drop of a `Box` made of an address inside
  -- its header.
  pub waits_once_frees :
      (polls : ℕ) (outside : List ℕ) (f : F) (t : U32) (m : Machine F U32)
      → m.local.borrowed ≡ false
      → m.local.parker ≡ true
      → All (λ k. k ≢ n) m.local.queue
      → (poll_future f).result ≡ pending
      → silent (poll_future f).calls ≡ true
      → (poll_future (poll_future f).next).result ≡ ready t
      → (m' : Machine F U32) × (block_on poll_future
            (poll_main n)
            (suc (suc (suc polls)))
            (n ∷ outside)
            (start f)
            m
          ≡ done (returned (ok t), m'))
        × (es : List (Event MainWaker)) × ((m'.tasks n).events ≡ es ++ frees_inside ∷ [])
  unfolding park
  waits_once_frees polls outside f t m b p fresh r s r' =
      let (m1, v, went) = waits_first poll_future n (suc polls) (n ∷ outside) f m b p fresh r s in
      let (notified, answer) = wake_finishes poll_future n (poll_future f).next t m1 v r' in
      let m2 = record (wake_task poll_future n m1) { notified = false } in
      (
        joined n m2,
        went
            ∙ rw (v.quiet, park_notified poll_future outside (wake_task poll_future n m1) notified)
                (last_round n poll_future polls outside (ok t) m2 answer),
        (m2.tasks n).events,
        last_frees n poll_future m2 t answer,
      )
