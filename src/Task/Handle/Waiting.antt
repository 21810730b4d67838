-- ===== src/Task/Handle/Waiting.antt =====
-- A poll of a task of src/task/mod.rs that hands its waker out, and the wake that runs it again.
use loony_rs_runtime.Base.{ℕ, suc, ◌%◌, ◌≡◌, ◌≢◌, ap, ◌∙◌, arith, true, Option, some, [], ◌∷◌}
use loony_rs_runtime.Task.Header.{ready, pending, Polled, Header, woke}
use loony_rs_runtime.Task.Raw.{calls}
use loony_rs_runtime.Task.Handle.{poll_task, finish_task}
use loony_rs_runtime.Task.Raw.Keeps.{
  Keeps, Keeps-trans, wokes, wokes-append, silent, drop_waker-Keeps, silent-Keeps, busy-Keeps,
}

module _ {F T W : Type 0} where
  finish_ready-wokes :
      (w : W) (t : T) (h : Header F (Option T) W)
      → h.join_waker ≡ some w
      → wokes (finish_task h (ready t)).events ≡ suc (wokes h.events)
  unfolding finish_task
  finish_ready-wokes w t h e = rw e (wokes-append h.events (woke w ∷ []) ∙ omega arith)

module _ {F T W : Type 0} (poll_future : F → Polled F T) where
  -- A poll that is pending and wakes nothing changes the future and the count.
  pub waiting-Keeps :
      (fuel : ℕ) (h : Header F (Option T) W)
      → (poll_future h.future).result ≡ pending
      → silent (poll_future h.future).calls ≡ true
      → Keeps
          (record h { future = (poll_future h.future).next })
          (poll_task poll_future (suc fuel) h)
  unfolding poll_task finish_task
  waiting-Keeps fuel h waits s =
      let p = poll_future h.future in
      let h1 = record h { future = p.next } in
      let u = silent-Keeps (poll_task poll_future fuel) p.calls h1 s in
      rw waits (Keeps-trans u (drop_waker-Keeps (calls (poll_task poll_future fuel) p.calls h1)))

  -- The same of a task that is not idle, whatever the future does with the waker.
  pub busy_waiting-Keeps :
      (fuel : ℕ) (h : Header F (Option T) W)
      → (poll_future h.future).result ≡ pending
      → h.state % 4 ≢ 0
      → Keeps
          (record h { future = (poll_future h.future).next })
          (poll_task poll_future (suc fuel) h)
  unfolding poll_task finish_task
  busy_waiting-Keeps fuel h waits s =
      let p = poll_future h.future in
      let h1 = record h { future = p.next } in
      let u = busy-Keeps (poll_task poll_future fuel) p.calls h1 s in
      rw waits (Keeps-trans u (drop_waker-Keeps (calls (poll_task poll_future fuel) p.calls h1)))

  -- A poll of a task that is not idle, at which the future is ready, wakes the handle's waker once.
  pub busy_ready-wokes :
      (fuel : ℕ) (w : W) (t : T) (h : Header F (Option T) W)
      → (poll_future h.future).result ≡ ready t
      → h.state % 4 ≢ 0
      → h.join_waker ≡ some w
      → wokes (poll_task poll_future (suc fuel) h).events ≡ suc (wokes h.events)
  unfolding poll_task finish_task
  busy_ready-wokes fuel w t h r s e =
      let p = poll_future h.future in
      let h1 = record h { future = p.next } in
      let g = calls (poll_task poll_future fuel) p.calls h1 in
      let u = busy-Keeps (poll_task poll_future fuel) p.calls h1 s in
      let finished = finish_task g (ready t) in
      let v = drop_waker-Keeps finished in
      rw r (v.same_wokes ∙ finish_ready-wokes w t g (u.same_join_waker ∙ e) ∙ ap suc u.same_wokes)
