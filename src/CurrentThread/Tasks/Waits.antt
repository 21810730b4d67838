-- ===== src/CurrentThread/Tasks/Waits.antt =====
-- A future of `block_on` that awaits a task of its own thread, which waits for a wake by another
-- thread.
use loony_rs_runtime.Base.{
  update_self, ℕ, suc, ◌%◌, ◌≡◌, ◌≢◌, refl, ap, ◌∙◌, arith, true, false, Option, none, some, List,
  [], All,
}
use loony_rs_runtime.Task.Header.{pending, Polled, Header}
use loony_rs_runtime.Task.Handle.{poll, create_task, poll_task}
use loony_rs_runtime.Task.Handle.Laws.{reads_bit_zero}
use loony_rs_runtime.Task.Handle.Waiting.{waiting-Keeps}
use loony_rs_runtime.Task.Raw.Keeps.{silent}
use loony_rs_runtime.CurrentThread.{done}
use loony_rs_runtime.CurrentThread.Tasks.{
  Machine, MainWaker, main_waker, asleep, start, join, poll_main, park, block_on,
}
use loony_rs_runtime.CurrentThread.Tasks.Rounds.{
  settled, settled_empty, settled-local, block_on_pending,
}
use loony_rs_runtime.CurrentThread.Tasks.Joined.{
  awaited, spawned, joined, later_poll, after_first, after_first-task, first_round,
}

module _ {F T : Type 0} (poll_future : F → Polled F T) (n : ℕ) where
  -- The task waits with this future and for the thread of `block_on`, which knows of no wake.
  pub record Waiting (f : F) (m : Machine F T) : Type 0 where
    pub no_tasks : m.local.queue ≡ []
    pub free : m.local.borrowed ≡ false
    pub quiet : m.notified ≡ false
    pub idle : (m.tasks n).state % 8 ≡ 0
    pub own : (m.tasks n).scheduler ≡ false
    pub waits_with : (m.tasks n).future ≡ f
    pub for_main : (m.tasks n).join_waker ≡ some main_waker

  -- The task after its first run, at which it is pending.
  first_wait :
      (f : F)
      → (poll_future f).result ≡ pending
      → silent (poll_future f).calls ≡ true
      → let g = poll_task poll_future 2 (awaited {T = T} f) in
        (g.state % 8 ≡ 0)
        × (g.scheduler ≡ false)
        × (g.future ≡ (poll_future f).next)
        × (poll main_waker g ≡ (pending, record g { join_waker = some main_waker }))
  unfolding create_task
  first_wait f r s =
      let g = poll_task poll_future 2 (awaited {T = T} f) in
      let u = waiting-Keeps poll_future 1 (awaited f) r s in
      (
        omega (arith, u.low),
        u.same_scheduler,
        u.same_future,
        ground (arith, u.low, reads_bit_zero main_waker g),
      )

  -- The future of `block_on` is polled, and its task is pending at its first poll: the thread comes
  -- to a park at which the task waits.
  pub waits_first :
      (polls : ℕ) (outside : List ℕ) (f : F) (m : Machine F T)
      → m.local.borrowed ≡ false
      → m.local.parker ≡ true
      → All (λ k. k ≢ n) m.local.queue
      → (poll_future f).result ≡ pending
      → silent (poll_future f).calls ≡ true
      → (m' : Machine F T) × Waiting (poll_future f).next m'
        × (block_on poll_future (poll_main n) (suc (suc polls)) outside (start f) m
            ≡ elim (park poll_future outside m') [
              | none ↦ done (asleep, m')
              | some (left, m3) ↦ block_on poll_future (poll_main n) polls left join m3
            ])
  waits_first polls outside f m b p fresh r s =
      let m3 = after_first n poll_future f m in
      let m4 = joined n m3 in
      let ran = after_first-task n poll_future f m fresh in
      let (idle, own, waits, asks) = first_wait f r s in
      let local = settled-local poll_future (spawned n f m) in
      let nothing_new : m4.local.queue ≡ [] = ap (λ l. l.queue) local in
      let free : m4.local.borrowed ≡ false = ap (λ l. l.borrowed) local ∙ b in
      let (tasks, notified) = settled_empty poll_future m4 nothing_new in
      let local' = settled-local poll_future m4 in
      let task : (settled poll_future m4).tasks n
          ≡ record (poll_task poll_future 2 (awaited f)) { join_waker = some main_waker } =
        ap (λ (g : ℕ → Header F (Option T) MainWaker). g n) tasks
        ∙ update_self m3.tasks n (poll main_waker (m3.tasks n)).1
        ∙ ap (λ h. (poll main_waker h).1) ran
        ∙ ap (λ r. r.1) asks in
      (
        settled poll_future m4,
        record {
          no_tasks = ap (λ l. l.queue) local';
          free = ap (λ l. l.borrowed) local' ∙ free;
          quiet = notified;
          idle = rw task idle;
          own = rw task own;
          waits_with = rw task waits;
          for_main = rw task refl;
        },
        first_round n poll_future (suc polls) outside f m b p
            ∙ block_on_pending poll_future (poll_main n) polls outside join join m3 m4
                (later_poll n m3 pending (ap (λ h. (poll main_waker h).0) ran ∙ ap (λ r. r.0) asks))
                free,
      )
