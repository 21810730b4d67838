-- ===== src/MultiThread/Shared/Reads.antt =====
-- What `Shared` says of itself: `active_workers`, `is_shutdown` and `global_queue_len`.
use loony_rs_runtime.Base.{
  ℕ, suc, ◌+◌, ◌≡◌, refl, sym, ap, ◌∙◌, arith, Bool, true, List, [], ◌∷◌, ◌++◌, length,
}
use loony_rs_runtime.MultiThread.Deque.{Deque}
use loony_rs_runtime.MultiThread.Shared.{Shared, spawn_task, shutdown_workers, notify_all_workers}
use loony_rs_runtime.MultiThread.Shared.Notify.{notify_worker-keeps}

module _ {Task : Type 0} (D : Deque Task) where
  open D use {Queue, view, len, push, view-push, len-view, view-new, new}

  unfoldable pub active_workers : Shared Queue → ℕ
  active_workers s = s.active

  unfoldable pub is_shutdown : Shared Queue → Bool
  is_shutdown s = s.shutdown

  unfoldable pub global_queue_len : Shared Queue → ℕ
  global_queue_len s = len s.injector

  unfoldable pub spawn_all : List Task → Shared Queue → Shared Queue
  unfolding spawn_task
  spawn_all [] s = s
  spawn_all (t ∷ ts) s = spawn_all ts (spawn_task D t s)

  length-snoc : (ts : List Task) (t : Task) → length (ts ++ t ∷ []) ≡ suc (length ts)
  length-snoc [] t = refl
  length-snoc (u ∷ us) t = ap suc (length-snoc us t)

  spawn_task-reads :
      (t : Task) (s : Shared Queue)
      → (global_queue_len (spawn_task D t s) ≡ suc (global_queue_len s))
        × (is_shutdown (spawn_task D t s) ≡ is_shutdown s)
  unfolding spawn_task global_queue_len is_shutdown
  spawn_task-reads t s =
      let (pushed, _, flag) = notify_worker-keeps (record s { injector = push t s.injector }) in
      (
        ap len pushed
            ∙ len-view (push t s.injector)
            ∙ ap length (view-push t s.injector)
            ∙ length-snoc (view s.injector) t
            ∙ ap suc (sym (len-view s.injector)),
        flag,
      )

  -- Before a worker starts, the queue of the runtime is as long as tasks were spawned, and only a shutdown
  -- makes it say that it is shut down, with the tasks still queued.
  pub spawned_reads :
      (ts : List Task) (s : Shared Queue)
      → let s' = spawn_all ts s in
        (global_queue_len s' ≡ length ts + global_queue_len s)
        × (is_shutdown s' ≡ is_shutdown s)
        × (is_shutdown (shutdown_workers s') ≡ true)
        × (global_queue_len (shutdown_workers s') ≡ global_queue_len s')
  unfolding spawn_all shutdown_workers notify_all_workers is_shutdown global_queue_len
  spawned_reads [] s = (omega arith, refl, refl, refl)
  spawned_reads (t ∷ ts) s =
      let (more, same) = spawn_task-reads t s in
      let (rest, flag, down, kept) = spawned_reads ts (spawn_task D t s) in
      (omega (arith, more, rest), flag ∙ same, down, kept)
