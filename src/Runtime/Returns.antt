-- ===== src/Runtime/Returns.antt =====
-- `Runtime::block_on` with either scheduler.
use loony_rs_runtime.Base.{ℕ, zero, suc, ◌≡◌, refl, arith, true, false, Option, List}
use loony_rs_runtime.MultiThread.Deque.{Deque}
use loony_rs_runtime.MultiThread.BlockOn.Waits.{mt_block_on_returns}
use loony_rs_runtime.MultiThread.BlockOn.Waits
use loony_rs_runtime.CurrentThread.{done}
use loony_rs_runtime.CurrentThread.Idle.{quiet, Ready, block_on_returns}
use loony_rs_runtime.Runtime.{RuntimeKind, current_thread, multi_thread, block_on}

module _ {Task F T : Type 0} (D : Deque Task) (spawns : Task → List Task)
    (poll_future : F → List Task × F × Option T) where
  open D use {Queue}

  -- No one has borrowed the queue of a current-thread runtime, and no task in it spawns another.
  abbrev pub IsQuiet : RuntimeKind Task Queue → Type 0
  IsQuiet (current_thread rt) = (rt.borrowed ≡ false) × (quiet spawns rt.queue ≡ true)
  IsQuiet (multi_thread rt) = Unit

  forget_quiet :
      (k : ℕ) (f : F) (t : T)
      → Ready spawns poll_future k f t
      → Waits.Ready D spawns poll_future k f t
  forget_quiet zero f t r = r
  forget_quiet (suc k) f t r = (r.0, forget_quiet k (poll_future f).1 t r.2)

  -- Under either scheduler `Runtime::block_on` returns the output of a future that gets ready at the
  -- poll after `k` others, if the tasks spawned meanwhile spawn none. Only the current-thread runtime
  -- needs that of the tasks that are queued already.
  pub runtime_block_on_returns :
      (k : ℕ) (f : F) (t : T) (rt : RuntimeKind Task Queue)
      → IsQuiet rt
      → Ready spawns poll_future k f t
      → (rt' : RuntimeKind Task Queue) × (block_on D spawns poll_future (suc k) f rt
          ≡ done (t, rt'))
  unfolding block_on
  runtime_block_on_returns k f t (current_thread rt) v r =
      let (s, e, parks) = block_on_returns spawns poll_future k f t rt v.0 v.1 r in
      (current_thread s, rw e refl)
  runtime_block_on_returns k f t (multi_thread rt) v r =
      let (ws, s, e, n) =
        mt_block_on_returns D spawns poll_future k f t rt (forget_quiet k f t r) in
      (multi_thread s, ground (arith, e))
