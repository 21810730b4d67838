-- ===== src/Handle/Shutdown.antt =====
-- What the handles of a current-thread runtime say of its shutdown.
use loony_rs_runtime.Base.{ℕ, ==_iff, ◌≡◌, refl, arith, true, false, none, some, update}
use loony_rs_runtime.MultiThread.Deque.{Deque}
use loony_rs_runtime.Context.{Context, enter}
use loony_rs_runtime.Handle.{
  World, is_shutdown, current_handle, for_current_thread, is_multi_thread,
}

module _ {Task : Type 0} (D : Deque Task) where
  open D use {Queue}

  -- The store to the flag in `CurrentThread::shutdown`.
  abbrev pub raise : ℕ → World Queue → World Queue
  raise flag w = record w { flags = update w.flags flag true }

  -- After a current-thread runtime is shut down its own handle says so. The one that
  -- `Handle::current` gives on a thread that entered the runtime says that it is not, since it asks
  -- the shared state, which the shutdown does not write.
  pub shutdown_answers :
      (shared flag : ℕ) (w : World Queue) (c : Context)
      → let (h, made) = for_current_thread D shared flag w in
        let down = raise flag made in
        (is_shutdown h down ≡ true)
        × (current_handle (enter h.shared c).1 ≡ some (record h { shutdown = none }))
        × (is_shutdown (record h { shutdown = none }) down ≡ false)
        × (is_multi_thread h down ≡ false)
  unfolding is_shutdown for_current_thread current_handle is_multi_thread enter
  shutdown_answers shared flag w c =
      let same = (==_iff shared shared).1 refl in
      let same_flag = (==_iff flag flag).1 refl in
      (ground (arith, same_flag), refl, ground (arith, same), ground (arith, same))
