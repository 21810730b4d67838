-- ===== src/Handle/Background.antt =====
-- Spawning through a handle: `Handle::spawn_background` of src/runtime/handle.rs and the wrappers of
-- `RuntimeExt` around it, with the table of the tasks that were made.
use loony_rs_runtime.Base.{ℕ, ==_iff, ◌≡◌, ◌≢◌, refl, ap, ◌∙◌, arith, [], ◌∷◌, ◌++◌, update}
use loony_rs_runtime.Task.Header.{Header}
use loony_rs_runtime.Task.Raw
use loony_rs_runtime.MultiThread.Deque.{Deque}
use loony_rs_runtime.MultiThread.Shared.{spawn_task}
use loony_rs_runtime.MultiThread.Shared.Notify.{notify_worker-keeps}
use loony_rs_runtime.Handle.{Handle, World, handle_spawn_task}

pub record Made (Queue F T W : Type 0) : Type 0 where
  pub world : World Queue
  pub tasks : ℕ → Header F T W

module _ {F T W : Type 0} (D : Deque ℕ) where
  open D use {Queue, view, push, view-push}

  -- The new task gets the number `n`. Its join handle is dropped, which changes nothing of a new task.
  unfoldable pub spawn_background : Handle → ℕ → F → Made Queue F T W → Made Queue F T W
  unfolding handle_spawn_task
  spawn_background h n f m = record {
    world = handle_spawn_task D h n m.world;
    tasks = update m.tasks n (Raw.create_raw_task f);
  }

  -- `RuntimeExt::spawn` for `Handle`
  unfoldable pub ext_spawn : Handle → ℕ → F → Made Queue F T W → Made Queue F T W
  unfolding spawn_background
  ext_spawn h n f m = spawn_background h n f m

  -- The new task goes to the back of the handle's injector, and no other runtime is touched.
  pub spawn_background_lem :
      (h : Handle) (n : ℕ) (f : F) (m : Made Queue F T W) (other : ℕ)
      → other ≢ h.shared
      → let m' = spawn_background h n f m in
        (view (m'.world.shareds h.shared).injector
          ≡ view (m.world.shareds h.shared).injector ++ n ∷ [])
        × (m'.world.shareds other ≡ m.world.shareds other)
        × (m'.tasks n ≡ Raw.create_raw_task f)
  unfolding spawn_background handle_spawn_task spawn_task
  spawn_background_lem h n f m other apart =
      let s = m.world.shareds h.shared in
      let pushed = (notify_worker-keeps (record s { injector = push n s.injector })).0 in
      (
        rw ((==_iff h.shared h.shared).1 refl) (ap view pushed ∙ view-push n s.injector),
        ground arith,
        rw ((==_iff n n).1 refl) refl,
      )
