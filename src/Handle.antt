-- ===== src/Handle.antt =====
-- src/runtime/handle.rs: what a `Handle` does to the state that it shares with a scheduler. The thread
-- that calls it, and the tasks that run on that thread meanwhile; other workers do not steal.
pub mod BlockOn
pub mod Process
pub mod Blocking
pub mod Shutdown
pub mod Lost
pub mod Background
pub mod Wakers
pub mod Schedule
use loony_rs_runtime.Base.{
  ℕ, zero, suc, ◌==◌, Bool, true, false, not, if◌then◌else◌, Option, none, some, List, [], ◌∷◌,
  update,
}
use mathlib.Core.Option
use loony_rs_runtime.MultiThread.Deque.{Deque, Steal}
use loony_rs_runtime.MultiThread.Shared.{Shared, spawn_task}
use loony_rs_runtime.MultiThread.Steal.{to_option}
use loony_rs_runtime.Context.{Context, current}

-- A handle by the identities of what it points to: the shared state, whose injector is also its own,
-- and the flag of the current-thread scheduler.
pub record Handle : Type 0 where
  pub shared : ℕ
  pub shutdown : Option ℕ

-- The shared states and the flags that exist.
pub record World (Queue : Type 0) : Type 0 where
  pub shareds : ℕ → Shared Queue
  pub flags : ℕ → Bool

module _ {Queue : Type 0} where
  unfoldable pub is_multi_thread : Handle → World Queue → Bool
  is_multi_thread h w = elim ((w.shareds h.shared).stealers) [ [] ↦ false | _ ∷ _ ↦ true ]

  unfoldable pub is_shutdown : Handle → World Queue → Bool
  is_shutdown h w = elim h.shutdown [
    | none ↦ (w.shareds h.shared).shutdown
    | some flag ↦ w.flags flag
  ]

-- `Handle::current`
unfoldable pub current_handle : Context → Option Handle
unfolding current
current_handle c = Option.map (λ s. record { shared = s; shutdown = none }) (current c)

-- `spawn_background` makes a task of its future first; `spawn_task` is given it.
module _ {Task : Type 0} (D : Deque Task) where
  open D use {Queue, new}

  unfoldable pub handle_spawn_task : Handle → Task → World Queue → World Queue
  unfolding spawn_task
  handle_spawn_task h t w = record w {
    shareds = update w.shareds h.shared (spawn_task D t (w.shareds h.shared));
  }

  -- The function `spawn`: `none` is its panic.
  unfoldable pub spawn : Context → Task → World Queue → Option (World Queue)
  unfolding current_handle handle_spawn_task
  spawn c t w = Option.map (λ h. handle_spawn_task h t w) (current_handle c)

  -- `Handle::for_current_thread` of src/runtime/scheduler/current_thread.rs, with the shared state that
  -- it makes at `shared`.
  unfoldable pub for_current_thread : ℕ → ℕ → World Queue → Handle × World Queue
  for_current_thread shared flag w = (
    record { shared = shared; shutdown = some flag },
    record w {
      shareds = update w.shareds shared (record {
        injector = new;
        stealers = [];
        unparkers = [];
        active = 1;
        shutdown = false;
        last_notified = (w.shareds shared).last_notified;
        notified_one = 0;
        notified_all = 0;
        unparked = [];
      });
    },
  )
