-- ===== src/Context.antt =====
-- The thread-locals `CURRENT_CONTEXT` and `CURRENT_WORKER` of one thread, and the guards over them:
-- `ContextGuard` of src/runtime/scheduler/multi_thread.rs and `EnterGuard` of src/runtime/handle.rs.
-- An `Arc<Shared>` is its identity, which is what `Arc::ptr_eq` compares, and a worker its index.
pub mod Guards
pub mod Workers
use loony_rs_runtime.Base.{
  ℕ, ◌==◌, ◌≡◌, refl, ◌∙◌, arith, Option, none, some, List, [], ◌∷◌, if◌then◌else◌,
}

pub record Context : Type 0 where
  pub shared : Option ℕ
  pub worker : Option ℕ

-- A guard that is alive, with what it puts back.
pub data Guard : Type 0 where
  entered : (old : Option ℕ) → Guard
  within : (old_context old_worker : Option ℕ) → Guard

-- `Handle::enter`
unfoldable pub enter : ℕ → Context → Guard × Context
enter shared c = (entered c.shared, record c { shared = some shared })

-- `ContextGuard::new`, at the head of `MultiThread::block_on`.
unfoldable pub new : ℕ → Context → Guard × Context
new context c = (within c.shared c.worker, record { shared = some context; worker = none })

-- `Drop for EnterGuard`
unfoldable pub drop_enter_guard : Option ℕ → Context → Context
drop_enter_guard old c = record c { shared = old }

-- `Drop for ContextGuard`
unfoldable pub drop_context_guard : Option ℕ → Option ℕ → Context → Context
drop_context_guard old_context old_worker c = record { shared = old_context; worker = old_worker }

unfoldable pub drop : Guard → Context → Context
unfolding drop_enter_guard drop_context_guard
drop (entered old) c = drop_enter_guard old c
drop (within old_context old_worker) c = drop_context_guard old_context old_worker c

-- `Handle::current`, as far as it is about the shared state of the handle.
unfoldable pub current : Context → Option ℕ
current c = c.shared

-- The `WorkerRef` of handle.rs.
pub data WorkerRef : Type 0 where
  multi_thread no_worker : WorkerRef

unfoldable pub try_get_worker : ℕ → Context → Option WorkerRef
try_get_worker own c = elim c.shared [
  | none ↦ none
  | some shared ↦ some (if shared == own then multi_thread else no_worker)
]

-- What a thread does with guards: it makes one, or drops the last that it made.
pub data Op : Type 0 where
  enters : ℕ → Op
  blocks : ℕ → Op
  leaves : Op

unfoldable pub act : Op → List Guard × Context → List Guard × Context
unfolding enter new drop
act (enters h) (gs, c) = ((enter h c).0 ∷ gs, (enter h c).1)
act (blocks h) (gs, c) = ((new h c).0 ∷ gs, (new h c).1)
act leaves ([], c) = ([], c)
act leaves (g ∷ gs, c) = (gs, drop g c)

abbrev pub acts : List Op → List Guard × Context → List Guard × Context
acts [] s = s
acts (o ∷ os) s = acts os (act o s)

unfoldable pub unwind : List Guard → Context → Context
unfolding drop
unwind [] c = c
unwind (g ∷ gs) c = unwind gs (drop g c)
