-- ===== src/MultiThread/Deque.antt =====
-- The queues of `crossbeam::deque`, which are not part of the repository: first in, first out.
use loony_rs_runtime.Base.{ℕ, ◌≡◌, List, [], ◌∷◌, ◌++◌, Option, none, some, length}

pub data Steal (A : Type 0) : Type 0 where
  empty retry : Steal A
  success : A → Steal A

-- What a steal says of the queue before it and after it.
abbrev pub Steals : {A : Type 0} → Steal A → List A → List A → Type 0
Steals empty before after = (before ≡ []) × (after ≡ [])
Steals retry before after = after ≡ before
Steals (success a) before after = before ≡ a ∷ after

abbrev pub Pops : {A : Type 0} → Option A → List A → List A → Type 0
Pops none before after = (before ≡ []) × (after ≡ [])
Pops (some a) before after = before ≡ a ∷ after

-- An `Injector`, or the queue that a `Worker` and its `Stealer`s share. A steal may answer `Retry`.
pub record Deque (A : Type 0) : Type 1 where
  pub Queue : Type 0
  pub view : Queue → List A
  pub new : Queue
  pub push : A → Queue → Queue
  pub steal : Queue → Steal A × Queue
  pub pop : Queue → Option A × Queue
  pub len : Queue → ℕ
  pub view-new : view new ≡ []
  pub view-push : (a : A) (q : Queue) → view (push a q) ≡ view q ++ a ∷ []
  pub steal-Steals : (q : Queue) → Steals (steal q).0 (view q) (view (steal q).1)
  pub pop-Pops : (q : Queue) → Pops (pop q).0 (view q) (view (pop q).1)
  pub len-view : (q : Queue) → len q ≡ length (view q)
