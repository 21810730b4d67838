-- ===== src/Base/Families.antt =====
-- Families indexed by threads or addresses.
use Prim.Native.Nat.{ℕ}
use mathlib.Core.Path.{◌≡◌, refl}
use mathlib.Core.Logic.{◌≢◌}
use native.Mathlib.Omega.{arith}
use loony_rs_runtime.Base.Tests.{◌==◌, ==_iff, if◌then◌else◌}

abbrev pub update {ℓ} : {A : Type ℓ} → (ℕ → A) → ℕ → A → ℕ → A
update f i a j = if i == j then a else f j

pub update_self {ℓ} : {A : Type ℓ} (f : ℕ → A) (n : ℕ) (a : A) → update f n a n ≡ a
update_self f n a = rw ((==_iff n n).1 refl) refl

pub update_other {ℓ} : {A : Type ℓ} (f : ℕ → A) (k n : ℕ) (a : A) → k ≢ n → update f k a n ≡ f n
update_other f k n a h = ground arith
