-- ===== src/Task/Wake/Arithmetic.antt =====
-- One round of either loop, in terms of the fields of the word.
use loony_rs_runtime.Base.{
  ℕ, ◌+◌, ◌/◌, ◌%◌, ◌^◌, ◌<◌, ◌==◌, ◌&&◌, if◌then◌else◌, Option, none, some, ◌≡◌, arith,
}
use loony_rs_runtime.Bits.{bit_or_one, bit_and_not_three}
use loony_rs_runtime.Task.State.{with_flag}
use loony_rs_runtime.Task.State.Fields.{field_laws}
use loony_rs_runtime.Task.Wake.{attempt, attempt_idle}

-- What both loops come to: only an idle task that is not aborted is taken, to the state scheduled.
abbrev pub taken : ℕ → Option ℕ
taken w = if w % 4 == 0 && w / 4 % 2 == 0 then some (w + 1) else none

pub attempt_lem : (w : ℕ) → attempt w ≡ taken w
unfolding attempt with_flag
attempt_lem w = simp (field_laws, bit_or_one) (ground arith)

pub attempt_idle_lem : (w : ℕ) → w < 2 ^ 64 → attempt_idle w ≡ taken w
unfolding attempt_idle
attempt_idle_lem w h = simp (field_laws, bit_or_one, bit_and_not_three w h) (ground arith)
