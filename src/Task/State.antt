-- ===== src/Task/State.antt =====
-- `TaskState` of src/task/raw.rs: the word in which a task keeps its state, its flags and the count
-- of its wakers. A `usize` has 64 bits.
pub mod Fields
pub mod Updates
use loony_rs_runtime.Base.{
  ℕ, ◌+◌, ◌-◌, ◌*◌, ◌/◌, ◌%◌, ◌^◌, ◌==◌, bit_and, bit_or, Bool, true, false, not,
}

abbrev pub usize : ℕ → ℕ
usize n = n % 2 ^ 64

-- `!x`
abbrev pub bit_not : ℕ → ℕ
bit_not x = 2 ^ 64 - 1 - x

-- `x << k` and `x >> k`
abbrev pub shl : ℕ → ℕ → ℕ
shl x k = usize (x * 2 ^ k)

abbrev pub shr : ℕ → ℕ → ℕ
shr x k = x / 2 ^ k

pub record TaskState : Type 0 where
  pub bits : ℕ

abbrev pub state_mask : ℕ
state_mask = 0x3

abbrev pub flags_mask : ℕ
flags_mask = 0xfffc

abbrev pub refcount_shift : ℕ
refcount_shift = 16

abbrev pub refcount_mask : ℕ
refcount_mask = 0xffff_0000

abbrev pub idle : TaskState
idle = record { bits = 0 }

abbrev pub scheduled : TaskState
scheduled = record { bits = 1 }

abbrev pub running : TaskState
running = record { bits = 2 }

abbrev pub complete : TaskState
complete = record { bits = 3 }

abbrev pub aborted : TaskState
aborted = record { bits = 0x4 }

abbrev pub join_interest : TaskState
join_interest = record { bits = 0x8 }

abbrev pub from_bits : ℕ → TaskState
from_bits b = record { bits = b }

unfoldable pub state : TaskState → ℕ
state s = bit_and s.bits state_mask

unfoldable pub flags : TaskState → ℕ
flags s = bit_and s.bits flags_mask

unfoldable pub refcount : TaskState → ℕ
refcount s = shr (bit_and s.bits refcount_mask) refcount_shift

unfoldable pub is_idle : TaskState → Bool
unfolding state
is_idle s = state s == idle.bits

unfoldable pub is_scheduled : TaskState → Bool
unfolding state
is_scheduled s = state s == scheduled.bits

unfoldable pub is_running : TaskState → Bool
unfolding state
is_running s = state s == running.bits

unfoldable pub is_complete : TaskState → Bool
unfolding state
is_complete s = state s == complete.bits

unfoldable pub is_aborted : TaskState → Bool
is_aborted s = not (bit_and s.bits aborted.bits == 0)

unfoldable pub has_join_interest : TaskState → Bool
has_join_interest s = not (bit_and s.bits join_interest.bits == 0)

unfoldable pub with_refcount : TaskState → ℕ → TaskState
with_refcount s n = record {
  bits =
      bit_or (bit_and s.bits (bit_not refcount_mask))
        (bit_and (shl n refcount_shift) refcount_mask);
}

unfoldable pub with_flag : TaskState → TaskState → TaskState
with_flag s flag = record { bits = bit_or s.bits flag.bits }

unfoldable pub without_flag : TaskState → TaskState → TaskState
without_flag s flag = record { bits = bit_and s.bits (bit_not flag.bits) }
