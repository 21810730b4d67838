-- ===== src/Task/State/Fields.antt =====
-- The fields of the state word as quotients and remainders.
use loony_rs_runtime.Base.{◌+◌, ◌*◌, ◌/◌, ◌%◌, ◌^◌, ◌<◌, ◌==◌, ◌≡◌, arith}
use loony_rs_runtime.Bits.{
  bit_and_cut, bit_and_ones, bit_and_zero, bit_and_three, bit_and_four, bit_and_eight,
}
use loony_rs_runtime.Task.State.{
  TaskState, state, flags, refcount, is_idle, is_scheduled, is_running, is_complete, is_aborted,
  has_join_interest,
}

pub state_lem : (s : TaskState) → state s ≡ s.bits % 4
unfolding state
state_lem s = bit_and_three s.bits

pub flags_lem : (s : TaskState) → flags s ≡ s.bits / 4 % 2 ^ 14 * 4
unfolding flags
flags_lem s =
    omega
      (arith, bit_and_cut 2 s.bits 0xfffc, bit_and_ones 14 (s.bits / 4), bit_and_zero (s.bits % 4))

pub refcount_lem : (s : TaskState) → refcount s ≡ s.bits / 2 ^ 16 % 2 ^ 16
unfolding refcount
refcount_lem s = omega (
  arith,
  bit_and_cut 16 s.bits 0xffff_0000,
  bit_and_ones 16 (s.bits / 2 ^ 16),
  bit_and_zero (s.bits % 2 ^ 16),
)

pub is_idle_lem : (s : TaskState) → is_idle s ≡ (s.bits % 4 == 0)
unfolding is_idle
is_idle_lem s = rw (state_lem s)

pub is_scheduled_lem : (s : TaskState) → is_scheduled s ≡ (s.bits % 4 == 1)
unfolding is_scheduled
is_scheduled_lem s = rw (state_lem s)

pub is_running_lem : (s : TaskState) → is_running s ≡ (s.bits % 4 == 2)
unfolding is_running
is_running_lem s = rw (state_lem s)

pub is_complete_lem : (s : TaskState) → is_complete s ≡ (s.bits % 4 == 3)
unfolding is_complete
is_complete_lem s = rw (state_lem s)

pub is_aborted_lem : (s : TaskState) → is_aborted s ≡ (s.bits / 4 % 2 == 1)
unfolding is_aborted
is_aborted_lem s = ground (arith, bit_and_four s.bits)

pub has_join_interest_lem : (s : TaskState) → has_join_interest s ≡ (s.bits / 8 % 2 == 1)
unfolding has_join_interest
has_join_interest_lem s = ground (arith, bit_and_eight s.bits)

pub ruleset field_laws = (
  state_lem, flags_lem, refcount_lem, is_idle_lem, is_scheduled_lem, is_running_lem,
  is_complete_lem, is_aborted_lem, has_join_interest_lem,
)

-- The three fields partition a word below 2^32: nothing is stored twice and nothing is lost.
pub fields_partition :
    (s : TaskState) → s.bits < 2 ^ 32 → s.bits ≡ state s + flags s + refcount s * 2 ^ 16
fields_partition s h = omega (arith, state_lem s, flags_lem s, refcount_lem s)
