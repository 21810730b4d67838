-- ===== src/Task/Join.antt =====
-- src/task/mod.safe.rs: the join handle over the operations of raw.rs.
pub mod Laws
pub mod Round
pub mod Race
use loony_rs_runtime.Base.{
  ℕ, zero, suc, bit_and, Bool, true, false, if◌then◌else◌, Option, none, some,
}
use loony_rs_runtime.Task.State.{bit_not, join_interest, from_bits, is_complete, is_aborted}
use loony_rs_runtime.Task.Header.{
  Poll, ready, pending, Cell, Header, set_join_waker, try_read_output, abort_task, Polled,
}

pub data JoinError : Type 0 where
  aborted panic already_taken : JoinError

-- `Result<T, JoinError>`, where the output is the bytes that were read.
pub data Joined (T : Type 0) : Type 0 where
  ok : Cell T → Joined T
  err : JoinError → Joined T

module _ {F T W : Type 0} where
  -- `JoinHandle::abort`
  unfoldable pub abort : Header F T W → Header F T W
  unfolding abort_task
  abort h = abort_task h

  unfoldable pub is_finished : Header F T W → Bool
  is_finished h = is_complete (from_bits h.state)

  -- `JoinHandle::poll`, which calls itself; `none` is fuel that ran out. `w` is the clone of the
  -- context's waker. Nothing else happens to the task meanwhile.
  unfoldable pub poll : ℕ → W → Header F T W → Option (Poll (Joined T) × Header F T W)
  unfolding set_join_waker try_read_output
  poll zero w h = none
  poll (suc fuel) w h =
      let s = from_bits h.state in
      let (h', completed) = set_join_waker h w in
      let again = poll fuel w h' in
      if is_complete s
      then elim (try_read_output h) [
        | some output ↦ some (ready (ok output), h)
        | none ↦ some (ready (err (if is_aborted s then aborted else already_taken)), h)
      ]
      else if is_aborted s
      then some (ready (err aborted), h)
      else if completed
      then again
      else some (pending, h')

  -- `Drop for JoinHandle`
  unfoldable pub drop_handle : Header F T W → Header F T W
  drop_handle h =
      if is_complete (from_bits h.state)
      then record h { state = bit_and h.state (bit_not join_interest.bits); join_waker = none }
      else h
