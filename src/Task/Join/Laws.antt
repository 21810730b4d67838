-- ===== src/Task/Join/Laws.antt =====
-- What a join handle reports, by the state of its task.
use loony_rs_runtime.Base.{
  ℕ, zero, suc, ◌/◌, ◌%◌, ◌==◌, ◌≡◌, ◌≢◌, ◌&&◌, ◌||◌, if◌then◌else◌, Bool-cases, inl, inr, refl,
  arith, Bool, true, false, some, none, bit_or,
}
use loony_rs_runtime.Bits.{bit_or_eight, bit_and_three, bit_and_four}
use loony_rs_runtime.Task.State.{from_bits}
use loony_rs_runtime.Task.State.Fields.{is_complete_lem, is_aborted_lem}
use loony_rs_runtime.Task.Header.{Poll, ready, pending, Header}
use loony_rs_runtime.Task.Join.{Joined, ok, err, aborted, already_taken, poll}

module _ {F T W : Type 0} where
  -- The task of the word is scheduled or running, and not aborted.
  abbrev pub busy : Header F T W → Bool
  busy h = (h.state % 4 == 1 || h.state % 4 == 2) && h.state / 4 % 2 == 0

  -- What the call answers where the task is not busy: the output of a complete task, the error of
  -- an aborted one, and else `Pending`, with the waker stored and the interest noted.
  abbrev pub answer : W → Header F T W → Poll (Joined T) × Header F T W
  answer w h =
      if h.state / 4 % 2 == 1
      then (ready (err aborted), h)
      else if h.state % 4 == 3
      then (ready (ok h.output), h)
      else (pending, record h { state = bit_or h.state 8; join_waker = some w })

  poll_diverges : (fuel : ℕ) (w : W) (h : Header F T W) → busy h ≡ true → poll fuel w h ≡ none
  unfolding poll
  poll_diverges zero w h b = refl
  poll_diverges (suc fuel) w h b = ground (
    arith,
    is_complete_lem (from_bits h.state),
    is_aborted_lem (from_bits h.state),
    bit_and_three h.state,
    bit_or_eight h.state,
    poll_diverges fuel w (record h { state = bit_or h.state 8; join_waker = some w }),
  )

  poll_answers :
      (fuel : ℕ) (w : W) (h : Header F T W)
      → busy h ≡ false
      → poll (suc fuel) w h ≡ some (answer w h)
  unfolding poll
  poll_answers fuel w h b = ground (
    arith,
    is_complete_lem (from_bits h.state),
    is_aborted_lem (from_bits h.state),
    bit_and_three h.state,
    bit_and_four h.state,
    bit_or_eight h.state,
  )

  -- A join handle answers at its first attempt, or never: however often it calls itself, it is
  -- stuck exactly while its task is scheduled or running and not aborted. An answer is the output
  -- of a complete task, `Aborted` for an aborted one, and else `Pending`, with the waker stored.
  pub join_answers :
      (fuel : ℕ) (w : W) (h : Header F T W)
      → poll (suc fuel) w h ≡ (if busy h then none else some (answer w h))
  join_answers fuel w h = elim (Bool-cases (busy h)) [
    | inl b ↦ rw b (poll_diverges (suc fuel) w h b)
    | inr b ↦ rw b (poll_answers fuel w h b)
  ]

  -- No join handle reports that its output was taken already: a second read gives it again.
  pub never_already_taken :
      (fuel : ℕ) (w : W) (h g : Header F T W) → poll fuel w h ≢ some (ready (err already_taken), g)
  never_already_taken zero w h g e = unfold poll in cc
  never_already_taken (suc fuel) w h g e = ground (arith, join_answers fuel w h)
