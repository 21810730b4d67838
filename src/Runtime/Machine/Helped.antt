-- ===== src/Runtime/Machine/Helped.antt =====
-- What becomes of a thread in `MultiThread::block_on` that awaits a task and runs it itself.
use loony_rs_runtime.Base.{ℕ, suc, ◌%◌, ◌/◌, ◌≡◌, ◌≢◌, refl, ◌∙◌, arith, none, [], ◌∷◌}
use loony_rs_runtime.Task.Wake
use loony_rs_runtime.Task.Wake.Arithmetic.{attempt_lem}
use loony_rs_runtime.Task.Header.{pending, wake_by_ref, Polled, Header}
use loony_rs_runtime.Task.Raw
use loony_rs_runtime.Task.Join
use loony_rs_runtime.Task.Join.Laws.{join_answers}
use loony_rs_runtime.MultiThread.Deque.{Deque, retry}
use loony_rs_runtime.Runtime.Machine.{Machine, spawn}
use loony_rs_runtime.Runtime.Machine.Rounds.{Holds}
use loony_rs_runtime.Runtime.Machine.Awaited.{overflows, block_on_handle, registered, helps_once}

module _ {F T W : Type 0} (D : Deque ℕ) (poll_future : F → Polled F T) where
  open D use {Queue, steal}

  never_answers :
      (polls fuel n : ℕ) (w : W) (m : Machine Queue F T W)
      → Join.poll fuel w (m.tasks n) ≡ none
      → block_on_handle D poll_future (suc polls) fuel n w m ≡ overflows
  unfolding block_on_handle
  never_answers polls fuel n w m asked = rw (block_on_handle, asked) refl

  yields_scheduled :
      (w : W) (f : F)
      → (poll_future f).calls ≡ wake_by_ref ∷ []
      → (poll_future f).result ≡ pending
      → let h = Raw.poll poll_future 1 (registered w f) in (h.state % 4 ≡ 1) × (h.state / 4 % 2 ≡ 0)
  unfolding Raw.create_raw_task Raw.poll Raw.calls Raw.call Raw.finish Wake.wake_by_ref
  yields_scheduled w f yields waits = rw (yields, waits) (ground (arith, attempt_lem 65544))

  yields_answer :
      (fuel : ℕ) (w : W) (f : F)
      → (poll_future f).calls ≡ wake_by_ref ∷ []
      → (poll_future f).result ≡ pending
      → Join.poll (suc fuel) w (Raw.poll poll_future 1 (registered w f)) ≡ none
  yields_answer fuel w f yields waits =
      let h = Raw.poll poll_future 1 (registered w f) in
      ground (arith, join_answers fuel w h, yields_scheduled w f yields waits)

  module _ (prompt : (q : Queue) → (steal q).0 ≢ retry) where
    -- A task is spawned where nothing else is queued and no steal has to be retried, and the first poll
    -- of its future wakes it once and is pending, as with `yield_now`. A thread in `block_on` that
    -- awaits its handle, with the workers idle, runs it itself, and the second poll of the handle then
    -- calls itself without end, however much fuel it has.
    pub yield_overflows :
        (polls fuel n : ℕ) (f : F) (w : W) (m : Machine Queue F T W)
        → Holds D [] m.own m.shared
        → (poll_future f).calls ≡ wake_by_ref ∷ []
        → (poll_future f).result ≡ pending
        → block_on_handle D poll_future (suc (suc polls)) (suc fuel) n w (spawn D n f m) ≡ overflows
    yield_overflows polls fuel n f w m v yields waits =
        let (m', ran, went) = helps_once D poll_future prompt (suc polls) fuel n f w m v in
        went ∙ never_answers polls (suc fuel) n w m' (rw ran (yields_answer fuel w f yields waits))
