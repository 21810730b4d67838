-- ===== src/CurrentThread/Fifo/Refines.antt =====
-- No sequence of calls tells the scheduler from the queue.
use loony_rs_runtime.Base.{
  suc, ◌≡◌, refl, ap, arith, false, List, [], ◌∷◌, ◌++◌, length, Bool-cases, inl, inr,
}
use loony_rs_runtime.CurrentThread.{
  Outcome, done, panicked, bind, Local, spawn_local, spawn_task, shutdown,
}
use loony_rs_runtime.CurrentThread.Idle.{quiet, run_until_idle_lem, turn_lem}
use loony_rs_runtime.CurrentThread.Fifo.{
  Call, spawn, spawn_here, run, turn_for, close, Seen, call, calls, Fifo, answer, answers,
}

abbrev pub view : {Task : Type 0} → Local Task → Fifo Task
view s = record { waiting = s.queue; closed = s.shutdown }

module _ {Task : Type 0} (spawns : Task → List Task) where
  -- A call on a free scheduler does what the queue does, and leaves the scheduler free.
  data Agrees
      : Outcome (List (Seen Task) × Local Task)
        → Outcome (List (Seen Task) × Fifo Task)
        → Type 0 where
    both :
        (seen : List (Seen Task)) (s : Local Task)
        → s.borrowed ≡ false
        → Agrees (done (seen, s)) (done (seen, view s))
    neither : Agrees panicked panicked

  call-Agrees :
      (c : Call Task) (s : Local Task)
      → s.borrowed ≡ false
      → Agrees (call spawns c s) (answer spawns c (view s))
  unfolding call answer spawn_task spawn_local shutdown
  call-Agrees (spawn t) s b = rw b (both _ _ refl)
  call-Agrees (spawn_here t) s b = rw b (both _ _ refl)
  call-Agrees run s b =
      rw (run_until_idle_lem spawns (suc (length s.queue)) s b (omega arith))
        (elim (Bool-cases (quiet spawns s.queue)) [
          | inl e ↦ rw e (both _ _ b)
          | inr e ↦ rw e neither
        ])
  call-Agrees (turn_for duration) s b =
      rw
        (
          run_until_idle_lem spawns (suc (length s.queue)) s b (omega arith),
          turn_lem spawns (suc (length s.queue)) duration s b (omega arith),
        )
        (elim (Bool-cases (quiet spawns s.queue)) [
          | inl e ↦ rw e (both _ _ b)
          | inr e ↦ rw e neither
        ])
  call-Agrees close s b = rw b (both _ _ refl)

  -- What the two go on to, after such a call.
  rest-agree :
      (o : Outcome (List (Seen Task) × Local Task)) (a : Outcome (List (Seen Task) × Fifo Task))
      (f : Local Task → Outcome (List (Seen Task))) (g : Fifo Task → Outcome (List (Seen Task)))
      → ((s : Local Task) → s.borrowed ≡ false → f s ≡ g (view s))
      → Agrees o a
      → bind o (λ r. bind (f r.1) (λ seen. done (r.0 ++ seen)))
        ≡ bind a (λ r. bind (g r.1) (λ seen. done (r.0 ++ seen)))
  rest-agree o a f g same (both seen s b) =
      ap (λ x. bind x (λ more. done (seen ++ more))) (same s b)
  rest-agree o a f g same neither = refl

  -- Whatever calls are made of a scheduler whose queue is not borrowed, their answers, the tasks
  -- that they run, and whether they panic are those of the plain queue of its tasks.
  pub calls_refine :
      (cs : List (Call Task)) (s : Local Task)
      → s.borrowed ≡ false
      → calls spawns cs s ≡ answers spawns cs (view s)
  unfolding calls answers
  calls_refine [] s b = refl
  calls_refine (c ∷ cs) s b =
      rest-agree (call spawns c s) (answer spawns c (view s)) (calls spawns cs) (answers spawns cs)
        (calls_refine cs) (call-Agrees c s b)
