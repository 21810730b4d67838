-- ===== src/Task/Wake/Race/Safety.antt =====
-- Among all the threads, a task that is idle is scheduled at most once.
use loony_rs_runtime.Base.{
  ℕ, ◌+◌, ◌/◌, ◌%◌, ◌^◌, ◌≤◌, ◌<◌, ◌≡◌, ◌≢◌, ◌⊎◌, refl, arith, some, update,
}
use loony_rs_runtime.Bits.{bit_or_three, bit_or_four, bit_or_eight, bit_and_not_eight}
use loony_rs_runtime.Task.Wake.{attempt}
use loony_rs_runtime.Task.Wake.Arithmetic.{attempt_lem}
use loony_rs_runtime.Task.Wake.Race.{
  Pc, start, trying, stopped, Other, cloned, released, completed, aborts, joined, handle_dropped,
  act, System, Step, give_up, load, exchange, retry, again, other, init, Reach, begin, later,
}

record Inv (s : System) : Type 0 where
  fits : s.word < 2 ^ 64
  once : s.schedules ≤ 1
  idle_first : s.word % 4 ≡ 0 → s.schedules ≡ 0
  taken : s.word % 4 ≡ 1 → s.schedules ≡ 1
  never_running : s.word % 4 ≢ 2
  plan : (i c d : ℕ) → s.pc i ≡ trying c d → attempt c ≡ some d
  quit : (i : ℕ) → s.pc i ≡ stopped → (s.word % 4 ≢ 0) ⊎ (s.word / 4 % 2 ≡ 1)

-- The other accesses never make the task idle or scheduled, nor clear the abort flag.
act_lem :
    (o : Other) (w : ℕ)
    → w < 2 ^ 64
    → (act o w < 2 ^ 64)
      × ((act o w % 4 ≡ w % 4) ⊎ (act o w % 4 ≡ 3))
      × (w / 4 % 2 ≤ act o w / 4 % 2)
unfolding act
act_lem cloned w h = ground arith
act_lem released w h = ground arith
act_lem completed w h = ground (arith, bit_or_three w)
act_lem aborts w h = ground (arith, bit_or_four w)
act_lem joined w h = ground (arith, bit_or_eight w)
act_lem handle_dropped w h = ground (arith, bit_and_not_eight w h)

-- A step that leaves the word alone.
move-Inv :
    {s : System} (i : ℕ) (p : Pc)
    → Inv s
    → ((c d : ℕ) → p ≡ trying c d → attempt c ≡ some d)
    → (p ≡ stopped → (s.word % 4 ≢ 0) ⊎ (s.word / 4 % 2 ≡ 1))
    → Inv (record s { pc = update s.pc i p })
move-Inv i p v planned quits = record {
  fits = v.fits;
  once = v.once;
  idle_first = v.idle_first;
  taken = v.taken;
  never_running = v.never_running;
  plan = λ j c d q. ground (arith, v.plan j c d, planned c d);
  quit = λ j q. ground (arith, v.quit j, quits);
}

Step-Inv : {s t : System} → Step s t → Inv s → Inv t
Step-Inv {s} (give_up i p e) v =
    move-Inv i stopped v (λ c d q. cc) (λ q. ground (arith, attempt_lem s.word))
Step-Inv {s} (load i d p e) v = move-Inv i (trying s.word d) v (λ c d' q. cc) (λ q. absurd (cc))
Step-Inv {s} (exchange i c d p e) v = record {
  fits = ground (arith, won, v.fits);
  once = ground (arith, won, v.idle_first);
  idle_first = λ q. ground (arith, won);
  taken = λ q. ground (arith, won, v.idle_first);
  never_running = ground (arith, won);
  plan = λ j c' d' q. ground (arith, v.plan j c' d');
  quit = λ j q. ground (arith, won);
}
  where
    won : (c % 4 ≡ 0) × (d ≡ c + 1)
    won = ground (arith, v.plan i c d p, attempt_lem c)
Step-Inv (retry i c d p) v = move-Inv i start v (λ c' d' q. cc) (λ q. absurd (cc))
Step-Inv (again i p) v = move-Inv i start v (λ c d q. cc) (λ q. absurd (cc))
Step-Inv {s} (other o) v = record {
  fits = ground (arith, acted);
  once = v.once;
  idle_first = λ q. ground (arith, acted, v.idle_first);
  taken = λ q. ground (arith, acted, v.taken);
  never_running = ground (arith, acted, v.never_running);
  plan = v.plan;
  quit = λ j q. ground (arith, acted, v.quit j q);
}
  where
    acted :
        (act o s.word < 2 ^ 64)
        × ((act o s.word % 4 ≡ s.word % 4) ⊎ (act o s.word % 4 ≡ 3))
        × (s.word / 4 % 2 ≤ act o s.word / 4 % 2)
    acted = act_lem o s.word v.fits

init-Inv : (w : ℕ) → w < 2 ^ 64 → w % 4 ≡ 0 → Inv (init w)
init-Inv w fits idle = record {
  fits = fits;
  once = omega arith;
  idle_first = λ q. refl;
  taken = λ q. absurd (omega arith);
  never_running = omega arith;
  plan = λ i c d q. absurd (cc);
  quit = λ i q. absurd (cc);
}

Reach-Inv : {w : ℕ} {s : System} → w < 2 ^ 64 → w % 4 ≡ 0 → Reach w s → Inv s
Reach-Inv {w} fits idle begin = init-Inv w fits idle
Reach-Inv fits idle (later r st) = Step-Inv st (Reach-Inv fits idle r)

module _ {w : ℕ} {s : System} (fits : w < 2 ^ 64) (idle : w % 4 ≡ 0) (r : Reach w s) where
  -- However many threads wake an idle task, and whatever else is done to its word meanwhile, the
  -- task is scheduled at most once.
  pub race_schedules_once : s.schedules ≤ 1
  race_schedules_once = (Reach-Inv fits idle r).once

  -- A thread that stops without scheduling a task that was idle at the start leaves one that has been
  -- scheduled, once and by any of the threads at any time since, is complete or is aborted.
  pub race_stops_taken :
      (i : ℕ) → s.pc i ≡ stopped → (s.schedules ≡ 1) ⊎ (s.word % 4 ≡ 3) ⊎ (s.word / 4 % 2 ≡ 1)
  race_stops_taken i q =
      let v = Reach-Inv fits idle r in ground (arith, v.taken, v.never_running, v.quit i q)
