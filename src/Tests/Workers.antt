-- ===== src/Tests/Workers.antt =====
-- The workers at concrete inputs, with lists for the queues. A task is a number.
use loony_rs_runtime.Base.{
  ℕ, ◌≡◌, ◌≢◌, refl, arith, Option, some, none, List, [], ◌∷◌, ◌++◌, length,
}
use loony_rs_runtime.MultiThread.Deque.{Deque, Steal, empty, retry, success, Steals, Pops}
use loony_rs_runtime.MultiThread.Shared.{Shared, new_shared}
use loony_rs_runtime.MultiThread.Steal.{steal_others}
use loony_rs_runtime.MultiThread.Steal.Ring.{steal_others_finds}
use loony_rs_runtime.MultiThread.Worker.{drops, wake_round}
use loony_rs_runtime.MultiThread.Worker.Lost.{woken_drops_first}

abbrev pub steal : List ℕ → Steal ℕ × List ℕ
steal [] = (empty, [])
steal (t ∷ ts) = (success t, ts)

abbrev pub pop : List ℕ → Option ℕ × List ℕ
pop [] = (none, [])
pop (t ∷ ts) = (some t, ts)

pub steal-Steals : (q : List ℕ) → Steals (steal q).0 q (steal q).1
steal-Steals [] = (refl, refl)
steal-Steals (t ∷ ts) = refl

pub pop-Pops : (q : List ℕ) → Pops (pop q).0 q (pop q).1
pop-Pops [] = (refl, refl)
pop-Pops (t ∷ ts) = refl

abbrev pub lists : Deque ℕ
lists = record {
  Queue = List ℕ;
  view = λ q. q;
  new = [];
  push = λ t q. q ++ t ∷ [];
  steal = steal;
  pop = pop;
  len = length;
  view-new = refl;
  view-push = λ t q. refl;
  steal-Steals = steal-Steals;
  pop-Pops = pop-Pops;
  len-view = λ q. refl;
}

-- Three workers, of which the second and the third have tasks.
abbrev pub busy : Shared (List ℕ)
busy = record (new_shared lists 3) {
  injector = 9 ∷ [];
  stealers = [] ∷ (4 ∷ 5 ∷ []) ∷ (6 ∷ []) ∷ [];
}

woken_drops_first_example : (wake_round lists (7 ∷ []) [] (new_shared lists 2)).0 ≡ drops 7
unfolding new_shared wake_round
woken_drops_first_example =
    woken_drops_first lists 7 [] [] (new_shared lists 2) refl refl (λ e. absurd (cc))

-- No steal from a list has to be retried.
pub prompt : (q : List ℕ) → (steal q).0 ≢ retry
prompt [] e = cc
prompt (t ∷ ts) e = cc

steal_others_finds_example : (u : ℕ) × ((steal_others lists 0 busy).0 ≡ some u)
unfolding new_shared
steal_others_finds_example =
    steal_others_finds lists prompt 0 2 busy (6 ∷ []) (omega arith) (omega arith) refl (λ e. cc)
