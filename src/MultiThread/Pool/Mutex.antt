-- ===== src/MultiThread/Pool/Mutex.antt =====
-- Who has the mutex of a pool, and where its workers can stand after a shutdown.
use loony_rs_runtime.Base.{
  ℕ, ◌≤◌, ◌≡◌, ◌≢◌, ◌∙◌, arith, Bool, true, false, Option, none, some, length, update,
}
use loony_rs_runtime.MultiThread.Deque.{Deque}
use loony_rs_runtime.MultiThread.Shared.{Shared}
use loony_rs_runtime.MultiThread.Pool.Places.{holds}
use loony_rs_runtime.MultiThread.Pool.{System, Pc, waiting, stopped, Stage, running, notified}

-- How a worker `i` changes who has the mutex, by whether its places before and after hold it.
pub data Hand (i : ℕ) (h : Option ℕ) (old new : Bool) : Option ℕ → Type 0 where
  keep : new ≡ old → Hand i h old new h
  take : h ≡ none → new ≡ true → Hand i h old new (some i)
  give : old ≡ true → new ≡ false → Hand i h old new none

Hand-held :
    {h h' : Option ℕ} (pc : ℕ → Pc) (i : ℕ) (p : Pc)
    → Hand i h (holds (pc i)) (holds p) h'
    → ((j : ℕ) → holds (pc j) ≡ true → h ≡ some j)
    → (j : ℕ) → holds (update pc i p j) ≡ true
    → h' ≡ some j
Hand-held pc i p (keep e) v j q = ground (arith, v i, v j, e)
Hand-held pc i p (take e f) v j q = ground (arith, v j, e)
Hand-held pc i p (give e f) v j q = absurd (ground (arith, v i, v j, e, f))

Hand-owner :
    {h h' : Option ℕ} (pc : ℕ → Pc) (i : ℕ) (p : Pc)
    → Hand i h (holds (pc i)) (holds p) h'
    → ((j : ℕ) → h ≡ some j → holds (pc j) ≡ true)
    → (j : ℕ) → h' ≡ some j
    → holds (update pc i p j) ≡ true
Hand-owner pc i p (keep e) v j q = ground (arith, v j, e)
Hand-owner pc i p (take e f) v j q = ground (arith, f)
Hand-owner pc i p (give e f) v j q = absurd (cc)

module _ {Task : Type 0} (D : Deque Task) (workers : ℕ) where
  open D use {Queue, view, new, steal, pop, push}

  pub record Inv (sh : Shared Queue) (h : Option ℕ) (pc : ℕ → Pc) (st : Stage) : Type 0 where
    pub wide : length sh.stealers ≡ workers
    pub absent : (i : ℕ) → workers ≤ i → pc i ≡ stopped
    pub held : (i : ℕ) → holds (pc i) ≡ true → h ≡ some i
    pub owner : (i : ℕ) → h ≡ some i → holds (pc i) ≡ true
    pub raised : st ≢ running → sh.shutdown ≡ true
    pub calm : st ≡ notified → (i : ℕ) → pc i ≢ waiting

  abbrev pub Good : System Task Queue → Type 0
  Good s = Inv s.shared s.holder s.pc s.stage

  pub move-Inv :
      {sh : Shared Queue} {h : Option ℕ} {st : Stage} (pc : ℕ → Pc) (sh' : Shared Queue)
      (h' : Option ℕ) (i : ℕ) (p : Pc)
      → Inv sh h pc st
      → pc i ≢ stopped
      → length sh'.stealers ≡ length sh.stealers
      → sh'.shutdown ≡ sh.shutdown
      → Hand i h (holds (pc i)) (holds p) h'
      → (p ≡ waiting → sh.shutdown ≡ false)
      → Inv sh' h' (update pc i p) st
  move-Inv pc sh' h' i p v there len flag hand sleeps = record {
    wide = len ∙ v.wide;
    absent = λ j l. ground (arith, v.absent j l);
    held = Hand-held pc i p hand v.held;
    owner = Hand-owner pc i p hand v.owner;
    raised = λ d. flag ∙ v.raised d;
    calm = λ e j q. ground (arith, v.calm e j, v.raised, sleeps);
  }
