-- ===== src/MultiThread/Pool/Awake.antt =====
-- Where the workers of a pool stand while tasks are pushed, and moves to a place that they come back from.
use loony_rs_runtime.Base.{
  ℕ, ◌+◌, ◌<◌, ◌%◌, ◌^◌, sym, ◌≡◌, ◌≢◌, ◌⊎◌, refl, ap, ◌∙◌, inr, arith, true, false, Option, none,
  some, [], update,
}
use mathlib.Core.Option.{some-injective}
use loony_rs_runtime.MultiThread.Deque.{Deque, Steal, empty, retry, success, Steals}
use loony_rs_runtime.MultiThread.Shared.{Shared}
use loony_rs_runtime.MultiThread.Worker.{check_for_work}
use loony_rs_runtime.MultiThread.Pool.Places.{holds, awake}
use loony_rs_runtime.MultiThread.Pool.{
  System, Pc, head, checking, testing, stopped, searched, checked,
}

module _ {Task : Type 0} (D : Deque Task) (workers : ℕ) where
  open D use {Queue, view, steal, pop, push, view-new, steal-Steals}

  -- Of the shared state, the holder of the mutex, the places and the notifications under way.
  pub record Inv (sh : Shared Queue) (h : Option ℕ) (pc : ℕ → Pc) (n : ℕ) : Type 0 where
    pub held : (i : ℕ) → holds (pc i) ≡ true → h ≡ some i
    pub tested : (i : ℕ) → pc i ≡ testing → n ≡ 0 → view sh.injector ≡ []
    pub ended : (i : ℕ) → sh.shutdown ≡ false → i < workers → pc i ≢ stopped
    pub alive :
        sh.shutdown ≡ false → n ≡ 0 → (view sh.injector ≡ []) ⊎ ((i : ℕ) × (awake (pc i) ≡ true))

  -- A worker goes to a place that it comes back from by itself.
  pub awake-Inv :
      {sh : Shared Queue} {h : Option ℕ} {pc : ℕ → Pc} {n : ℕ} (sh' : Shared Queue) (h' : Option ℕ)
      (i : ℕ) (p : Pc)
      → Inv sh h pc n
      → awake p ≡ true
      → sh'.shutdown ≡ sh.shutdown
      → (view sh.injector ≡ [] → view sh'.injector ≡ [])
      → ((j : ℕ) → i ≢ j → h ≡ some j → h' ≡ some j)
      → (holds p ≡ true → h' ≡ some i)
      → (p ≡ testing → view sh'.injector ≡ [])
      → Inv sh' h' (update pc i p) n
  awake-Inv sh' h' i p v up flag emptied others mine checked = record {
    held = λ j e. ground (arith, others j, mine, v.held j);
    tested = λ j e z. ground (arith, v.tested j, emptied, checked);
    ended = λ j f l e. ground (arith, v.ended j, up, flag);
    alive = λ f z. inr (i, ground (arith, up));
  }

  abbrev pub Good : System Task Queue → Type 0
  Good s = Inv s.shared s.holder s.pc s.notifying

  pub steal-empty : (q : Queue) → view q ≡ [] → view (steal q).1 ≡ []
  steal-empty q e = go (steal q).0 (steal-Steals q)
    where
      go : (r : Steal Task) → Steals r (view q) (view (steal q).1) → view (steal q).1 ≡ []
      go empty h = h.1
      go retry h = h ∙ e
      go (success t) h = absurd (cc)

  -- The check leaves an empty injector empty.
  pub check-empty :
      (q : Queue) (s : Shared Queue)
      → view s.injector ≡ []
      → view (check_for_work D q s).2.injector ≡ []
  unfolding check_for_work
  check-empty q s e = ground (arith, steal-empty s.injector e)

  pub check-shutdown :
      (q : Queue) (s : Shared Queue) → (check_for_work D q s).2.shutdown ≡ s.shutdown
  unfolding check_for_work
  check-shutdown q s = ground arith

  pub searched-Good :
      (i : ℕ) (next : Pc) (r : Option Task) (sh : Shared Queue) (s : System Task Queue)
      → Good s
      → awake next ≡ true
      → holds next ≡ false
      → sh.shutdown ≡ s.shared.shutdown
      → (view s.shared.injector ≡ [] → view sh.injector ≡ [])
      → Good (searched D i next r sh s)
  unfolding searched
  searched-Good i next (some t) sh s v up free flag emptied =
      awake-Inv sh s.holder i head v refl flag emptied (λ j d e. e) (λ e. absurd (cc))
        (λ e. absurd (cc))
  searched-Good i next none sh s v up free flag emptied =
      awake-Inv sh s.holder i next v up flag emptied (λ j d e. e) (λ e. absurd (cc))
        (λ e. absurd (cc (e, free)))

  pub checked-Good :
      (i : ℕ) (r : Option Task) (sh : Shared Queue) (s : System Task Queue)
      → Good s
      → s.pc i ≡ checking
      → sh.shutdown ≡ s.shared.shutdown
      → (view s.shared.injector ≡ [] → view sh.injector ≡ [])
      → (r ≡ none → view sh.injector ≡ [])
      → Good (checked D i r sh s)
  unfolding checked
  checked-Good i (some t) sh s v p flag emptied missed =
      awake-Inv (record sh { active = (sh.active + 1) % 2 ^ 64 }) none i head v refl flag emptied
        (λ j d e. absurd (d (some-injective i j (sym (v.held i (ap holds p)) ∙ e))))
        (λ e. absurd (cc)) (λ e. absurd (cc))
  checked-Good i none sh s v p flag emptied missed =
      awake-Inv sh s.holder i testing v refl flag emptied (λ j d e. e) (λ e. v.held i (ap holds p))
        (λ e. missed refl)
