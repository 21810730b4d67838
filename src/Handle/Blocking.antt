-- ===== src/Handle/Blocking.antt =====
-- When blocking on a handle returns.
use loony_rs_runtime.Base.{
  ℕ, zero, suc, ◌+◌, ◌≡◌, refl, ap, ◌∙◌, arith, Bool, true, false, ◌||◌, none, some, List, [], ◌∷◌,
}
use mathlib.Core.Path.{subst⁻¹}
use native.Mathlib.Nat.{zero-add, suc-add}
use loony_rs_runtime.MultiThread.Deque.{Deque}
use loony_rs_runtime.MultiThread.Shared.{Shared}
use loony_rs_runtime.Task.Header.{ready, pending, WakerCall, clone, wake, wake_by_ref, drop, Polled}
use loony_rs_runtime.Handle.BlockOn.{
  done, deadlocked, BlockOnState, lock, unlock, locked_call, waker_call, take_waker, call_waker,
  call_wakers, process_some_tasks, block_on_with_worker,
}

-- Whether one of the calls locks the state.
abbrev pub locks : List WakerCall → Bool
locks [] = false
locks (clone ∷ cs) = locks cs
locks (wake ∷ cs) = true
locks (wake_by_ref ∷ cs) = true
locks (drop ∷ cs) = locks cs

-- Whether one of the calls is `wake`.
abbrev pub wakes : List WakerCall → Bool
wakes [] = false
wakes (clone ∷ cs) = wakes cs
wakes (wake ∷ cs) = true
wakes (wake_by_ref ∷ cs) = wakes cs
wakes (drop ∷ cs) = wakes cs

module _ {F W : Type 0} where
  -- A call of the waker that gets the lock gives it back, and the future stays.
  locked_call-free :
      (c : WakerCall) (st : BlockOnState F W)
      → st.locked ≡ false
      → (st' : BlockOnState F W) × (locked_call c st ≡ some st')
        × (st'.completed ≡ (st.completed || wakes (c ∷ [])))
        × (st'.future ≡ st.future)
        × (st'.locked ≡ false)
  unfolding locked_call lock unlock waker_call take_waker
  locked_call-free c st l =
      let held = record st { locked = true } in
      (unlock (waker_call c held), rw l refl, after c st, kept c st, refl)
    where
      after :
          (c : WakerCall) (st : BlockOnState F W)
          → (unlock (waker_call c (record st { locked = true }))).completed
            ≡ (st.completed || wakes (c ∷ []))
      after clone st = ground arith
      after wake st = ground arith
      after wake_by_ref st = ground arith
      after drop st = ground arith

      kept :
          (c : WakerCall) (st : BlockOnState F W)
          → (unlock (waker_call c (record st { locked = true }))).future ≡ st.future
      kept clone st = refl
      kept wake st = ground arith
      kept wake_by_ref st = ground arith
      kept drop st = refl

  -- While nobody holds the lock, all calls of the waker return.
  call_wakers-free :
      (cs : List WakerCall) (st : BlockOnState F W)
      → st.locked ≡ false
      → (st' : BlockOnState F W) × (call_wakers cs st ≡ some st')
        × (st'.completed ≡ (st.completed || wakes cs))
        × (st'.future ≡ st.future)
        × (st'.locked ≡ false)
  unfolding call_wakers
  call_wakers-free [] st l = (st, refl, ground arith, refl, l)
  call_wakers-free (clone ∷ cs) st l = call_wakers-free cs st l
  call_wakers-free (wake ∷ cs) st l =
      let (st1, e, c, f, l1) = locked_call-free wake st l in
      let (st2, e', c', f', l2) = call_wakers-free cs st1 l1 in
      (st2, rw (call_wakers, call_waker, e) e', ground (arith, c, c'), f' ∙ f, l2)
  call_wakers-free (wake_by_ref ∷ cs) st l =
      let (st1, e, c, f, l1) = locked_call-free wake_by_ref st l in
      let (st2, e', c', f', l2) = call_wakers-free cs st1 l1 in
      (st2, rw (call_wakers, call_waker, e) e', ground (arith, c, c'), f' ∙ f, l2)
  call_wakers-free (drop ∷ cs) st l = call_wakers-free cs st l

  -- Calls that do not lock change nothing.
  call_wakers-silent :
      (cs : List WakerCall) (st : BlockOnState F W) → locks cs ≡ false → call_wakers cs st ≡ some st
  unfolding call_wakers
  call_wakers-silent [] st q = refl
  call_wakers-silent (clone ∷ cs) st q = call_wakers-silent cs st q
  call_wakers-silent (wake ∷ cs) st q = absurd (ground arith)
  call_wakers-silent (wake_by_ref ∷ cs) st q = absurd (ground arith)
  call_wakers-silent (drop ∷ cs) st q = call_wakers-silent cs st q

  -- Under the lock, the first call that locks never returns.
  call_wakers-held :
      (cs : List WakerCall) (st : BlockOnState F W)
      → st.locked ≡ true
      → locks cs ≡ true
      → call_wakers cs st ≡ none
  unfolding call_wakers locked_call lock
  call_wakers-held [] st l q = absurd (ground arith)
  call_wakers-held (clone ∷ cs) st l q = call_wakers-held cs st l q
  call_wakers-held (wake ∷ cs) st l q = rw l refl
  call_wakers-held (wake_by_ref ∷ cs) st l q = rw l refl
  call_wakers-held (drop ∷ cs) st l q = call_wakers-held cs st l q

module _ {Task F T : Type 0} (D : Deque Task) (spawns : Task → List Task)
    (poll_future : F → Polled F T) where
  open D use {Queue}

  -- The future becomes `g` after `k` polls that answer `Pending`, from the round `n` on; none of them
  -- locks, and nobody calls `wake` on the waker after one of them.
  abbrev pub Waits : (ℕ → List WakerCall) → ℕ → ℕ → F → F → Type 0
  Waits between zero n f g = f ≡ g
  Waits between (suc k) n f g =
      ((poll_future f).result ≡ pending)
      × (locks (poll_future f).calls ≡ false)
      × (wakes (between n) ≡ false)
      × Waits between k (suc n) (poll_future f).next g

  waits_once :
      (between : ℕ → List WakerCall) (m n : ℕ) (st : BlockOnState F ℕ) (s : Shared Queue)
      → st.completed ≡ false
      → st.locked ≡ false
      → (poll_future st.future).result ≡ pending
      → locks (poll_future st.future).calls ≡ false
      → (st' : BlockOnState F ℕ) × (st'.completed ≡ wakes (between n))
        × (st'.locked ≡ false)
        × (st'.future ≡ (poll_future st.future).next)
        × (block_on_with_worker D spawns poll_future between (suc m) n st s
            ≡ block_on_with_worker D spawns poll_future between m
                (suc n)
                st'
                (process_some_tasks D spawns s).1)
  unfolding block_on_with_worker lock unlock
  waits_once between m n st s c l p q =
      let polled = record st { future = (poll_future st.future).next; locked = true } in
      let (st', e, done_then, same, free) = call_wakers-free (between n) (unlock polled) refl in
      (
        st',
        done_then ∙ rw c refl,
        free,
        same,
        rw (l, call_wakers-silent (poll_future st.future).calls polled q, p, e, c) refl,
      )

  round_locks :
      (between : ℕ → List WakerCall) (m n : ℕ) (st : BlockOnState F ℕ) (s : Shared Queue)
      → st.completed ≡ false
      → st.locked ≡ false
      → locks (poll_future st.future).calls ≡ true
      → block_on_with_worker D spawns poll_future between (suc m) n st s ≡ deadlocked
  unfolding block_on_with_worker lock
  round_locks between m n st s c l q =
      let p = poll_future st.future in
      rw (l, call_wakers-held p.calls (record st { future = p.next; locked = true }) refl q, c) refl

  round_ready :
      (between : ℕ → List WakerCall) (m n : ℕ) (st : BlockOnState F ℕ) (t : T) (s : Shared Queue)
      → st.completed ≡ false
      → st.locked ≡ false
      → (poll_future st.future).result ≡ ready t
      → locks (poll_future st.future).calls ≡ false
      → block_on_with_worker D spawns poll_future between (suc m) n st s ≡ done (t, s)
  unfolding block_on_with_worker lock
  round_ready between m n st t s c l p q =
      let next = (poll_future st.future).next in
      rw
        (
          l,
          call_wakers-silent (poll_future st.future).calls
              (record st { future = next; locked = true }) q,
          p,
          c,
        )
        refl

  -- The waiting rounds change nothing but the future, what was woken and the tasks.
  waits_lem :
      (between : ℕ → List WakerCall) (k more n : ℕ) (g : F) (st : BlockOnState F ℕ)
      (s : Shared Queue)
      → st.completed ≡ false
      → st.locked ≡ false
      → Waits between k n st.future g
      → (st' : BlockOnState F ℕ) × (s' : Shared Queue) × (st'.future ≡ g)
        × (st'.completed ≡ false)
        × (st'.locked ≡ false)
        × (block_on_with_worker D spawns poll_future between (k + more) n st s
            ≡ block_on_with_worker D spawns poll_future between more (k + n) st' s')
  waits_lem between zero more n g st s c l w = (st, s, w, c, l, simp (zero-add))
  waits_lem between (suc k) more n g st s c l w =
      let s1 = (process_some_tasks D spawns s).1 in
      let (st1, c1, l1, f1, went) = waits_once between (k + more) n st s c l w.0 w.1 in
      let (st', s', future, fresh, free, ran) =
        waits_lem between k more (suc n) g st1 s1 (c1 ∙ w.2) l1
          (subst⁻¹ (λ h. Waits between k (suc n) h g) f1 w.3) in
      (
        st',
        s',
        future,
        fresh,
        free,
        ap (λ m. block_on_with_worker D spawns poll_future between m n st s) (suc-add k more)
            ∙ went
            ∙ ran
            ∙ ap (λ m. block_on_with_worker D spawns poll_future between more m st' s')
                (omega arith),
      )

  abbrev pub starting : F → BlockOnState F ℕ
  starting f = record { future = f; waker = none; completed = false; locked = false; woken = [] }

  -- A future that wakes its waker while it is polled never lets `block_on_with_worker` return: the
  -- waker locks the state, which the loop has locked for the poll.
  pub self_wake_deadlocks :
      (between : ℕ → List WakerCall) (k : ℕ) (f g : F) (s : Shared Queue)
      → Waits between k 0 f g
      → locks (poll_future g).calls ≡ true
      → block_on_with_worker D spawns poll_future between (suc k) 0 (starting f) s ≡ deadlocked
  self_wake_deadlocks between k f g s w l =
      let (st', s', future, fresh, free, ran) =
        waits_lem between k 1 0 g (starting f) s refl refl w in
      ap (λ m. block_on_with_worker D spawns poll_future between m 0 (starting f) s) (omega arith)
      ∙ ran
      ∙ round_locks between 0 (k + 0) st' s' fresh free (rw future l)

  -- A future that is ready after some polls, none of which wakes, and with nobody who calls `wake`
  -- between them, has its output returned.
  pub unwoken_returns :
      (between : ℕ → List WakerCall) (k : ℕ) (f g : F) (t : T) (s : Shared Queue)
      → Waits between k 0 f g
      → (poll_future g).result ≡ ready t
      → locks (poll_future g).calls ≡ false
      → (s' : Shared Queue) × (block_on_with_worker D spawns poll_future between
            (suc k)
            0
            (starting f)
            s
          ≡ done (t, s'))
  unwoken_returns between k f g t s w p l =
      let (st', s', future, fresh, free, ran) =
        waits_lem between k 1 0 g (starting f) s refl refl w in
      (
        s',
        ap (λ m. block_on_with_worker D spawns poll_future between m 0 (starting f) s) (omega arith)
            ∙ ran
            ∙ round_ready between 0 (k + 0) st' t s' fresh free (rw future p) (rw future l),
      )
