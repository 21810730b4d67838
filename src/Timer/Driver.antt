-- ===== src/Timer/Driver.antt =====
-- `TimeDriver` of src/time/mod.rs with all its futures: nothing else in the repository has access to
-- `TimeDriverInner`.
use loony_rs_runtime.Base.{
  ℕ, zero, suc, ◌+◌, ◌≡◌, refl, arith, false, if◌then◌else◌, none, List, [], ◌∷◌, ◌++◌, length,
}
use loony_rs_runtime.Timer.{TimerEntry, Sleep, TimeDriverInner, sleep, poll_sleep}

-- `TimeDriver::new`
unfoldable pub new : {W : Type 0} → TimeDriverInner W
new = record { timers = []; waker = none; woken = [] }

-- `TimeDriver::sleep` at an instant, and a poll of one of the futures at an instant.
pub data Call (W : Type 0) : Type 0 where
  sleeps : (now duration : ℕ) → Call W
  polls : (index now : ℕ) → W → Call W

abbrev pub registered : List Sleep → ℕ
registered [] = 0
registered (s ∷ ss) = (if s.registered then 1 else 0) + registered ss

registered-append :
    (ss : List Sleep) (s : Sleep) → s.registered ≡ false → registered (ss ++ s ∷ []) ≡ registered ss
registered-append [] s new' = ground arith
registered-append (t ∷ ss) s new' = omega (arith, registered-append ss s new')

module _ {W : Type 0} where
  -- The poll of the future with this index, if there is one.
  unfoldable pub poll_at :
      ℕ → ℕ → W → List Sleep → TimeDriverInner W → List Sleep × TimeDriverInner W
  unfolding poll_sleep
  poll_at index now w [] inner = ([], inner)
  poll_at zero now w (s ∷ ss) inner = let r = poll_sleep now w (s, inner) in (r.1 ∷ ss, r.2)
  poll_at (suc index) now w (s ∷ ss) inner =
      let rest = poll_at index now w ss inner in (s ∷ rest.0, rest.1)

  unfoldable pub act : Call W → List Sleep × TimeDriverInner W → List Sleep × TimeDriverInner W
  unfolding sleep poll_at
  act (sleeps now duration) (ss, inner) = (ss ++ sleep now duration ∷ [], inner)
  act (polls index now w) (ss, inner) = poll_at index now w ss inner

  unfoldable pub acts :
      List (Call W) → List Sleep × TimeDriverInner W → List Sleep × TimeDriverInner W
  acts [] s = s
  acts (c ∷ cs) s = acts cs (act c s)

  -- No waker of a driver's thread, no waker woken, and an entry for each future that has registered.
  record Inv (s : List Sleep × TimeDriverInner W) : Type 0 where
    threadless : s.1.waker ≡ none
    silent : s.1.woken ≡ []
    entries : length s.1.timers ≡ registered s.0

  length-snoc :
      (es : List (TimerEntry W)) (e : TimerEntry W) → length (es ++ e ∷ []) ≡ length es + 1
  length-snoc [] e = refl
  length-snoc (x ∷ es) e = omega (arith, length-snoc es e)

  poll_at-Inv :
      (index now : ℕ) (w : W) (ss : List Sleep) (inner : TimeDriverInner W) (more : ℕ)
      → inner.waker ≡ none
      → inner.woken ≡ []
      → length inner.timers ≡ registered ss + more
      → let (ss', inner') = poll_at index now w ss inner in
        (inner'.waker ≡ none) × (inner'.woken ≡ []) × (length inner'.timers ≡ registered ss' + more)
  unfolding poll_at poll_sleep
  poll_at-Inv index now w [] inner more a b c = (a, b, c)
  poll_at-Inv zero now w (s ∷ ss) inner more a b c =
      ground (arith, length-snoc inner.timers (record { deadline = s.deadline; waker = w }))
  poll_at-Inv (suc index) now w (s ∷ ss) inner more a b c =
      let one = if s.registered then 1 else 0 in
      let (a', b', c') = poll_at-Inv index now w ss inner (one + more) a b (omega (arith, c)) in
      (a', b', omega (arith, c'))

  act-Inv : (c : Call W) (s : List Sleep × TimeDriverInner W) → Inv s → Inv (act c s)
  unfolding act sleep
  act-Inv (sleeps now duration) (ss, inner) v = record {
    threadless = v.threadless;
    silent = v.silent;
    entries = ground (arith, v.entries, registered-append ss (sleep now duration) refl);
  }
  act-Inv (polls index now w) (ss, inner) v =
      let (a, b, c) =
        poll_at-Inv index now w ss inner 0 v.threadless v.silent (omega (arith, v.entries)) in
      record { threadless = a; silent = b; entries = omega (arith, c) }

  acts-Inv : (cs : List (Call W)) (s : List Sleep × TimeDriverInner W) → Inv s → Inv (acts cs s)
  unfolding acts
  acts-Inv [] s v = v
  acts-Inv (c ∷ cs) s v = acts-Inv cs (act c s) (act-Inv c s v)

  -- Whatever is done with a new `TimeDriver` and its futures, it keeps an entry for each future that has
  -- registered, its deadline past or not, and it has woken no waker.
  pub driver_wakes_nobody :
      (cs : List (Call W))
      → let (ss, inner) = acts cs ([], new) in
        (inner.woken ≡ []) × (length inner.timers ≡ registered ss)
  unfolding new
  driver_wakes_nobody cs =
      let v = acts-Inv cs ([], new) (record { threadless = refl; silent = refl; entries = refl }) in
      (v.silent, v.entries)
