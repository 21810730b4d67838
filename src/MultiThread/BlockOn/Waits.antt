-- ===== src/MultiThread/BlockOn/Waits.antt =====
-- When `MultiThread::block_on` parks, and that it returns.
use loony_rs_runtime.Base.{
  ℕ, zero, suc, ◌≡◌, ◌≢◌, ◌↔◌, refl, ap, arith, inl, inr, Option-cases, Option, none, some, List,
  [], ◌∷◌, length, total,
}
use loony_rs_runtime.MultiThread.Deque.{Deque, Steal, empty, retry, success, Steals}
use loony_rs_runtime.MultiThread.Shared.{Shared}
use loony_rs_runtime.MultiThread.Steal.{to_option, steal_first, steal_work}
use loony_rs_runtime.MultiThread.Steal.Conserve.{queued, load, one, steal_work-load}
use loony_rs_runtime.MultiThread.BlockOn.{Waited, parks, wait, block_on}
use loony_rs_runtime.Handle.BlockOn.{spawn_all}

module _ {Task : Type 0} (D : Deque Task) (spawns : Task → List Task) where
  open D use {Queue, view, steal, len, steal-Steals, len-view}

  total-one : (ts : List Task) → total (one D) ts ≡ length ts
  total-one [] = refl
  total-one (t ∷ ts) = omega (arith, total-one ts)

  module _ (prompt : (q : Queue) → (steal q).0 ≢ retry) where
    steal_none :
        (q : Queue)
        → to_option (steal q).0 ≡ none
        → (queued D (one D) q ≡ 0) × (queued D (one D) (steal q).1 ≡ 0)
    steal_none q e = go (steal q).0 e (steal-Steals q) (prompt q)
      where
        go :
            (r : Steal Task)
            → to_option r ≡ none
            → Steals r (view q) (view (steal q).1)
            → r ≢ retry
            → (queued D (one D) q ≡ 0) × (queued D (one D) (steal q).1 ≡ 0)
        go empty e s p = (ap (total (one D)) s.0, ap (total (one D)) s.1)
        go retry e s p = absurd (p refl)
        go (success t) e s p = absurd (cc)

    steal_first-none :
        (qs : List Queue) → (steal_first D qs).0 ≡ none → total (queued D (one D)) qs ≡ 0
    unfolding steal_first
    steal_first-none [] e = refl
    steal_first-none (q ∷ qs) e =
        let found : to_option (steal q).0 ≡ none = ground arith in
        let rest : (steal_first D qs).0 ≡ none = ground arith in
        omega (arith, steal_none q found, steal_first-none qs rest)

    steal_work-none : (s : Shared Queue) → (steal_work D s).0 ≡ none → load D (one D) s ≡ 0
    unfolding steal_work
    steal_work-none s e =
        let found : (steal_first D s.stealers).0 ≡ none = ground arith in
        let mine : to_option (steal s.injector).0 ≡ none = ground arith in
        omega (arith, steal_none s.injector mine, steal_first-none s.stealers found)

    -- Where no steal has to be retried, the thread parks exactly if there is no task in the injector
    -- and in the queues of the workers.
    pub wait-parks_iff : (s : Shared Queue) → ((wait D spawns s).0 ≡ parks) ↔ (load D (one D) s ≡ 0)
    unfolding wait
    wait-parks_iff s = (
      λ e. elim (Option-cases (steal_work D s).0) [
        | inl p ↦ steal_work-none s p
        | inr (t, p) ↦ absurd (ground arith)
      ],
      λ e. elim (Option-cases (steal_work D s).0) [
        | inl p ↦ ground (
          arith,
          steal_work-load D (one D) s,
          len-view (steal_work D s).1.injector,
          total-one (view (steal_work D s).1.injector),
        )
        | inr (t, p) ↦ absurd (ground (arith, steal_work-load D (one D) s))
      ],
    )

  module _ {F T : Type 0} (poll_future : F → List Task × F × Option T) where
    -- The future is ready with `t` at the poll after `k` others.
    abbrev pub Ready : ℕ → F → T → Type 0
    Ready zero f t = (poll_future f).2 ≡ some t
    Ready (suc k) f t = ((poll_future f).2 ≡ none) × Ready k (poll_future f).1 t

    -- `MultiThread::block_on` returns the output of a future that gets ready, having helped, parked
    -- or yielded once after each poll before.
    pub mt_block_on_returns :
        (k : ℕ) (f : F) (t : T) (s : Shared Queue)
        → Ready k f t
        → (ws : List (Waited Task)) × (s' : Shared Queue) × (block_on D spawns poll_future
              (suc k)
              f
              s
            ≡ some (t, ws, s'))
          × (length ws ≡ k)
    unfolding block_on
    mt_block_on_returns zero f t s r =
        ([], spawn_all D spawns (poll_future f).0 s, ground (arith, r), refl)
    mt_block_on_returns (suc k) f t s r =
        let s1 = spawn_all D spawns (poll_future f).0 s in
        let (ws, s', e, n) = mt_block_on_returns k (poll_future f).1 t (wait D spawns s1).1 r.1 in
        ((wait D spawns s1).0 ∷ ws, s', ground (arith, r.0, e), ap suc n)
