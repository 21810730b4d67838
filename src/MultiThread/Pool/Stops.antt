-- ===== src/MultiThread/Pool/Stops.antt =====
-- What the workers of a pool do after a shutdown.
use loony_rs_runtime.Base.{
  ℕ, suc, ◌+◌, ◌*◌, ◌<◌, ◌≤◌, ◌≡◌, ◌≢◌, ◌⊎◌, refl, ap, ◌∙◌, arith, true, inl, inr, Option, none,
  some, Option-cases, get_elem?, get_elem?-lt, update, dec_lt,
}
use loony_rs_runtime.MultiThread.Deque.{Deque}
use loony_rs_runtime.MultiThread.Shared.{Shared}
use loony_rs_runtime.MultiThread.Steal.{steal_work}
use loony_rs_runtime.MultiThread.Pool.Places.{
  holds, rank, ranks, ranks_bound, ranks-update, all_stopped,
}
use loony_rs_runtime.MultiThread.Pool.Mutex.{Good}
use loony_rs_runtime.MultiThread.Pool.Shutdown.{Reach-Good, Run-Good}
use loony_rs_runtime.MultiThread.Pool.{
  System, Pc, head, popping, stealing, asking, locking, checking, testing, waiting, woken, stopped,
  notified, searched, checked, after_check, Work, enter, leave, pops, steals, asks, lock, checks,
  wait, quit, relock, Other, spurious, push_task, notify_waiting, notify_nobody, helped, help,
  help_process, store, notify_all, Reach, Run, here, works, others,
}

module _ {Task : Type 0} (D : Deque Task) (workers : ℕ) where
  open D use {Queue}

  -- A worker has moved to a place from where it takes fewer steps.
  abbrev Lowers : System Task Queue → ℕ → System Task Queue → Type 0
  Lowers s i t =
      (p : Pc) × (t.pc ≡ update s.pc i p) × (suc (rank p) ≤ rank (s.pc i)) × (t.stage ≡ s.stage)

  searched-Lowers :
      (i : ℕ) (next : Pc) (r : Option Task) (sh : Shared Queue) (s : System Task Queue)
      → suc (rank head) ≤ rank (s.pc i)
      → suc (rank next) ≤ rank (s.pc i)
      → Lowers s i (searched D i next r sh s)
  unfolding searched
  searched-Lowers i next (some t) sh s up down = (head, refl, up, refl)
  searched-Lowers i next none sh s up down = (next, refl, down, refl)

  checked-Lowers :
      (i : ℕ) (r : Option Task) (sh : Shared Queue) (s : System Task Queue)
      → s.pc i ≡ checking
      → Lowers s i (checked D i r sh s)
  unfolding checked
  checked-Lowers i (some t) sh s p = (head, refl, ground (arith, p), refl)
  checked-Lowers i none sh s p = (testing, refl, ground (arith, p), refl)

  Work-Lowers :
      {s : System Task Queue} {i : ℕ} {t : System Task Queue}
      → Work D s i t
      → s.shared.shutdown ≡ true
      → Lowers s i t
  unfolding after_check
  Work-Lowers (enter p f) down = absurd (cc (f, down))
  Work-Lowers (leave p f) down = (stopped, refl, ground (arith, p), refl)
  Work-Lowers {s} {i} (pops q p e) down =
      searched-Lowers i _ _ _ s (ground (arith, p)) (ground (arith, p))
  Work-Lowers {s} {i} (steals p) down =
      searched-Lowers i _ _ _ s (ground (arith, p)) (ground (arith, p))
  Work-Lowers {s} {i} (asks p) down =
      searched-Lowers i _ _ _ s (ground (arith, p)) (ground (arith, p))
  Work-Lowers (lock p f) down = (checking, refl, ground (arith, p), refl)
  Work-Lowers {s} {i} (checks q p e) down = checked-Lowers i _ _ s p
  Work-Lowers (wait p f) down = absurd (cc (f, down))
  Work-Lowers (quit p f) down = (head, refl, ground (arith, p), refl)
  Work-Lowers (relock p f) down = (checking, refl, ground (arith, p), refl)

  -- The others leave the places of the workers.
  helped-pc :
      (r : Option Task × Shared Queue) (s : System Task Queue)
      → ((helped D r s).pc ≡ s.pc) × ((helped D r s).stage ≡ s.stage)
  unfolding helped
  helped-pc (none, sh) s = (refl, refl)
  helped-pc (some t, sh) s = (refl, refl)

  Other-pc :
      {s t : System Task Queue}
      → Other D s t
      → Good D workers s
      → s.stage ≡ notified
      → (t.pc ≡ s.pc) × (t.stage ≡ notified)
  Other-pc {s} help v e =
      let (same, stays) = helped-pc (steal_work D s.shared) s in (same, stays ∙ e)
  Other-pc {s} help_process v e = let (same, stays) = helped-pc _ s in (same, stays ∙ e)
  Other-pc (spurious i p) v e = absurd (v.calm e i p)
  Other-pc (push_task t) v e = (refl, e)
  Other-pc (notify_waiting i n free z p) v e = absurd (v.calm e i p)
  Other-pc (notify_nobody n free z nobody) v e = (refl, e)
  Other-pc (store q) v e = absurd (cc (q, e))
  Other-pc (notify_all q free) v e = absurd (cc (q, e))

  raised_lem :
      (s : System Task Queue) → Good D workers s → s.stage ≡ notified → s.shared.shutdown ≡ true
  raised_lem s v e = v.raised (λ q. absurd (cc (q, e)))

  -- A worker that steps is one of the pool.
  pub here_lt :
      (s : System Task Queue) → Good D workers s → (i : ℕ) → s.pc i ≢ stopped → i < workers
  here_lt s v i d = elim (dec_lt i workers) [
    | yes l ↦ l
    | no l ↦ absurd (d (v.absent i (omega (arith, l))))
  ]

  Run-ranks :
      {s : System Task Queue} {k : ℕ} {t : System Task Queue}
      → Run D s k t
      → Good D workers s
      → s.stage ≡ notified
      → (k + ranks t.pc workers ≤ ranks s.pc workers) × (t.stage ≡ notified)
  Run-ranks here v e = (omega arith, e)
  Run-ranks {s} (works {t} i r w) v e =
      let (before, e') = Run-ranks r v e in
      let v' = Run-Good D workers r v in
      let (p, moved, lower, same) = Work-Lowers w (raised_lem t v' e') in
      let lt = here_lt t v' i (λ q. absurd (ground (arith, lower, q))) in
      (rw moved (omega (arith, before, lower, ranks-update t.pc i workers p lt)), same ∙ e')
  Run-ranks (others r o) v e =
      let (before, e') = Run-ranks r v e in
      let (same, e'') = Other-pc o (Run-Good D workers r v) e' in (rw same before, e'')

  -- The queue of a worker of the pool is there.
  own :
      (s : System Task Queue) (i : ℕ)
      → Good D workers s
      → s.pc i ≢ stopped
      → (q : Queue) × (get_elem? s.shared.stealers i ≡ some q)
  own s i v d = get_elem?-lt s.shared.stealers i (rw v.wide (here_lt s v i d))

  -- Who has the mutex can step.
  holder_steps :
      (s : System Task Queue)
      → Good D workers s
      → s.stage ≡ notified
      → (j : ℕ) → holds (s.pc j) ≡ true
      → (j : ℕ) × (t : System Task Queue) × Work D s j t
  holder_steps s v e j h = go (s.pc j) refl h
    where
      go : (p : Pc) → s.pc j ≡ p → holds p ≡ true → (j : ℕ) × (t : System Task Queue) × Work D s j t
      go checking p h =
          let (q, at_j) = own s j v (λ q. absurd (cc (p, q))) in (j, _, checks q p at_j)
      go testing p h = (j, _, quit p (raised_lem s v e))
      go head p h = absurd (cc)
      go popping p h = absurd (cc)
      go stealing p h = absurd (cc)
      go asking p h = absurd (cc)
      go locking p h = absurd (cc)
      go waiting p h = absurd (cc)
      go woken p h = absurd (cc)
      go stopped p h = absurd (cc)

  -- A worker that has not ended can step, or the one that has the mutex can.
  steps_on :
      (s : System Task Queue) (i : ℕ) (p : Pc)
      → Good D workers s
      → s.stage ≡ notified
      → s.pc i ≡ p
      → p ≢ stopped
      → (j : ℕ) × (t : System Task Queue) × Work D s j t
  steps_on s i head v e p d = (i, _, leave p (raised_lem s v e))
  steps_on s i popping v e p d =
      let (q, at_i) = own s i v (λ q. absurd (cc (p, q))) in (i, _, pops q p at_i)
  steps_on s i stealing v e p d = (i, _, steals p)
  steps_on s i asking v e p d = (i, _, asks p)
  steps_on s i locking v e p d = elim (Option-cases s.holder) [
    | inl free ↦ (i, _, lock p free)
    | inr (j, h) ↦ holder_steps s v e j (v.owner j h)
  ]
  steps_on s i checking v e p d = holder_steps s v e i (ap holds p)
  steps_on s i testing v e p d = holder_steps s v e i (ap holds p)
  steps_on s i waiting v e p d = absurd (v.calm e i p)
  steps_on s i woken v e p d = elim (Option-cases s.holder) [
    | inl free ↦ (i, _, relock p free)
    | inr (j, h) ↦ holder_steps s v e j (v.owner j h)
  ]
  steps_on s i stopped v e p d = absurd (d refl)

  -- Once a shutdown has notified the workers, whatever is pushed and however the steps follow one
  -- another, the workers take at most seven steps each together, a run of a task being one, and as
  -- long as not all of them have ended one of them can take a step.
  pub pool_stops :
      {s : System Task Queue} {k : ℕ} {t : System Task Queue}
      → Reach D workers s
      → s.stage ≡ notified
      → Run D s k t
      → (k ≤ 7 * workers)
        × (((i : ℕ) → i < workers → t.pc i ≡ stopped)
            ⊎ ((i : ℕ) × (u : System Task Queue) × Work D t i u))
  pool_stops {s} {k} {t} r e run =
      let v = Reach-Good D workers r in
      let (bound, e') = Run-ranks run v e in
      (
        omega (arith, bound, ranks_bound s.pc workers),
        elim (all_stopped t.pc workers) [
          | inl all ↦ inl all
          | inr (i, d) ↦ inr (steps_on t i (t.pc i) (Run-Good D workers run v) e' refl d)
        ],
      )
