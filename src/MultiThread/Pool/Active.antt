-- ===== src/MultiThread/Pool/Active.antt =====
-- What the count of the active workers says.
use loony_rs_runtime.Base.{
  ℕ, zero, suc, ltb, if◌then◌else◌, ◌+◌, ◌-◌, ◌%◌, ◌^◌, ◌<◌, ◌≡◌, ◌≢◌, refl, sym, ap, ◌∙◌, arith,
  Option, none, some, update,
}
use loony_rs_runtime.MultiThread.Deque.{Deque}
use loony_rs_runtime.MultiThread.Shared.{Shared, new_shared, notify_worker, notify_all_workers}
use loony_rs_runtime.MultiThread.Steal.{steal_others, steal_work}
use loony_rs_runtime.MultiThread.Worker.{check_for_work}
use loony_rs_runtime.MultiThread.Pool.Places.{
  asleep, weights, weights-update, asleep_bound, asleep-wake_up,
}
use loony_rs_runtime.MultiThread.Pool.{
  System, Pc, head, popping, stealing, asking, locking, checking, testing, waiting, woken, stopped,
  searched, checked, after_check, Work, enter, leave, pops, steals, asks, lock, checks, wait, quit,
  relock, Other, work, other, spurious, push_task, notify_waiting, notify_nobody, helped, help,
  help_process, store, notify_all, start, Reach, begin, later,
}
use loony_rs_runtime.MultiThread.Pool.Mutex.{Good}
use loony_rs_runtime.MultiThread.Pool.Shutdown.{Reach-Good}
use loony_rs_runtime.MultiThread.Pool.Stops.{here_lt}

module _ {Task : Type 0} (D : Deque Task) (workers : ℕ) where
  open D use {Queue}

  -- Every worker counts as active, or stands in a place where it has taken itself off.
  abbrev Counts : ℕ → (ℕ → Pc) → Type 0
  Counts active pc = active + weights asleep pc workers ≡ workers

  abbrev Counted : System Task Queue → Type 0
  Counted s = Counts s.shared.active s.pc

  -- A worker moves between two places that weigh the same.
  stays :
      (active : ℕ) (pc : ℕ → Pc) (i : ℕ) (p : Pc)
      → i < workers
      → asleep p ≡ asleep (pc i)
      → Counts active pc
      → Counts active (update pc i p)
  stays active pc i p lt same c = omega (arith, weights-update asleep pc i workers p lt, same, c)

  -- It takes itself off, or counts itself again.
  goes :
      (active : ℕ) (pc : ℕ → Pc) (i : ℕ) (p : Pc)
      → workers < 2 ^ 64
      → i < workers
      → asleep (pc i) ≡ 0
      → asleep p ≡ 1
      → Counts active pc
      → Counts ((active + 2 ^ 64 - 1) % 2 ^ 64) (update pc i p)
  goes active pc i p small lt awake off c = omega (
    arith,
    weights-update asleep pc i workers p lt,
    asleep_bound (update pc i p) workers,
    awake,
    off,
    c,
  )

  comes :
      (active : ℕ) (pc : ℕ → Pc) (i : ℕ) (p : Pc)
      → workers < 2 ^ 64
      → i < workers
      → asleep (pc i) ≡ 1
      → asleep p ≡ 0
      → Counts active pc
      → Counts ((active + 1) % 2 ^ 64) (update pc i p)
  comes active pc i p small lt off awake c = omega (
    arith,
    weights-update asleep pc i workers p lt,
    asleep_bound (update pc i p) workers,
    awake,
    off,
    c,
  )

  searched-Counted :
      (i : ℕ) (next : Pc) (r : Option Task) (sh : Shared Queue) (s : System Task Queue)
      → i < workers
      → asleep (s.pc i) ≡ 0
      → asleep next ≡ 0
      → sh.active ≡ s.shared.active
      → Counted s
      → Counted (searched D i next r sh s)
  unfolding searched
  searched-Counted i next (some t) sh s lt from to same c =
      rw same (stays s.shared.active s.pc i head lt (sym from) c)
  searched-Counted i next none sh s lt from to same c =
      rw same (stays s.shared.active s.pc i next lt (to ∙ sym from) c)

  checked-Counted :
      (i : ℕ) (r : Option Task) (sh : Shared Queue) (s : System Task Queue)
      → workers < 2 ^ 64
      → i < workers
      → s.pc i ≡ checking
      → sh.active ≡ s.shared.active
      → Counted s
      → Counted (checked D i r sh s)
  unfolding checked
  checked-Counted i (some t) sh s small lt p same c =
      rw same (comes s.shared.active s.pc i head small lt (ap asleep p) refl c)
  checked-Counted i none sh s small lt p same c =
      rw same (stays s.shared.active s.pc i testing lt (sym (ap asleep p)) c)

  steal_others-active : (i : ℕ) (s : Shared Queue) → (steal_others D i s).1.active ≡ s.active
  unfolding steal_others
  steal_others-active i s = refl

  steal_work-active : (s : Shared Queue) → (steal_work D s).1.active ≡ s.active
  unfolding steal_work
  steal_work-active s = ground arith

  check-active : (q : Queue) (s : Shared Queue) → (check_for_work D q s).2.active ≡ s.active
  unfolding check_for_work
  check-active q s = ground arith

  notify_worker-active : (s : Shared Queue) → (notify_worker s).active ≡ s.active
  unfolding notify_worker
  notify_worker-active s = ground arith

  Work-Counted :
      {s : System Task Queue} {i : ℕ} {t : System Task Queue}
      → workers < 2 ^ 64
      → Work D s i t
      → Good D workers s
      → Counted s
      → Counted t
  unfolding after_check
  Work-Counted {s} {i} small w v c = go w
    where
      among : (p : Pc) → s.pc i ≡ p → p ≢ stopped → i < workers
      among p e d = here_lt D workers s v i (λ q. d (sym e ∙ q))

      go : {t : System Task Queue} → Work D s i t → Counted t
      go (enter p f) =
          stays s.shared.active s.pc i popping (among head p (λ e. absurd (cc))) (sym (ap asleep p))
            c
      go (leave p f) =
          stays s.shared.active s.pc i stopped (among head p (λ e. absurd (cc))) (sym (ap asleep p))
            c
      go (pops q p e) =
          searched-Counted i stealing _ _ s (among popping p (λ e. absurd (cc))) (ap asleep p) refl
            refl c
      go (steals p) =
          searched-Counted i asking _ _ s (among stealing p (λ e. absurd (cc))) (ap asleep p) refl
            (steal_others-active i s.shared) c
      go (asks p) =
          searched-Counted i locking _ _ s (among asking p (λ e. absurd (cc))) (ap asleep p) refl
            refl c
      go (lock p f) =
          goes s.shared.active s.pc i checking small (among locking p (λ e. absurd (cc)))
            (ap asleep p) refl c
      go (checks q p e) =
          checked-Counted i _ _ s small (among checking p (λ e. absurd (cc))) p
            (check-active q s.shared) c
      go (wait p f) =
          stays s.shared.active s.pc i waiting (among testing p (λ e. absurd (cc)))
            (sym (ap asleep p)) c
      go (quit p f) =
          comes s.shared.active s.pc i head small (among testing p (λ e. absurd (cc))) (ap asleep p)
            refl c
      go (relock p f) =
          stays s.shared.active s.pc i checking (among woken p (λ e. absurd (cc)))
            (sym (ap asleep p)) c

  helped-Counted :
      (r : Option Task × Shared Queue) (s : System Task Queue)
      → r.1.active ≡ s.shared.active
      → Counted s
      → Counted (helped D r s)
  unfolding helped
  helped-Counted (none, sh) s same c = rw same c
  helped-Counted (some t, sh) s same c = rw same c

  Other-Counted : {s t : System Task Queue} → Other D s t → Good D workers s → Counted s → Counted t
  unfolding notify_all_workers
  Other-Counted {s} help v c = helped-Counted _ s (steal_work-active s.shared) c
  Other-Counted {s} help_process v c = helped-Counted _ s refl c
  Other-Counted {s} (spurious i p) v c =
      stays s.shared.active s.pc i woken (here_lt D workers s v i (λ q. absurd (cc (p, q))))
        (sym (ap asleep p)) c
  Other-Counted (push_task t) v c = c
  Other-Counted {s} (notify_waiting i n free z p) v c = rw (notify_worker-active s.shared) (
      stays s.shared.active s.pc i woken (here_lt D workers s v i (λ q. absurd (cc (p, q))))
        (sym (ap asleep p)) c)
  Other-Counted {s} (notify_nobody n free z nobody) v c = rw (notify_worker-active s.shared) c
  Other-Counted (store q) v c = c
  Other-Counted {s} (notify_all q free) v c = rw (asleep-wake_up s.pc workers) c

  start-Counted : Counted (start D workers)
  unfolding start new_shared
  start-Counted = omega (arith, none_asleep workers)
    where
      none_asleep : (n : ℕ) → weights asleep (λ i. if ltb i workers then head else stopped) n ≡ 0
      none_asleep zero = refl
      none_asleep (suc n) = ground (arith, none_asleep n)

  -- However the steps of a pool of fewer than 2^64 workers follow one another, `active` is the number of
  -- its workers less those that stand between the lock before their sleep and the end of it; so it never
  -- wraps around, and a worker that has ended counts as active.
  pub active_counts :
      {s : System Task Queue}
      → workers < 2 ^ 64
      → Reach D workers s
      → s.shared.active + weights asleep s.pc workers ≡ workers
  active_counts small begin = start-Counted
  active_counts small (later r (work i w)) =
      Work-Counted small w (Reach-Good D workers r) (active_counts small r)
  active_counts small (later r (other o)) =
      Other-Counted o (Reach-Good D workers r) (active_counts small r)
