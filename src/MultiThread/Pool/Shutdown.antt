-- ===== src/MultiThread/Pool/Shutdown.antt =====
-- Every step keeps what the mutex and the shutdown flag say of the workers of a pool.
use loony_rs_runtime.Base.{
  ℕ, ◌+◌, ◌-◌, ◌%◌, ◌^◌, ◌≡◌, ◌≢◌, refl, sym, ap, ◌∙◌, arith, false, Option, none, some, length,
  length-set, length-replicate,
}
use loony_rs_runtime.MultiThread.Deque.{Deque}
use loony_rs_runtime.MultiThread.Shared.{Shared, new_shared, notify_worker, notify_all_workers}
use loony_rs_runtime.MultiThread.Shared.Notify.{notify_worker-keeps}
use loony_rs_runtime.MultiThread.Steal.{to_option, steal_others, steal_work}
use loony_rs_runtime.MultiThread.Worker.{check_for_work}
use loony_rs_runtime.MultiThread.Steal.Lengths.{steal_ring-length, steal_work-keeps}
use loony_rs_runtime.MultiThread.Pool.Places.{holds, wake_up_lem}
use loony_rs_runtime.MultiThread.Pool.{
  Stage, System, Pc, head, popping, stealing, asking, locking, checking, testing, waiting, woken,
  stopped, searched, checked, after_check, put, Work, enter, leave, pops, steals, asks, lock,
  checks, wait, quit, relock, Other, work, other, spurious, push_task, notify_waiting,
  notify_nobody, helped, help, help_process, store, notify_all, start, Reach, begin, later, Run,
  here, works, others,
}
use loony_rs_runtime.MultiThread.Pool.Mutex.{Inv, keep, take, give, Good, move-Inv}

module _ {Task : Type 0} (D : Deque Task) (workers : ℕ) where
  open D use {Queue, new, steal, pop}

  searched-Good :
      (i : ℕ) (next : Pc) (r : Option Task) (sh : Shared Queue) (s : System Task Queue)
      → Good D workers s
      → s.pc i ≢ stopped
      → holds (s.pc i) ≡ false
      → holds next ≡ false
      → next ≢ waiting
      → length sh.stealers ≡ length s.shared.stealers
      → sh.shutdown ≡ s.shared.shutdown
      → Good D workers (searched D i next r sh s)
  unfolding searched
  searched-Good i next (some t) sh s v there free free' sleeps len flag =
      move-Inv D workers s.pc sh s.holder i head v there len flag (keep (sym free))
        (λ e. absurd (cc))
  searched-Good i next none sh s v there free free' sleeps len flag =
      move-Inv D workers s.pc sh s.holder i next v there len flag (keep (free' ∙ sym free))
        (λ e. absurd (sleeps e))

  checked-Good :
      (i : ℕ) (r : Option Task) (sh : Shared Queue) (s : System Task Queue)
      → Good D workers s
      → s.pc i ≡ checking
      → length sh.stealers ≡ length s.shared.stealers
      → sh.shutdown ≡ s.shared.shutdown
      → Good D workers (checked D i r sh s)
  unfolding checked
  checked-Good i (some t) sh s v p len flag =
      move-Inv D workers s.pc (record sh { active = (sh.active + 1) % 2 ^ 64 }) none i head v
        (λ e. absurd (cc (p, e))) len flag (give (ap holds p) refl) (λ e. absurd (cc))
  checked-Good i none sh s v p len flag =
      move-Inv D workers s.pc sh s.holder i testing v (λ e. absurd (cc (p, e))) len flag
        (keep (sym (ap holds p))) (λ e. absurd (cc))

  check-keeps :
      (q : Queue) (s : Shared Queue)
      → ((check_for_work D q s).2.stealers ≡ s.stealers)
        × ((check_for_work D q s).2.shutdown ≡ s.shutdown)
  unfolding check_for_work
  check-keeps q s = ground arith

  Work-Good :
      {s : System Task Queue} {i : ℕ} {t : System Task Queue}
      → Work D s i t
      → Good D workers s
      → Good D workers t
  unfolding after_check steal_others
  Work-Good {s} {i} (enter p f) v =
      move-Inv D workers s.pc s.shared s.holder i popping v (λ e. absurd (cc (p, e))) refl refl
        (keep (sym (ap holds p))) (λ e. absurd (cc))
  Work-Good {s} {i} (leave p f) v =
      move-Inv D workers s.pc s.shared s.holder i stopped v (λ e. absurd (cc (p, e))) refl refl
        (keep (sym (ap holds p))) (λ e. absurd (cc))
  Work-Good {s} {i} (pops q p e) v =
      searched-Good i stealing (pop q).0 (put D i (pop q).1 s.shared) s v (λ e. absurd (cc (p, e)))
        (ap holds p) refl (λ e. absurd (cc)) (length-set s.shared.stealers i (pop q).1) refl
  Work-Good {s} {i} (steals p) v =
      searched-Good i asking (steal_others D i s.shared).0 (steal_others D i s.shared).1 s v
        (λ e. absurd (cc (p, e))) (ap holds p) refl (λ e. absurd (cc))
        (steal_ring-length D (length s.shared.stealers - 1) i 0 s.shared.stealers) refl
  Work-Good {s} {i} (asks p) v =
      searched-Good i locking (to_option (steal s.shared.injector).0)
        (record s.shared { injector = (steal s.shared.injector).1 }) s v (λ e. absurd (cc (p, e)))
        (ap holds p) refl (λ e. absurd (cc)) refl refl
  Work-Good {s} {i} (lock p f) v =
      move-Inv D workers s.pc _ (some i) i checking v (λ e. absurd (cc (p, e))) refl refl
        (take f refl) (λ e. absurd (cc))
  Work-Good {s} {i} (checks q p e) v =
      let (found, q', sh) = check_for_work D q s.shared in
      let (same, flag) = check-keeps q s.shared in
      checked-Good i found (put D i q' sh) s v p (length-set sh.stealers i q' ∙ ap length same) flag
  Work-Good {s} {i} (wait p f) v =
      move-Inv D workers s.pc s.shared none i waiting v (λ e. absurd (cc (p, e))) refl refl
        (give (ap holds p) refl) (λ e. f)
  Work-Good {s} {i} (quit p f) v =
      move-Inv D workers s.pc _ none i head v (λ e. absurd (cc (p, e))) refl refl
        (give (ap holds p) refl) (λ e. absurd (cc))
  Work-Good {s} {i} (relock p f) v =
      move-Inv D workers s.pc s.shared (some i) i checking v (λ e. absurd (cc (p, e))) refl refl
        (take f refl) (λ e. absurd (cc))

  -- The queues change, but not how many they are.
  shared-Inv :
      {sh : Shared Queue} {h : Option ℕ} {pc : ℕ → Pc} {st : Stage} (sh' : Shared Queue)
      → Inv D workers sh h pc st
      → length sh'.stealers ≡ length sh.stealers
      → sh'.shutdown ≡ sh.shutdown
      → Inv D workers sh' h pc st
  shared-Inv sh' v len flag = record {
    wide = len ∙ v.wide;
    absent = v.absent;
    held = v.held;
    owner = v.owner;
    raised = λ d. flag ∙ v.raised d;
    calm = v.calm;
  }

  helped-Good :
      (r : Option Task × Shared Queue) (s : System Task Queue)
      → Good D workers s
      → length r.1.stealers ≡ length s.shared.stealers
      → r.1.shutdown ≡ s.shared.shutdown
      → Good D workers (helped D r s)
  unfolding helped
  helped-Good (none, sh) s v len flag = shared-Inv sh v len flag
  helped-Good (some t, sh) s v len flag = shared-Inv sh v len flag

  Other-Good : {s t : System Task Queue} → Other D s t → Good D workers s → Good D workers t
  unfolding notify_all_workers
  Other-Good {s} help v =
      let (len, flag) = steal_work-keeps D s.shared in
      helped-Good (steal_work D s.shared) s v len flag
  Other-Good {s} help_process v = helped-Good _ s v refl refl
  Other-Good {s} (spurious i p) v =
      move-Inv D workers s.pc s.shared s.holder i woken v (λ e. absurd (cc (p, e))) refl refl
        (keep (sym (ap holds p))) (λ e. absurd (cc))
  Other-Good (push_task t) v = shared-Inv _ v refl refl
  Other-Good {s} (notify_waiting i n free e p) v =
      let (same, queues, flag) = notify_worker-keeps s.shared in
      move-Inv D workers s.pc (notify_worker s.shared) s.holder i woken v (λ e. absurd (cc (p, e)))
        (ap length queues) flag (keep (sym (ap holds p))) (λ e. absurd (cc))
  Other-Good {s} (notify_nobody n free e nobody) v =
      let (same, queues, flag) = notify_worker-keeps s.shared in
      shared-Inv (notify_worker s.shared) v (ap length queues) flag
  Other-Good (store e) v = record {
    wide = v.wide;
    absent = v.absent;
    held = v.held;
    owner = v.owner;
    raised = λ d. refl;
    calm = λ q. absurd (cc);
  }
  Other-Good {s} (notify_all e free) v = record {
    wide = v.wide;
    absent = λ j l. (wake_up_lem (s.pc j)).3 (v.absent j l);
    held = λ j q. v.held j (sym (wake_up_lem (s.pc j)).0 ∙ q);
    owner = λ j q. (wake_up_lem (s.pc j)).0 ∙ v.owner j q;
    raised = λ d. v.raised (λ q. absurd (cc (e, q)));
    calm = λ q j. (wake_up_lem (s.pc j)).4;
  }

  start-Good : Good D workers (start D workers)
  unfolding start new_shared
  start-Good = record {
    wide = length-replicate workers new;
    absent = λ i l. ground arith;
    held = λ i e. absurd (ground arith);
    owner = λ i e. absurd (cc);
    raised = λ d. absurd (d refl);
    calm = λ e. absurd (cc);
  }

  pub Reach-Good : {s : System Task Queue} → Reach D workers s → Good D workers s
  Reach-Good begin = start-Good
  Reach-Good (later r (work i w)) = Work-Good w (Reach-Good r)
  Reach-Good (later r (other o)) = Other-Good o (Reach-Good r)

  pub Run-Good :
      {s : System Task Queue} {k : ℕ} {t : System Task Queue}
      → Run D s k t
      → Good D workers s
      → Good D workers t
  Run-Good here v = v
  Run-Good (works i r w) v = Work-Good w (Run-Good r v)
  Run-Good (others r o) v = Other-Good o (Run-Good r v)
