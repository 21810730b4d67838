-- ===== src/MultiThread/Pool/Tasks.antt =====
-- What becomes of the tasks that are pushed, with any number of workers.
use loony_rs_runtime.Base.{
  ℕ, zero, suc, ◌+◌, ◌≡◌, refl, arith, Option, none, some, [], ◌∷◌, get_elem?, replicate, total,
  total-append,
}
use loony_rs_runtime.MultiThread.Deque.{Deque}
use loony_rs_runtime.MultiThread.Shared.{Shared, new_shared, notify_all_workers}
use loony_rs_runtime.MultiThread.Shared.Notify.{notify_worker-keeps}
use loony_rs_runtime.MultiThread.Steal.{to_option, steal_others, steal_work}
use loony_rs_runtime.MultiThread.Steal.Conserve.{
  queued, load, held, total-set, steal-queued, steal_others-load, steal_work-load,
}
use loony_rs_runtime.MultiThread.Worker.{check_for_work}
use loony_rs_runtime.MultiThread.Worker.Lost.{pop-queued}
use loony_rs_runtime.MultiThread.Pool.{
  System, Pc, searched, checked, helped, help, help_process, after_check, put, Work, enter, leave,
  pops, steals, asks, lock, checks, wait, quit, relock, Other, Step, work, other, spurious,
  push_task, notify_waiting, notify_nobody, store, notify_all, start, Reach, begin, later,
}

module _ {Task : Type 0} (D : Deque Task) (weight : Task → ℕ) where
  open D use {Queue, view, new, push, steal, pop, view-new, view-push}

  abbrev Inv : System Task Queue → Type 0
  Inv s =
      total weight s.pushed ≡ total weight s.ran + total weight s.dropped + load D weight s.shared

  put-load :
      (i : ℕ) (q q' : Queue) (s : Shared Queue)
      → get_elem? s.stealers i ≡ some q
      → load D weight (put D i q' s) + queued D weight q ≡ load D weight s + queued D weight q'
  put-load i q q' s e = omega (arith, total-set D weight s.stealers i q q' e)

  searched-Inv :
      (i : ℕ) (next : Pc) (r : Option Task) (sh : Shared Queue) (s : System Task Queue)
      → Inv s
      → load D weight s.shared ≡ held D weight r + load D weight sh
      → Inv (searched D i next r sh s)
  unfolding searched
  searched-Inv i next none sh s v e = omega (arith, v, e)
  searched-Inv i next (some t) sh s v e = omega (arith, v, e)

  checked-Inv :
      (i : ℕ) (r : Option Task) (sh : Shared Queue) (s : System Task Queue)
      → Inv s
      → load D weight s.shared ≡ held D weight r + load D weight sh
      → Inv (checked D i r sh s)
  unfolding checked
  checked-Inv i none sh s v e = omega (arith, v, e)
  checked-Inv i (some t) sh s v e = omega (arith, v, e)

  check_for_work-load :
      (i : ℕ) (q : Queue) (s : Shared Queue)
      → get_elem? s.stealers i ≡ some q
      → let (found, q', s') = check_for_work D q s in
        load D weight s ≡ held D weight found + load D weight (put D i q' s')
  unfolding check_for_work
  check_for_work-load i q s e = ground (
    arith,
    pop-queued D weight q,
    steal-queued D weight s.injector,
    total-set D weight s.stealers i q (pop q).1 e,
  )

  Work-Inv : {s : System Task Queue} {i : ℕ} {t : System Task Queue} → Work D s i t → Inv s → Inv t
  unfolding after_check
  Work-Inv (enter p e) v = v
  Work-Inv (leave p e) v = v
  Work-Inv {s} {i} (pops q p e) v =
      searched-Inv i _ (pop q).0 (put D i (pop q).1 s.shared) s v
        (omega (arith, pop-queued D weight q, put-load i q (pop q).1 s.shared e))
  Work-Inv {s} {i} (steals p) v =
      searched-Inv i _ (steal_others D i s.shared).0 (steal_others D i s.shared).1 s v
        (steal_others-load D weight i s.shared)
  Work-Inv {s} {i} (asks p) v =
      searched-Inv i _ (to_option (steal s.shared.injector).0) _ s v
        (omega (arith, steal-queued D weight s.shared.injector))
  Work-Inv (lock p e) v = v
  Work-Inv {s} {i} (checks q p e) v =
      checked-Inv i (check_for_work D q s.shared).0 _ s v (check_for_work-load i q s.shared e)
  Work-Inv (wait p e) v = v
  Work-Inv (quit p e) v = v
  Work-Inv (relock p e) v = v

  helped-Inv :
      (r : Option Task × Shared Queue) (s : System Task Queue)
      → Inv s
      → load D weight s.shared ≡ held D weight r.0 + load D weight r.1
      → Inv (helped D r s)
  unfolding helped
  helped-Inv (none, sh) s v e = omega (arith, v, e)
  helped-Inv (some t, sh) s v e = omega (arith, v, e)

  Other-Inv : {s t : System Task Queue} → Other D s t → Inv s → Inv t
  unfolding notify_all_workers
  Other-Inv {s} help v = helped-Inv (steal_work D s.shared) s v (steal_work-load D weight s.shared)
  Other-Inv {s} help_process v =
      helped-Inv _ s v (omega (arith, steal-queued D weight s.shared.injector))
  Other-Inv (spurious i p) v = v
  Other-Inv {s} (push_task t) v =
      rw (view-push t s.shared.injector)
        (omega (arith, v, total-append weight (view s.shared.injector) (t ∷ [])))
  Other-Inv {s} (notify_waiting i n h e p) v =
      let (same, others, flag) = notify_worker-keeps s.shared in rw (same, others) v
  Other-Inv {s} (notify_nobody n h e p) v =
      let (same, others, flag) = notify_worker-keeps s.shared in rw (same, others) v
  Other-Inv (store e) v = v
  Other-Inv (notify_all e h) v = v

  Step-Inv : {s t : System Task Queue} → Step D s t → Inv s → Inv t
  Step-Inv (work i w) v = Work-Inv w v
  Step-Inv (other o) v = Other-Inv o v

  new-queued : (n : ℕ) → total (queued D weight) (replicate n new) ≡ 0
  new-queued zero = refl
  new-queued (suc n) = rw view-new (omega (arith, new-queued n))

  -- However many workers there are, and however their steps and those of the threads that spawn, help
  -- and shut down follow one another, the tasks that were pushed are those that were run, those that a
  -- check dropped, and those in the queues, each as often as it was pushed.
  pub pool_tasks :
      {workers : ℕ} {s : System Task Queue}
      → Reach D workers s
      → total weight s.pushed ≡ total weight s.ran + total weight s.dropped + load D weight s.shared
  unfolding start new_shared
  pool_tasks {workers} begin = rw view-new (omega (arith, new-queued workers))
  pool_tasks (later r st) = Step-Inv st (pool_tasks r)
