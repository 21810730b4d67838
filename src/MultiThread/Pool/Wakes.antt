-- ===== src/MultiThread/Pool/Wakes.antt =====
-- The notifications of a pool: that a task which is pushed finds a worker.
use loony_rs_runtime.Base.{
  ℕ, ◌<◌, sym, ◌≡◌, ◌≢◌, refl, ap, ◌∙◌, inl, inr, arith, false, none, Option, some, [],
}
use mathlib.Core.Option.{some-injective}
use loony_rs_runtime.MultiThread.Deque.{Deque, Steal, empty, retry, success, Steals}
use loony_rs_runtime.MultiThread.Shared.{Shared, new_shared, notify_all_workers}
use loony_rs_runtime.MultiThread.Shared.Notify.{notify_worker-keeps}
use loony_rs_runtime.MultiThread.Steal.{to_option, steal_others, steal_work}
use loony_rs_runtime.MultiThread.Worker.{check_for_work}
use loony_rs_runtime.MultiThread.Pool.Places.{holds, awake, awake_lem, wake_up_lem}
use loony_rs_runtime.MultiThread.Pool.{
  Pc, System, head, popping, stealing, asking, locking, checking, waiting, woken, stopped,
  after_check, put, Work, enter, leave, pops, steals, asks, lock, checks, wait, quit, relock, Other,
  Step, work, other, spurious, push_task, notify_waiting, notify_nobody, helped, help, help_process,
  store, notify_all, start, Reach, begin, later,
}
use loony_rs_runtime.MultiThread.Pool.Awake.{
  Inv, Good, awake-Inv, steal-empty, check-empty, check-shutdown, searched-Good, checked-Good,
}

module _ {Task : Type 0} (D : Deque Task) (workers : ℕ) where
  open D use {Queue, view, steal, pop, push, view-new, steal-Steals}

  module _ (prompt : (q : Queue) → (steal q).0 ≢ retry) where
    steal-missed : (q : Queue) → to_option (steal q).0 ≡ none → view (steal q).1 ≡ []
    steal-missed q e = go (steal q).0 e (steal-Steals q) (prompt q)
      where
        go :
            (r : Steal Task)
            → to_option r ≡ none
            → Steals r (view q) (view (steal q).1)
            → r ≢ retry
            → view (steal q).1 ≡ []
        go empty e h p = h.1
        go retry e h p = absurd (p refl)
        go (success t) e h p = absurd (cc)

    check-missed :
        (q : Queue) (s : Shared Queue)
        → (check_for_work D q s).0 ≡ none
        → view (check_for_work D q s).2.injector ≡ []
    unfolding check_for_work
    check-missed q s e = ground (arith, steal-missed s.injector)

    Work-Good :
        {s : System Task Queue} {i : ℕ} {t : System Task Queue}
        → Work D s i t
        → Good D workers s
        → Good D workers t
    unfolding after_check steal_others
    Work-Good {s} {i} (enter p f) v =
        awake-Inv D workers s.shared s.holder i popping v refl refl (λ e. e) (λ j d e. e)
          (λ e. absurd (cc)) (λ e. absurd (cc))
    Work-Good {s} {i} (leave p f) v = record {
      held = λ j e. ground (arith, v.held j);
      tested = λ j e z. ground (arith, v.tested j);
      ended = λ j g l e. absurd (cc (f, g));
      alive = λ g z. absurd (cc (f, g));
    }
    Work-Good {s} {i} (pops q p e) v =
        searched-Good D workers i stealing (pop q).0 (put D i (pop q).1 s.shared) s v refl refl refl
          (λ e. e)
    Work-Good {s} {i} (steals p) v =
        searched-Good D workers i asking (steal_others D i s.shared).0 (steal_others D i s.shared).1
          s v refl refl refl (λ e. e)
    Work-Good {s} {i} (asks p) v =
        searched-Good D workers i locking (to_option (steal s.shared.injector).0)
          (record s.shared { injector = (steal s.shared.injector).1 }) s v refl refl refl
          (steal-empty D workers s.shared.injector)
    Work-Good {s} {i} (lock p f) v =
        awake-Inv D workers _ (some i) i checking v refl refl (λ e. e) (λ j d e. absurd (cc (f, e)))
          (λ e. refl) (λ e. absurd (cc))
    Work-Good {s} {i} (checks q p e) v =
        checked-Good D workers i (check_for_work D q s.shared).0
          (put D i (check_for_work D q s.shared).1 (check_for_work D q s.shared).2) s v p
          (check-shutdown D workers q s.shared) (check-empty D workers q s.shared)
          (check-missed q s.shared)
    Work-Good {s} {i} (wait p f) v = record {
      held = λ j e. absurd (ground (arith, v.held i, v.held j));
      tested = λ j e z. absurd (ground (arith, v.held i, v.held j));
      ended = λ j g l e. ground (arith, v.ended j g l);
      alive = λ g z. inl (v.tested i p z);
    }
    Work-Good {s} {i} (quit p f) v =
        awake-Inv D workers _ none i head v refl refl (λ e. e)
          (λ j d e. absurd (d (some-injective i j (sym (v.held i (ap holds p)) ∙ e))))
          (λ e. absurd (cc)) (λ e. absurd (cc))
    Work-Good {s} {i} (relock p f) v =
        awake-Inv D workers s.shared (some i) i checking v refl refl (λ e. e)
          (λ j d e. absurd (cc (f, e))) (λ e. refl) (λ e. absurd (cc))

    shared-Inv :
        {sh : Shared Queue} {h : Option ℕ} {pc : ℕ → Pc} {n : ℕ} (sh' : Shared Queue)
        → Inv D workers sh h pc n
        → sh'.shutdown ≡ sh.shutdown
        → (view sh.injector ≡ [] → view sh'.injector ≡ [])
        → Inv D workers sh' h pc n
    shared-Inv sh' v flag emptied = record {
      held = v.held;
      tested = λ j e z. emptied (v.tested j e z);
      ended = λ j f. v.ended j (sym flag ∙ f);
      alive = λ f z. elim (v.alive (sym flag ∙ f) z) [ inl e ↦ inl (emptied e) | inr a ↦ inr a ];
    }

    helped-Good :
        (r : Option Task × Shared Queue) (s : System Task Queue)
        → Good D workers s
        → r.1.shutdown ≡ s.shared.shutdown
        → (view s.shared.injector ≡ [] → view r.1.injector ≡ [])
        → Good D workers (helped D r s)
    unfolding helped
    helped-Good (none, sh) s v flag emptied = shared-Inv sh v flag emptied
    helped-Good (some t, sh) s v flag emptied = shared-Inv sh v flag emptied

    steal_work-empty :
        (s : Shared Queue)
        → ((steal_work D s).1.shutdown ≡ s.shutdown)
          × (view s.injector ≡ [] → view (steal_work D s).1.injector ≡ [])
    unfolding steal_work
    steal_work-empty s = (ground arith, λ e. ground (arith, steal-empty D workers s.injector e))

    Other-Good :
        {s t : System Task Queue} → 0 < workers → Other D s t → Good D workers s → Good D workers t
    unfolding notify_all_workers
    Other-Good {s} some_worker help v =
        let (flag, emptied) = steal_work-empty s.shared in
        helped-Good (steal_work D s.shared) s v flag emptied
    Other-Good {s} some_worker help_process v =
        helped-Good _ s v refl (steal-empty D workers s.shared.injector)
    Other-Good {s} some_worker (spurious i p) v =
        awake-Inv D workers s.shared s.holder i woken v refl refl (λ e. e) (λ j d e. e)
          (λ e. absurd (cc)) (λ e. absurd (cc))
    Other-Good some_worker (push_task t) v = record {
      held = v.held;
      tested = λ j e z. absurd (omega (arith, z));
      ended = v.ended;
      alive = λ f z. absurd (omega (arith, z));
    }
    Other-Good {s} some_worker (notify_waiting i n free e p) v =
        let (same, others, flag) = notify_worker-keeps s.shared in
        record {
          held = λ j q. ground (arith, v.held j);
          tested = λ j q z. absurd (ground (arith, v.held j));
          ended = λ j f l q. ground (arith, v.ended j, flag);
          alive = λ f z. inr (i, ground arith);
        }
    Other-Good {s} some_worker (notify_nobody n free e nobody) v =
        let (same, others, flag) = notify_worker-keeps s.shared in
        record {
          held = v.held;
          tested = λ j q z. absurd (cc (v.held j (ap holds q), free));
          ended = λ j f l. v.ended j (sym flag ∙ f) l;
          alive =
              λ f z. inr (0, awake_lem (s.pc 0) (nobody 0) (v.ended 0 (sym flag ∙ f) some_worker));
        }
    Other-Good some_worker (store e) v = record {
      held = v.held;
      tested = v.tested;
      ended = λ j f l. absurd (cc);
      alive = λ f z. absurd (cc);
    }
    Other-Good {s} some_worker (notify_all e free) v = record {
      held = λ j q. v.held j (sym (wake_up_lem (s.pc j)).0 ∙ q);
      tested = λ j q z. absurd (cc (v.held j (sym (wake_up_lem (s.pc j)).0 ∙ ap holds q), free));
      ended = λ j f l q. v.ended j f l ((wake_up_lem (s.pc j)).1 q);
      alive = λ f z. elim (v.alive f z) [
        | inl e ↦ inl e
        | inr (j, a) ↦ inr (j, (wake_up_lem (s.pc j)).2 a)
      ];
    }

    Step-Good :
        {s t : System Task Queue} → 0 < workers → Step D s t → Good D workers s → Good D workers t
    Step-Good some_worker (work i w) v = Work-Good w v
    Step-Good some_worker (other o) v = Other-Good some_worker o v

    start-Good : Good D workers (start D workers)
    unfolding start new_shared
    start-Good = record {
      held = λ i e. absurd (ground arith);
      tested = λ i e z. view-new;
      ended = λ i f l e. ground arith;
      alive = λ f z. inl view-new;
    }

    Reach-Good : {s : System Task Queue} → 0 < workers → Reach D workers s → Good D workers s
    Reach-Good some_worker begin = start-Good
    Reach-Good some_worker (later r st) = Step-Good some_worker st (Reach-Good some_worker r)

    -- Where no steal has to be retried and there are workers that are not shut down: if a task is in
    -- the injector, then a thread that pushed is about to notify, or a worker neither waits nor has
    -- ended. So a task is never left to workers that all sleep.
    pub pool_wakes :
        {s : System Task Queue}
        → 0 < workers
        → Reach D workers s
        → s.shared.shutdown ≡ false
        → s.notifying ≡ 0
        → view s.shared.injector ≢ []
        → (i : ℕ) × (s.pc i ≢ waiting) × (s.pc i ≢ stopped)
    pool_wakes {s} some_worker r f z nonempty = elim ((Reach-Good some_worker r).alive f z) [
      | inl e ↦ absurd (nonempty e)
      | inr (i, a) ↦ (i, λ e. absurd (cc (a, ap awake e)), λ e. absurd (cc (a, ap awake e)))
    ]
