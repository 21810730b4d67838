-- ===== src/CurrentThread/Idle.antt =====
-- What `run_until_idle` runs, and what follows for `turn` and `block_on`.
use loony_rs_runtime.Base.{
  ℕ, zero, suc, ◌+◌, ◌<◌, ◌≡◌, refl, sym, ap, ◌∙◌, arith, inl, inr, Bool-cases, Bool, true, false,
  not, ◌&&◌, if◌then◌else◌, Option, none, some, List, [], ◌∷◌, ◌++◌, length, replicate,
}
use mathlib.Core.List.{append-nil, append_assoc}
use loony_rs_runtime.CurrentThread.{
  Outcome, done, panicked, bind, Local, spawn_local, spawn_all, drain, run_until_idle, turn,
  block_on, is_idle,
}

bind_if :
    {A B : Type 0} (b : Bool) (a : A) (f : A → Outcome B)
    → bind (if b then done a else panicked) f ≡ (if b then f a else panicked)
bind_if true a f = refl
bind_if false a f = refl

module _ {Task : Type 0} (spawns : Task → List Task) where
  -- None of the tasks spawns another.
  abbrev pub quiet : List Task → Bool
  quiet [] = true
  quiet (t ∷ ts) = elim (spawns t) [ [] ↦ quiet ts | _ ∷ _ ↦ false ]

  drain_busy :
      (fuel : ℕ) (q : List Task) (s : Local Task)
      → s.borrowed ≡ true
      → length q < fuel
      → drain spawns fuel (record s { queue = q })
        ≡ (if quiet q then done (q, record s { queue = [] }) else panicked)
  unfolding drain spawn_all spawn_local
  drain_busy zero q s b h = absurd (omega arith)
  drain_busy (suc fuel) [] s b h = refl
  drain_busy (suc fuel) (t ∷ ts) s b h = run (spawns t) refl (drain_busy fuel ts s b (omega arith))
    where
      add : List Task × Local Task → Outcome (List Task × Local Task)
      add r = done (t ∷ r.0, r.1)

      run :
          (new : List Task)
          → spawns t ≡ new
          → drain spawns fuel (record s { queue = ts })
            ≡ (if quiet ts then done (ts, record s { queue = [] }) else panicked)
          → drain spawns (suc fuel) (record s { queue = t ∷ ts })
            ≡ (if quiet (t ∷ ts) then done (t ∷ ts, record s { queue = [] }) else panicked)
      run [] e rest =
          rw (quiet, e)
            (ap (λ o. bind o add) rest ∙ bind_if (quiet ts) (ts, record s { queue = [] }) add)
      run (n ∷ ns) e rest = rw (quiet, e, b) refl

  -- With fuel above the length of the queue, `run_until_idle` runs the queue in order and empties
  -- it, or panics if one of its tasks spawns another.
  pub run_until_idle_lem :
      (fuel : ℕ) (s : Local Task)
      → s.borrowed ≡ false
      → length s.queue < fuel
      → run_until_idle spawns fuel s
        ≡ (if quiet s.queue then done (s.queue, record s { queue = [] }) else panicked)
  unfolding run_until_idle
  run_until_idle_lem fuel s b h = rw b (
      ap (λ o. bind o (λ r. done (r.0, record (r.1) { borrowed = false })))
        (drain_busy fuel s.queue (record s { borrowed = true }) refl h)
      ∙ bind_if (quiet s.queue) (s.queue, record s { queue = []; borrowed = true })
          (λ r. done (r.0, record (r.1) { borrowed = false })))

  -- Afterwards `turn` parks for the duration that it was given, unless there was a shutdown, and
  -- answers whether there was none.
  pub turn_lem :
      (fuel : ℕ) (duration : Option ℕ) (s : Local Task)
      → s.borrowed ≡ false
      → length s.queue < fuel
      → turn spawns fuel duration s ≡ (
          if quiet s.queue
          then done (
            not s.shutdown,
            record s {
              queue = [];
              parks = if s.shutdown then s.parks else s.parks ++ duration ∷ [];
            },
          )
          else panicked)
  unfolding turn is_idle
  turn_lem fuel duration s b h =
      ap (λ o. bind o (after)) (run_until_idle_lem fuel s b h)
      ∙ bind_if (quiet s.queue) (s.queue, record s { queue = [] }) after
      ∙ (elim (Bool-cases s.shutdown) [ inl e ↦ rw e refl | inr e ↦ rw e refl ])
    where
      after : List Task × Local Task → Outcome (Bool × Local Task)
      after r = done (
        not (r.1.shutdown),
        if is_idle (r.1) && not (r.1.shutdown)
            then record (r.1) { parks = r.1.parks ++ duration ∷ [] }
            else r.1,
      )

  quiet-append : (xs ys : List Task) → quiet xs ≡ true → quiet ys ≡ true → quiet (xs ++ ys) ≡ true
  quiet-append [] ys p q = q
  quiet-append (x ∷ xs) ys p q = split (spawns x) refl (quiet-append xs ys)
    where
      split :
          (new : List Task)
          → spawns x ≡ new
          → (quiet xs ≡ true → quiet ys ≡ true → quiet (xs ++ ys) ≡ true)
          → quiet (x ∷ xs ++ ys) ≡ true
      split [] e rest = rw e (rest (rw (quiet, e) at p) q)
      split (n ∷ ns) e rest = absurd (cc (rw (quiet, e) at p))

  pub spawn_local_free :
      (t : Task) (s : Local Task)
      → s.borrowed ≡ false
      → spawn_local t s
        ≡ done (record s {
          queue = s.queue ++ t ∷ [];
          unparks = if s.parker then s.unparks + 1 else s.unparks;
        })
  unfolding spawn_local
  spawn_local_free t s b = rw b refl

  pub spawn_all_lem :
      (ts : List Task) (s : Local Task)
      → s.borrowed ≡ false
      → (n : ℕ) × (spawn_all ts s ≡ done (record s { queue = s.queue ++ ts; unparks = n }))
  unfolding spawn_all spawn_local
  spawn_all_lem [] s b = (s.unparks, rw (append-nil s.queue) refl)
  spawn_all_lem (t ∷ ts) s b =
      let n = if s.parker then s.unparks + 1 else s.unparks in
      let (m, e) = spawn_all_lem ts (record s { queue = s.queue ++ t ∷ []; unparks = n }) b in
      (
        m,
        ap (λ o. bind o (spawn_all ts)) (spawn_local_free t s b)
            ∙ e
            ∙ ap (λ q. done (record s { queue = q; unparks = m }))
                (append_assoc s.queue (t ∷ []) ts),
      )

  module _ {F T : Type 0} (poll_future : F → List Task × F × Option T) where
    -- The future is ready with `t` at the poll after `k` others, which spawn only quiet tasks.
    abbrev pub Ready : ℕ → F → T → Type 0
    Ready zero f t = (poll_future f).2 ≡ some t
    Ready (suc k) f t =
        ((poll_future f).2 ≡ none) × (quiet (poll_future f).0 ≡ true) × Ready k (poll_future f).1 t

    -- `block_on` returns the output of a future that gets ready, and parks once for each poll
    -- before, if no task of the queue and none that the future spawns spawns another.
    pub block_on_returns :
        (k : ℕ) (f : F) (t : T) (s : Local Task)
        → s.borrowed ≡ false
        → quiet s.queue ≡ true
        → Ready k f t
        → (s' : Local Task) × (block_on spawns poll_future (suc k) f s ≡ done (t, s'))
          × (s'.parks ≡ s.parks ++ replicate k none)
    unfolding block_on is_idle
    block_on_returns zero f t s b q r =
        let (n, e) = spawn_all_lem (poll_future f).0 s b in
        (
          record s { queue = s.queue ++ (poll_future f).0; unparks = n },
          rw (e, r) refl,
          sym (append-nil s.parks),
        )
    block_on_returns (suc k) f t s b q r =
        let (n, e) = spawn_all_lem (poll_future f).0 s b in
        let s1 = record s { queue = s.queue ++ (poll_future f).0; unparks = n } in
        let ran = run_until_idle_lem (suc (length s1.queue)) s1 b (omega arith) in
        let (s', e', p) =
          block_on_returns k (poll_future f).1 t
            (record s1 { queue = []; parks = s.parks ++ none ∷ [] }) b refl r.2 in
        (
          s',
          rw (e, r.0, ran, quiet-append s.queue (poll_future f).0 q r.1) e',
          p ∙ append_assoc s.parks (none ∷ []) (replicate k none),
        )
