-- ===== src/Task/Raw/Polling.antt =====
-- What a poll does to the future and to the output.
use loony_rs_runtime.Base.{
  ℕ, suc, ◌/◌, ◌%◌, ◌≡◌, refl, ap, ◌∙◌, arith, true, some, List, [], ◌∷◌, ◌++◌,
}
use mathlib.Core.List.{append-nil}
use loony_rs_runtime.Bits.{bit_or_three, bit_and_eight}
use loony_rs_runtime.Task.State.{from_bits, is_complete}
use loony_rs_runtime.Task.State.Fields.{is_complete_lem}
use loony_rs_runtime.Task.Header.{
  Poll, ready, pending, value, Polled, Event, schedule, woke, deallocate, frees_inside, out_of_fuel,
  WakerCall, clone, wake, wake_by_ref, drop, Header, drop_waker,
}
use loony_rs_runtime.Task.Wake
use loony_rs_runtime.Task.Wake.Arithmetic.{attempt_lem}
use loony_rs_runtime.Task.Raw.{call, calls, finish, poll}

-- The join wakers that were woken, oldest first.
abbrev pub woken : {W : Type 0} → List (Event W) → List W
woken [] = []
woken (woke w ∷ es) = w ∷ woken es
woken (schedule ∷ es) = woken es
woken (deallocate ∷ es) = woken es
woken (frees_inside ∷ es) = woken es
woken (out_of_fuel ∷ es) = woken es

woken-append : {W : Type 0} (es fs : List (Event W)) → woken (es ++ fs) ≡ woken es ++ woken fs
woken-append [] fs = refl
woken-append (woke w ∷ es) fs = ap (λ ws. w ∷ ws) (woken-append es fs)
woken-append (schedule ∷ es) fs = woken-append es fs
woken-append (deallocate ∷ es) fs = woken-append es fs
woken-append (frees_inside ∷ es) fs = woken-append es fs
woken-append (out_of_fuel ∷ es) fs = woken-append es fs

emit_silent :
    {W : Type 0} (es : List (Event W))
    → (woken (es ++ schedule ∷ []) ≡ woken es) × (woken (es ++ deallocate ∷ []) ≡ woken es)
emit_silent es = (
  woken-append es (schedule ∷ []) ∙ append-nil (woken es),
  woken-append es (deallocate ∷ []) ∙ append-nil (woken es),
)

-- The parts of the header that the calls on a waker leave alone.
record Same {F T W : Type 0} (g h : Header F T W) : Type 0 where
  on : h.scheduler ≡ true
  future : h.future ≡ g.future
  output : h.output ≡ g.output
  flags : h.state / 4 % 4 ≡ g.state / 4 % 4
  join_waker : h.join_waker ≡ g.join_waker
  wakes : woken h.events ≡ woken g.events

module _ {F T W : Type 0} (run : Header F T W → Header F T W) where
  call-Same : (c : WakerCall) (h : Header F T W) → h.scheduler ≡ true → Same h (call run c h)
  unfolding call Wake.wake_by_ref
  call-Same clone h on = ground arith
  call-Same wake h on = ground (arith, attempt_lem h.state, emit_silent h.events)
  call-Same wake_by_ref h on = ground (arith, attempt_lem h.state, emit_silent h.events)
  call-Same drop h on = ground (arith, emit_silent h.events)

  calls-Same :
      (cs : List WakerCall) (h : Header F T W) → h.scheduler ≡ true → Same h (calls run cs h)
  unfolding calls
  calls-Same [] h on = ground arith
  calls-Same (c ∷ cs) h on =
      let first = call-Same c h on in
      let rest = calls-Same cs (call run c h) first.on in
      record {
        on = rest.on;
        future = rest.future ∙ first.future;
        output = rest.output ∙ first.output;
        flags = rest.flags ∙ first.flags;
        join_waker = rest.join_waker ∙ first.join_waker;
        wakes = rest.wakes ∙ first.wakes;
      }

-- What became of the output: a result is stored and completes the task, else nothing is stored.
abbrev pub Stored : {F T W : Type 0} → Poll T → Header F T W → Header F T W → Type 0
Stored (ready t) h g = (g.output ≡ value t) × (is_complete (from_bits g.state) ≡ true)
Stored pending h g = g.output ≡ h.output

module _ {F T W : Type 0} where
  finish-Stored :
      (r : Poll T) (h : Header F T W)
      → let g = drop_waker (finish h r) in
        (g.future ≡ h.future) × Stored r h g × (g.state / 4 % 4 ≡ h.state / 4 % 4)
  unfolding drop_waker finish
  finish-Stored (ready t) h = simp is_complete_lem (ground (arith, bit_or_three h.state))
  finish-Stored pending h = ground arith

  Stored-of_eq :
      (r : Poll T) (f h g : Header F T W) → h.output ≡ f.output → Stored r h g → Stored r f g
  Stored-of_eq (ready t) f h g e stored = stored
  Stored-of_eq pending f h g e kept = kept ∙ e

module _ {F T W : Type 0} (poll_future : F → Polled F T) where
  called : (fuel : ℕ) (h : Header F T W) → Header F T W
  called fuel h =
      let p = poll_future h.future in
      calls (poll poll_future fuel) p.calls (record h { future = p.next })

  called-Same :
      (fuel : ℕ) (h : Header F T W)
      → h.scheduler ≡ true
      → Same (record h { future = (poll_future h.future).next }) (called fuel h)
  unfolding called
  called-Same fuel h on =
      let p = poll_future h.future in
      calls-Same (poll poll_future fuel) p.calls (record h { future = p.next }) on

  -- A poll runs the future once, whether or not the task is aborted. A ready result is stored and
  -- completes the task; with a pending one the output stays as it was. The flags stay.
  pub poll_runs_future :
      (fuel : ℕ) (h : Header F T W)
      → h.scheduler ≡ true
      → let p = poll_future h.future in
        let g = poll poll_future (suc fuel) h in
        (g.future ≡ p.next) × Stored p.result h g × (g.state / 4 % 4 ≡ h.state / 4 % 4)
  unfolding poll called
  poll_runs_future fuel h on =
      let p = poll_future h.future in
      let same = called-Same fuel h on in
      let (future, stored, flags) = finish-Stored p.result (called fuel h) in
      (
        future ∙ same.future,
        Stored-of_eq p.result h (called fuel h) _ same.output stored,
        flags ∙ same.flags,
      )

  woken-finish :
      (t : T) (w : W) (h : Header F T W)
      → h.state / 8 % 2 ≡ 1
      → h.join_waker ≡ some w
      → woken (drop_waker (finish h (ready t))).events ≡ woken h.events ++ w ∷ []
  unfolding drop_waker finish
  woken-finish t w h interest e = ground (
    arith,
    bit_and_eight h.state,
    woken-append h.events (woke w ∷ []),
    emit_silent (h.events ++ woke w ∷ []),
  )

  -- The poll that completes a task wakes the waker that its join handle left, once.
  pub completion_wakes :
      (fuel : ℕ) (t : T) (w : W) (h : Header F T W)
      → h.scheduler ≡ true
      → h.state / 8 % 2 ≡ 1
      → h.join_waker ≡ some w
      → (poll_future h.future).result ≡ ready t
      → woken (poll poll_future (suc fuel) h).events ≡ woken h.events ++ w ∷ []
  unfolding poll called
  completion_wakes fuel t w h on interest e r =
      let same = called-Same fuel h on in
      rw r (
        woken-finish t w (called fuel h) (omega (arith, same.flags)) (same.join_waker ∙ e)
        ∙ ap (λ ws. ws ++ w ∷ []) same.wakes)
