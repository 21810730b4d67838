-- ===== src/Io/Poll.antt =====
-- Which wakers `IoDriver::poll` wakes.
use loony_rs_runtime.Base.{
  ℕ, zero, suc, ◌+◌, ◌<◌, ◌≡◌, refl, ap, ◌∙◌, arith, Option, none, some, List, [], ◌∷◌, ◌++◌,
  length, length-append, get_elem?,
}
use mathlib.Core.List.{append_assoc, append-nil}
use mathlib.Core.Path.{subst₂}
use loony_rs_runtime.Io.{
  Mio, Slab, Result, ok, err, Interest, IoDriver, new, register, reregister, deregister,
  wake_events, poll,
}

get_elem?-append {ℓ} :
    {A : Type ℓ} (xs ys : List A) (x : A) → get_elem? (xs ++ x ∷ ys) (length xs) ≡ some x
get_elem?-append [] ys x = refl
get_elem?-append (z ∷ zs) ys x = get_elem?-append zs ys x

get_elem?-length {ℓ} : {A : Type ℓ} (xs : List A) → get_elem? xs (length xs) ≡ none
get_elem?-length [] = refl
get_elem?-length (x ∷ xs) = get_elem?-length xs

module _ {W : Type 0} (M : Mio) (S : Slab W) where
  open M use {Source, Error}
  open S use {Items, get}

  -- The wakers of those tokens that have one.
  abbrev pub wakers_of : Items → List ℕ → List W
  wakers_of wakers [] = []
  wakers_of wakers (t ∷ ts) = elim (get wakers t) [
    | none ↦ wakers_of wakers ts
    | some w ↦ w ∷ wakers_of wakers ts
  ]

  wake_events_lem :
      (fuel : ℕ) (seen left : List ℕ) (wakers : Items)
      → length left < fuel
      → wake_events M S fuel (seen ++ left) (length seen) wakers ≡ some (wakers_of wakers left)
  unfolding wake_events
  wake_events_lem zero seen left wakers h = absurd (omega arith)
  wake_events_lem (suc fuel) seen [] wakers h =
      let none_left : get_elem? (seen ++ []) (length seen) ≡ none =
        rw append-nil (get_elem?-length seen) in
      ground arith
  wake_events_lem (suc fuel) seen (t ∷ ts) wakers h =
      let found = get_elem?-append seen ts t in
      let rest : wake_events M S fuel (seen ++ t ∷ ts) (length seen + 1) wakers
          ≡ some (wakers_of wakers ts) =
        subst₂ (λ es n. wake_events M S fuel es n wakers ≡ some (wakers_of wakers ts))
          (append_assoc seen (t ∷ []) ts) (omega (arith, length-append seen (t ∷ [])))
          (wake_events_lem fuel (seen ++ t ∷ []) ts wakers (omega arith)) in
      ground (arith, found, rest)

  -- With fuel above the number of events, a poll that mio fails answers its error and wakes nobody,
  -- and any other wakes the wakers of the events' tokens, in the order of the events; the wakers stay.
  pub poll_wakes :
      (fuel : ℕ) (d : IoDriver M S) (timeout : Option ℕ)
      → let (selected, p) = Mio.poll M d.selector 1024 timeout in
        ((events : List ℕ) → selected ≡ ok events → length events < fuel)
        → poll M S fuel d timeout ≡ (
          some (elim selected [
            | err e ↦ (err e, [])
            | ok events ↦ (ok tt, wakers_of d.wakers events)
          ]),
          record d { selector = p },
        )
  unfolding poll
  poll_wakes fuel d timeout h = answer (Mio.poll M d.selector 1024 timeout).0 refl
    where
      answer :
          (r : Result Error (List ℕ))
          → (Mio.poll M d.selector 1024 timeout).0 ≡ r
          → poll M S fuel d timeout ≡ (
            some (elim (Mio.poll M d.selector 1024 timeout).0 [
              | err e ↦ (err e, [])
              | ok events ↦ (ok tt, wakers_of d.wakers events)
            ]),
            record d { selector = (Mio.poll M d.selector 1024 timeout).1 },
          )
      answer (err e) q = ground arith
      answer (ok events) q = ground (arith, wake_events_lem fuel [] events d.wakers (h events q))

  -- The calls that a driver offers.
  pub data Call : Type 0 where
    registers : Source → ℕ → Interest → Call
    reregisters : Source → ℕ → Interest → Call
    deregisters : Source → Call
    polls : ℕ → Option ℕ → Call

  abbrev pub act : Call → IoDriver M S → IoDriver M S
  act (registers s t i) d = (register M S d s t i).1
  act (reregisters s t i) d = (reregister M S d s t i).1
  act (deregisters s) d = (deregister M S d s).1
  act (polls fuel timeout) d = (poll M S fuel d timeout).1

  abbrev pub acts : List Call → IoDriver M S → IoDriver M S
  acts [] d = d
  acts (c ∷ cs) d = acts cs (act c d)

  act-wakers : (c : Call) (d : IoDriver M S) → (act c d).wakers ≡ d.wakers
  unfolding register reregister deregister poll
  act-wakers (registers s t i) d = refl
  act-wakers (reregisters s t i) d = refl
  act-wakers (deregisters s) d = refl
  act-wakers (polls fuel timeout) d = ground arith

  acts-wakers : (cs : List Call) (d : IoDriver M S) → (acts cs d).wakers ≡ d.wakers
  acts-wakers [] d = refl
  acts-wakers (c ∷ cs) d = acts-wakers cs (act c d) ∙ act-wakers c d

  new-wakers : (d : IoDriver M S) → new M S ≡ ok d → d.wakers ≡ Slab.new S
  unfolding new
  new-wakers d e = ground arith

  wakers_of-new : (ts : List ℕ) → wakers_of (Slab.new S) ts ≡ []
  wakers_of-new [] = refl
  wakers_of-new (t ∷ ts) = ground (arith, Slab.get-new S t, wakers_of-new ts)

  unanswered :
      (wakers : Items)
      → wakers ≡ Slab.new S
      → (r : Result Error (List ℕ))
      → ◌≡◌ {A = Option (Result Error (Unit {0}) × List W)}
          (some (elim r [ err e ↦ (err e, []) | ok events ↦ (ok tt, wakers_of wakers events) ]))
          (some (elim r [ err e ↦ (err e, []) | ok events ↦ (ok tt, []) ]))
  unanswered wakers empty (err e) = refl
  unanswered wakers empty (ok events) =
      ap (λ ws. some (ok tt, ws)) (rw empty (wakers_of-new events))

  -- Whatever was registered with a driver before, a poll of it wakes nobody: nothing puts a waker
  -- into its slab.
  pub nobody_woken :
      (calls : List Call) (d : IoDriver M S) (fuel : ℕ) (timeout : Option ℕ)
      → new M S ≡ ok d
      → let selected = (Mio.poll M (acts calls d).selector 1024 timeout).0 in
        ((events : List ℕ) → selected ≡ ok events → length events < fuel)
        → (poll M S fuel (acts calls d) timeout).0
          ≡ some (elim selected [ err e ↦ (err e, []) | ok events ↦ (ok tt, []) ])
  nobody_woken calls d fuel timeout made h =
      let empty = acts-wakers calls d ∙ new-wakers d made in
      ap (λ r. r.0) (poll_wakes fuel (acts calls d) timeout h)
      ∙ unanswered (acts calls d).wakers empty (Mio.poll M (acts calls d).selector 1024 timeout).0
