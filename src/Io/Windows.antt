-- ===== src/Io/Windows.antt =====
-- The branches of `PlatformSelector`, `Events` and `EventsIter` in src/runtime/park.rs for Windows. The
-- completion ports are not part of the repository: `Iocp` stands for what is used of them.
use loony_rs_runtime.Base.{
  ℕ, zero, suc, ◌+◌, ◌≡◌, refl, arith, ltb, Bool-cases, if◌then◌else◌, inl, inr, Option, none, List,
  [], ◌∷◌, get_elem?, get_elem?-lt, ◌≤◌, length, map,
}
use mathlib.Core.Option
use loony_rs_runtime.Io.{Result, ok, err, Interest}
use loony_rs_runtime.Io

pub record Iocp : Type 1 where
  pub CompletionPort : Type 0
  pub Source : Type 0
  pub Error : Type 0
  pub Event : Type 0
  pub new : ℕ → Result Error CompletionPort
  pub token : Event → ℕ

module _ (C : Iocp) where
  open C use {CompletionPort, Source, Error, Event, token}

  -- The methods of `PlatformSelector`; `select` leaves the events as they are.
  unfoldable pub selector_new : Result Error CompletionPort
  selector_new = C.new 0

  unfoldable pub selector_register :
      CompletionPort → Source → ℕ → Interest → Result Error (Unit {0}) × CompletionPort
  selector_register p source token' interests = (ok tt, p)

  unfoldable pub selector_reregister :
      CompletionPort → Source → ℕ → Interest → Result Error (Unit {0}) × CompletionPort
  selector_reregister p source token' interests = (ok tt, p)

  unfoldable pub selector_deregister :
      CompletionPort → Source → Result Error (Unit {0}) × CompletionPort
  selector_deregister p source = (ok tt, p)

  unfoldable pub select :
      CompletionPort → List Event → Option ℕ → Result Error (Unit {0}) × List Event
  select p events timeout = (ok tt, events)

  -- `Events::with_capacity`
  unfoldable pub with_capacity : ℕ → List Event
  with_capacity capacity = []

  -- `EventsIter::next`, with the index that it leaves.
  unfoldable pub next : List Event → ℕ → Option ℕ × ℕ
  next events index =
      if ltb index (length events)
      then (Option.map token (get_elem? events index), index + 1)
      else (none, index)

  get_elem?-map :
      (events : List Event) (index : ℕ)
      → get_elem? (map token events) index ≡ Option.map token (get_elem? events index)
  get_elem?-map [] index = refl
  get_elem?-map (e ∷ es) zero = refl
  get_elem?-map (e ∷ es) (suc i) = get_elem?-map es i

  get_elem?-past :
      (events : List Event) (index : ℕ) → length events ≤ index → get_elem? events index ≡ none
  get_elem?-past [] index h = refl
  get_elem?-past (e ∷ es) zero h = absurd (omega arith)
  get_elem?-past (e ∷ es) (suc i) h = get_elem?-past es i (omega arith)

  -- `EventsIter::next` is the same for Windows as for unix, over the tokens of the events.
  pub next_lem :
      (events : List Event) (index : ℕ) → next events index ≡ Io.next (map token events) index
  unfolding next Io.next
  next_lem events index = elim (Bool-cases (ltb index (length events))) [
    | inl lt ↦
        let (e, found) = get_elem?-lt events index (ground arith) in
        ground (arith, found, get_elem?-map events index)
    | inr ge ↦
        let past = get_elem?-past events index (ground arith) in
        ground (arith, past, get_elem?-map events index)
  ]

  -- What is registered with a selector, one call after the other.
  abbrev pub registers : List (Source × ℕ × Interest) → CompletionPort → CompletionPort
  registers [] p = p
  registers ((source, t, interests) ∷ rest) p =
      registers rest (selector_register p source t interests).1

  -- Whatever was registered, a selection succeeds, and the first event is none.
  pub select_delivers_nothing :
      (calls : List (Source × ℕ × Interest)) (p : CompletionPort) (capacity : ℕ)
      (timeout : Option ℕ)
      → let (r, events) = select (registers calls p) (with_capacity capacity) timeout in
        (r ≡ ok tt) × (next events 0 ≡ (none, 0))
  unfolding select with_capacity next
  select_delivers_nothing calls p capacity timeout = (refl, ground arith)
