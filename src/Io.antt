-- ===== src/Io.antt =====
-- `IoDriver`, `PlatformSelector` and `EventsIter` of src/runtime/park.rs, as they are built on unix. mio
-- and slab are not part of the repository: `Mio` and `Slab` stand for what is used of them.
pub mod Poll
pub mod Windows
use loony_rs_runtime.Base.{
  ℕ, zero, suc, ◌+◌, ◌≡◌, Option, none, some, List, [], ◌∷◌, get_elem?, map,
}
use mathlib.Core.Option

pub data Result (E A : Type 0) : Type 0 where
  ok : A → Result E A
  err : E → Result E A

-- A poll answers with the tokens of its events, in the order in which `mio::Events` holds them.
pub record Mio : Type 1 where
  pub Poll : Type 0
  pub Source : Type 0
  pub Error : Type 0
  pub Interests : Type 0
  pub readable : Interests
  pub writable : Interests
  pub both : Interests → Interests → Interests
  pub new : Result Error Poll
  pub register : Poll → Source → ℕ → Interests → Result Error (Unit {0}) × Poll
  pub reregister : Poll → Source → ℕ → Interests → Result Error (Unit {0}) × Poll
  pub deregister : Poll → Source → Result Error (Unit {0}) × Poll
  pub poll : Poll → ℕ → Option ℕ → Result Error (List ℕ) × Poll

-- A slab that was made is empty.
pub record Slab (W : Type 0) : Type 1 where
  pub Items : Type 0
  pub new : Items
  pub get : Items → ℕ → Option W
  pub get-new : (token : ℕ) → get new token ≡ none

pub data Interest : Type 0 where
  readable writable both : Interest

-- `EventsIter::next`, with the index that it leaves.
unfoldable pub next : List ℕ → ℕ → Option ℕ × ℕ
next events index = elim (get_elem? events index) [
  | none ↦ (none, index)
  | some token ↦ (some token, index + 1)
]

module _ (M : Mio) where
  -- The match on the interests in `register` and in `reregister`.
  unfoldable pub mio_interests : Interest → Mio.Interests M
  mio_interests readable = Mio.readable M
  mio_interests writable = Mio.writable M
  mio_interests both = Mio.both M (Mio.readable M) (Mio.writable M)

  -- The methods of `PlatformSelector`.
  unfoldable pub selector_register :
      Mio.Poll M → Mio.Source M → ℕ → Interest → Result (Mio.Error M) (Unit {0}) × Mio.Poll M
  unfolding mio_interests
  selector_register p source token interests =
      Mio.register M p source token (mio_interests interests)

  unfoldable pub selector_reregister :
      Mio.Poll M → Mio.Source M → ℕ → Interest → Result (Mio.Error M) (Unit {0}) × Mio.Poll M
  unfolding mio_interests
  selector_reregister p source token interests =
      Mio.reregister M p source token (mio_interests interests)

  unfoldable pub selector_deregister :
      Mio.Poll M → Mio.Source M → Result (Mio.Error M) (Unit {0}) × Mio.Poll M
  selector_deregister p source = Mio.deregister M p source

  -- With room for so many events.
  unfoldable pub select : Mio.Poll M → ℕ → Option ℕ → Result (Mio.Error M) (List ℕ) × Mio.Poll M
  select p capacity timeout = Mio.poll M p capacity timeout

module _ {W : Type 0} (M : Mio) (S : Slab W) where
  open M use {Poll, Source, Error}
  open S use {Items, get}

  pub record IoDriver : Type 0 where
    pub selector : Poll
    pub wakers : Items

  unfoldable pub new : Result Error IoDriver
  new = elim (Mio.new M) [
    | ok p ↦ ok (record { selector = p; wakers = Slab.new S })
    | err e ↦ err e
  ]

  unfoldable pub register : IoDriver → Source → ℕ → Interest → Result Error (Unit {0}) × IoDriver
  unfolding selector_register
  register d source token interests =
      let r = selector_register M d.selector source token interests in
      (r.0, record d { selector = r.1 })

  unfoldable pub reregister : IoDriver → Source → ℕ → Interest → Result Error (Unit {0}) × IoDriver
  unfolding selector_reregister
  reregister d source token interests =
      let r = selector_reregister M d.selector source token interests in
      (r.0, record d { selector = r.1 })

  unfoldable pub deregister : IoDriver → Source → Result Error (Unit {0}) × IoDriver
  unfolding selector_deregister
  deregister d source =
      let r = selector_deregister M d.selector source in (r.0, record d { selector = r.1 })

  -- The loop over the events: the wakers that it wakes, in order. `none` is fuel that ran out.
  unfoldable pub wake_events : ℕ → List ℕ → ℕ → Items → Option (List W)
  unfolding next
  wake_events zero events index wakers = none
  wake_events (suc fuel) events index wakers =
      let (event, index') = next events index in
      let rest = wake_events fuel events index' wakers in
      elim event [
        | none ↦ some []
        | some token ↦ elim (get wakers token) [
          | none ↦ rest
          | some w ↦ Option.map (λ ws. w ∷ ws) rest
        ]
      ]

  -- `IoDriver::poll`, with room for 1024 events.
  unfoldable pub poll :
      ℕ → IoDriver → Option ℕ → Option (Result Error (Unit {0}) × List W) × IoDriver
  unfolding wake_events select
  poll fuel d timeout =
      let (selected, p) = select M d.selector 1024 timeout in
      let d' = record d { selector = p } in
      elim selected [
        | err e ↦ (some (err e, []), d')
        | ok events ↦ (Option.map (λ ws. (ok tt, ws)) (wake_events fuel events 0 d.wakers), d')
      ]
