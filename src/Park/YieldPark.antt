-- ===== src/Park/YieldPark.antt =====
-- `YieldPark` of src/runtime/park.rs.
use loony_rs_runtime.Base.{
  ℕ, zero, suc, ◌≡◌, refl, Bool, false, if◌then◌else◌, Option, none, some, List, [], ◌∷◌, leb,
}
use mathlib.Core.Option

pub record YieldPark : Type 0 where
  pub should_park : Bool

unfoldable pub new : YieldPark
new = record { should_park = false }

-- `YieldPark::park` where no other thread acts on the flag: how often it yields. `none` is fuel that
-- ran out.
unfoldable pub park : ℕ → YieldPark → Option ℕ
park zero p = none
park (suc fuel) p = let rest = park fuel p in if p.should_park then Option.map suc rest else some 0

-- `YieldPark::park_timeout`, with what `start.elapsed()` answers in each round.
unfoldable pub park_timeout : List ℕ → ℕ → YieldPark → Option ℕ
park_timeout [] duration p = if p.should_park then none else some 0
park_timeout (elapsed ∷ es) duration p =
    let rest = park_timeout es duration p in
    if p.should_park then (if leb duration elapsed then some 0 else Option.map suc rest) else some 0

unfoldable pub unpark : YieldPark → YieldPark
unpark p = record { should_park = false }

-- The calls that the module offers on one `YieldPark`; `park` and `park_timeout` write nothing.
pub data Op : Type 0 where
  parks unparks : Op

abbrev pub act : List Op → YieldPark → YieldPark
act [] p = p
act (parks ∷ os) p = act os p
act (unparks ∷ os) p = act os (unpark p)

act-should_park :
    (os : List Op) (p : YieldPark) → p.should_park ≡ false → (act os p).should_park ≡ false
unfolding unpark
act-should_park [] p e = e
act-should_park (parks ∷ os) p e = act-should_park os p e
act-should_park (unparks ∷ os) p e = act-should_park os (unpark p) refl

-- After any calls on a new `YieldPark` a park returns at once, without yielding, notified or not.
pub never_parks :
    (os : List Op) (fuel duration : ℕ) (elapsed : List ℕ)
    → (park (suc fuel) (act os new) ≡ some 0)
      × (park_timeout elapsed duration (act os new) ≡ some 0)
unfolding park park_timeout new
never_parks os fuel duration [] = let e = act-should_park os new refl in (rw e refl, rw e refl)
never_parks os fuel duration (t ∷ ts) =
    let e = act-should_park os new refl in (rw e refl, rw e refl)
