-- ===== src/Task/Waker/Tables.antt =====
-- The wakers of src/task/waker.rs that have no task: `noop_waker` and `panic_waker`. A call panics or does
-- nothing, and the data pointer is null.
use loony_rs_runtime.Base.{Bool, true, false, ◌||◌, ◌≡◌, refl, List, [], ◌∷◌}
use loony_rs_runtime.Task.Header.{WakerCall, clone, wake, wake_by_ref, drop}

-- Whether a call panics.
unfoldable pub noop_waker : WakerCall → Bool
noop_waker clone = false
noop_waker wake = false
noop_waker wake_by_ref = false
noop_waker drop = false

unfoldable pub panic_waker : WakerCall → Bool
panic_waker clone = false
panic_waker wake = true
panic_waker wake_by_ref = true
panic_waker drop = false

-- Whether one of the calls does, with the same table for the clones.
abbrev pub panics : (WakerCall → Bool) → List WakerCall → Bool
panics table [] = false
panics table (c ∷ cs) = table c || panics table cs

abbrev pub has_wake : List WakerCall → Bool
has_wake [] = false
has_wake (clone ∷ cs) = has_wake cs
has_wake (wake ∷ cs) = true
has_wake (wake_by_ref ∷ cs) = true
has_wake (drop ∷ cs) = has_wake cs

-- The waker of `noop_waker` never panics, and that of `panic_waker` exactly if it is woken.
pub tables_lem :
    (cs : List WakerCall) → (panics noop_waker cs ≡ false) × (panics panic_waker cs ≡ has_wake cs)
unfolding noop_waker panic_waker
tables_lem [] = (refl, refl)
tables_lem (clone ∷ cs) = tables_lem cs
tables_lem (wake ∷ cs) = ((tables_lem cs).0, refl)
tables_lem (wake_by_ref ∷ cs) = ((tables_lem cs).0, refl)
tables_lem (drop ∷ cs) = tables_lem cs
