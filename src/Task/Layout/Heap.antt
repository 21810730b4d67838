-- ===== src/Task/Layout/Heap.antt =====
-- The heap that the allocations come from, and what src/task/mod.rs gives back to it.
use loony_rs_runtime.Base.{
  ℕ, ◌+◌, ◌==◌, ◌&&◌, Bool, if◌then◌else◌, Option, none, some, List, [], ◌∷◌, ◌++◌,
}
use mathlib.Core.Option
use loony_rs_runtime.Task.Layout.{Block, boxed}

abbrev pub same : Block → Block → Bool
same a b = a.address == b.address && a.size == b.size && a.align == b.align

-- The blocks that are allocated. A free with an address or a layout that is none of theirs is undefined
-- behaviour, for which `none` stands.
unfoldable pub free : Block → List Block → Option (List Block)
free b [] = none
free b (c ∷ heap) =
    let rest = free b heap in if same b c then some heap else Option.map (λ h. c ∷ h) rest

unfoldable pub free_all : List Block → List Block → Option (List Block)
unfolding free
free_all [] heap = some heap
free_all (b ∷ bs) heap = elim (free b heap) [ none ↦ none | some heap' ↦ free_all bs heap' ]

-- The sizes of a task of src/task/mod.rs: the output's is that of the `Option` around it, and
-- `output_field` the offset of the header's field `output`.
pub record Sizes : Type 0 where
  pub header_size : ℕ
  pub header_align : ℕ
  pub future_size : ℕ
  pub future_align : ℕ
  pub output_size : ℕ
  pub output_align : ℕ
  pub output_field : ℕ

-- The boxes that `create_task` makes, at the addresses of the header, the future and the output.
unfoldable pub create_task : Sizes → ℕ → ℕ → ℕ → List Block
unfolding boxed
create_task s header future output =
    boxed header s.header_size s.header_align
    ++ boxed future s.future_size s.future_align
    ++ boxed output s.output_size s.output_align

-- `deallocate_task`, which takes the address of the field `output` for that of the output's box.
unfoldable pub deallocate_task : Sizes → ℕ → ℕ → List Block
unfolding boxed
deallocate_task s header future =
    boxed future s.future_size s.future_align
    ++ (boxed (header + s.output_field) s.output_size s.output_align
        ++ boxed header s.header_size s.header_align)
