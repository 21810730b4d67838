-- ===== src/Task/Layout.antt =====
-- The one allocation of a task in src/task/raw.rs: `task_layout`, the pointers that `create_raw_task`
-- puts into it, and what `deallocate` gives back. An address is a number, and 0 the null pointer.
pub mod Frees
pub mod Heap
pub mod Undefined
use loony_rs_runtime.Base.{
  ℕ, ◌+◌, ◌-◌, ◌==◌, ltb, bit_and, Bool, true, false, not, ◌&&◌, if◌then◌else◌, List, [], ◌∷◌, ◌++◌,
}
use loony_rs_runtime.Task.State.{complete}

-- The sizes and alignments of the header, the future and the output, which the compiler chooses, and
-- the offset of the header's field `output`.
pub record Sizes : Type 0 where
  pub header_size : ℕ
  pub header_align : ℕ
  pub future_size : ℕ
  pub future_align : ℕ
  pub output_size : ℕ
  pub output_align : ℕ
  pub output_field : ℕ

pub record Layout : Type 0 where
  pub size : ℕ
  pub align : ℕ

-- `usize::max`
abbrev pub max : ℕ → ℕ → ℕ
max a b = if ltb a b then b else a

unfoldable pub task_layout : Sizes → Layout
task_layout s = record {
  size = s.header_size + s.future_size + s.output_size;
  align = max (max s.header_align s.future_align) s.output_align;
}

-- `ptr.add(1) as *mut F` and `future_ptr.add(1) as *mut T`, for a header at `ptr`.
unfoldable pub future_ptr : Sizes → ℕ → ℕ
future_ptr s ptr = ptr + s.header_size

unfoldable pub output_ptr : Sizes → ℕ → ℕ
unfolding future_ptr
output_ptr s ptr = future_ptr s ptr + s.future_size

-- A block of the heap: its address, and the layout that it was allocated with.
pub record Block : Type 0 where
  pub address : ℕ
  pub size : ℕ
  pub align : ℕ

-- What the drop of `Box::from_raw` frees: nothing, if the value has no size.
unfoldable pub boxed : ℕ → ℕ → ℕ → List Block
boxed address size align =
    if size == 0 then [] else record { address = address; size = size; align = align } ∷ []

-- The block that `create_raw_task` asks for.
unfoldable pub task_block : Sizes → ℕ → Block
unfolding task_layout
task_block s ptr = record {
  address = ptr;
  size = (task_layout s).size;
  align = (task_layout s).align;
}

-- `deallocate`: the blocks that it frees, in order, for the header at `ptr` with the given word and
-- future pointer. `destroy_future` and `destroy_output` free their argument with `Box::from_raw`, and
-- the argument of the second is the address of the field `output`.
unfoldable pub deallocate : Sizes → ℕ → ℕ → ℕ → List Block
unfolding boxed task_block
deallocate s ptr state future =
    let output = ptr + s.output_field in
    let first = if future == 0 then [] else boxed future s.future_size s.future_align in
    let second =
      if not (output == 0) && not (bit_and state complete.bits == 0)
      then boxed output s.output_size s.output_align
      else [] in
    first ++ (second ++ task_block s ptr ∷ [])
