-- ===== src/Task/Layout/Frees.antt =====
-- Whether the parts fit the allocation, whether they are aligned, and what is freed.
use loony_rs_runtime.Base.{ℕ, ◌+◌, ◌%◌, ◌<◌, ◌≡◌, ◌↔◌, sym, ap, ◌∙◌, arith, true, [], ◌∷◌, map, All}
use native.Mathlib.Nat.{mod-add-mod, zero-add, add_assoc}
use loony_rs_runtime.Bits.{bit_and_three}
use loony_rs_runtime.Task.State.{from_bits, is_complete}
use loony_rs_runtime.Task.State.Fields.{is_complete_lem}
use loony_rs_runtime.Task.Layout.{
  Sizes, task_layout, future_ptr, output_ptr, boxed, task_block, deallocate,
}

-- In an allocation that is aligned for the output, the output storage is aligned exactly if the sizes
-- of the header and the future add up to a multiple of its alignment: no padding is put before it.
pub output_aligned_iff :
    (s : Sizes) (ptr : ℕ)
    → ptr % s.output_align ≡ 0
    → (output_ptr s ptr % s.output_align ≡ 0)
      ↔ ((s.header_size + s.future_size) % s.output_align ≡ 0)
unfolding output_ptr future_ptr
output_aligned_iff s ptr h =
    let same : (ptr + s.header_size + s.future_size) % s.output_align
        ≡ (s.header_size + s.future_size) % s.output_align =
      ap (λ n. n % s.output_align) (add_assoc ptr s.header_size s.future_size)
      ∙ sym (mod-add-mod ptr s.output_align (s.header_size + s.future_size))
      ∙ ap (λ n. (n + (s.header_size + s.future_size)) % s.output_align) h
      ∙ ap (λ n. n % s.output_align) (zero-add (s.header_size + s.future_size)) in
    (λ e. sym same ∙ e, λ e. same ∙ e)

-- The deallocation of a complete task whose future and output have a size frees three blocks. Only the
-- last is at the address of an allocation: the first two lie inside it, past its start.
pub deallocate_frees :
    (s : Sizes) (ptr state : ℕ)
    → 0 < s.output_field
    → s.output_field < s.header_size
    → 0 < s.future_size
    → 0 < s.output_size
    → is_complete (from_bits state) ≡ true
    → (map (λ b. b.address) (deallocate s ptr state (future_ptr s ptr))
        ≡ future_ptr s ptr ∷ (ptr + s.output_field) ∷ ptr ∷ [])
      × All
          (λ a. (ptr < a) × (a < ptr + (task_layout s).size))
          (future_ptr s ptr ∷ (ptr + s.output_field) ∷ [])
unfolding deallocate boxed future_ptr task_layout task_block
deallocate_frees s ptr state lo hi has_future has_output done =
    let mark = is_complete_lem (from_bits state) in
    (ground (arith, bit_and_three state, mark), omega arith)
