-- ===== src/Task/Layout/Undefined.antt =====
-- Deallocations that free what was never allocated.
use loony_rs_runtime.Base.{
  ℕ, ◌+◌, ◌==◌, ◌≡◌, ◌<◌, ◌≤◌, ◌⊎◌, ◌↔◌, refl, arith, true, Bool-cases, Option-cases, inl, inr,
  none, some, List, [], ◌∷◌, ◌++◌, All,
}
use mathlib.Core.Path.{subst}
use mathlib.Core.Option.{some-injective}
use loony_rs_runtime.Bits.{bit_and_three}
use loony_rs_runtime.Task.State.{from_bits, is_complete}
use loony_rs_runtime.Task.State.Fields.{is_complete_lem}
use loony_rs_runtime.Task.Layout.{Block, boxed, task_block, task_layout, future_ptr, deallocate}
use loony_rs_runtime.Task.Layout
use loony_rs_runtime.Task.Layout.Heap.{free, free_all, create_task, deallocate_task}
use loony_rs_runtime.Task.Layout.Heap

-- No block of the heap starts inside the `size` bytes after `ptr`.
abbrev pub Apart : ℕ → ℕ → List Block → Type 0
Apart ptr size heap = All (λ b. (b.address ≤ ptr) ⊎ (ptr + size ≤ b.address)) heap

-- A free inside of them is undefined.
free_inside :
    (ptr size : ℕ) (b : Block) (heap : List Block)
    → Apart ptr size heap
    → ptr < b.address
    → b.address < ptr + size
    → free b heap ≡ none
unfolding free
free_inside ptr size b [] apart lo hi = refl
free_inside ptr size b (c ∷ heap) (out, apart) lo hi =
    ground (arith, free_inside ptr size b heap apart lo hi, out)

free_head : (b : Block) (heap : List Block) → free b (b ∷ heap) ≡ some heap
unfolding free
free_head b heap = ground arith

free_first : (b : Block) (bs heap : List Block) → free b heap ≡ none → free_all (b ∷ bs) heap ≡ none
unfolding free_all
free_first b bs heap e = ground arith

boxed_empty : (address size align : ℕ) → size ≡ 0 → boxed address size align ≡ []
unfolding boxed
boxed_empty address size align e = rw e refl

boxed_full :
    (address size align : ℕ)
    → 0 < size
    → boxed address size align ≡ record { address = address; size = size; align = align } ∷ []
unfolding boxed
boxed_full address size align h = elim (Bool-cases (size == 0)) [
  | inl z ↦ absurd (ground arith)
  | inr p ↦ rw p refl
]

-- So frees that begin with a value with a size, somewhere inside, are undefined.
boxed_inside :
    (ptr size address value_size align : ℕ) (rest heap : List Block)
    → Apart ptr size heap
    → ptr < address
    → address < ptr + size
    → 0 < value_size
    → free_all (boxed address value_size align ++ rest) heap ≡ none
boxed_inside ptr size address value_size align rest heap apart lo hi full =
    rw (boxed_full address value_size align full)
      (free_first _ rest heap (free_inside ptr size _ heap apart lo hi))

-- What the deallocation of a complete task frees.
deallocate_complete :
    (s : Layout.Sizes) (ptr state : ℕ)
    → 0 < s.output_field
    → 0 < s.header_size
    → is_complete (from_bits state) ≡ true
    → deallocate s ptr state (future_ptr s ptr)
      ≡ boxed (future_ptr s ptr) s.future_size s.future_align
        ++ (boxed (ptr + s.output_field) s.output_size s.output_align ++ task_block s ptr ∷ [])
unfolding deallocate future_ptr
deallocate_complete s ptr state lo hi done =
    ground (arith, bit_and_three state, is_complete_lem (from_bits state))

-- The deallocation of a complete task of raw.rs whose field `output` lies inside the header past its
-- start, with no other block starting inside its own: it is undefined exactly if the future or the output
-- has a size.
pub deallocate_undefined_iff :
    (s : Layout.Sizes) (ptr state : ℕ) (heap : List Block)
    → 0 < s.output_field
    → s.output_field < s.header_size
    → is_complete (from_bits state) ≡ true
    → Apart ptr (task_layout s).size heap
    → (free_all (deallocate s ptr state (future_ptr s ptr)) (task_block s ptr ∷ heap) ≡ none)
      ↔ ((0 < s.future_size) ⊎ (0 < s.output_size))
unfolding free_all future_ptr task_block task_layout
deallocate_undefined_iff s ptr state heap lo hi done apart =
    let frees = deallocate_complete s ptr state lo (omega arith) done in
    let inside = boxed_inside ptr (task_layout s).size in
    let task = task_block s ptr in
    let apart' : Apart ptr (task_layout s).size (task ∷ heap) = (inl (omega arith), apart) in
    elim (Bool-cases (s.future_size == 0)) [
      | inr has_future ↦
          let full : 0 < s.future_size = ground arith in
          let undefined =
            inside (future_ptr s ptr) s.future_size s.future_align
              (boxed (ptr + s.output_field) s.output_size s.output_align ++ task ∷ []) (task ∷ heap)
              apart' (omega arith) (omega arith) full in
          (λ e. inl full, λ e. rw frees undefined)
      | inl no_future ↦
          let frees' = boxed_empty (future_ptr s ptr) s.future_size s.future_align (ground arith) in
          elim (Bool-cases (s.output_size == 0)) [
            | inr has_output ↦
                let full : 0 < s.output_size = ground arith in
                let undefined =
                  inside (ptr + s.output_field) s.output_size s.output_align (task ∷ [])
                    (task ∷ heap) apart' (omega arith) (omega arith) full in
                (λ e. inr full, λ e. rw (frees, frees') undefined)
            | inl no_output ↦
                let frees'' =
                  boxed_empty (ptr + s.output_field) s.output_size s.output_align (ground arith) in
                let freed = free_head task heap in
                (
                  λ e. absurd (ground (arith, rw (frees, frees', frees'') at e)),
                  λ e. absurd (ground arith),
                )
          ]
    ]

free-Apart :
    (ptr size : ℕ) (b : Block) (heap heap' : List Block)
    → Apart ptr size heap
    → free b heap ≡ some heap'
    → Apart ptr size heap'
unfolding free
free-Apart ptr size b [] heap' apart e = absurd (ground arith)
free-Apart ptr size b (c ∷ heap) heap' (out, apart) e = elim (Bool-cases (Heap.same b c)) [
  | inl found ↦ subst (Apart ptr size) (some-injective heap heap' (ground (arith, found, e))) apart
  | inr other ↦ elim (Option-cases (free b heap)) [
    | inl stuck ↦ absurd (ground (arith, stuck, other, e))
    | inr (rest, q) ↦
        subst (Apart ptr size) (some-injective (c ∷ rest) heap' (ground (arith, q, other, e)))
          (out, free-Apart ptr size b heap rest apart q)
  ]
]

-- `deallocate_task` of mod.rs is undefined for a task of `create_task` whose output has a size, as long
-- as no block of the heap starts inside its header: it frees an address inside.
pub deallocate_task_undefined :
    (s : Heap.Sizes) (header future output : ℕ) (heap : List Block)
    → 0 < s.output_field
    → s.output_field < s.header_size
    → 0 < s.output_size
    → Apart header s.header_size (create_task s header future output ++ heap)
    → free_all (deallocate_task s header future) (create_task s header future output ++ heap) ≡ none
unfolding deallocate_task free_all
deallocate_task_undefined s header future output heap lo hi full apart =
    let made = create_task s header future output ++ heap in
    let last = boxed header s.header_size s.header_align in
    let stuck : (h : List Block)
        → Apart header s.header_size h
        → free_all (boxed (header + s.output_field) s.output_size s.output_align ++ last) h ≡ none =
      λ h out.
        boxed_inside header s.header_size (header + s.output_field) s.output_size s.output_align
          last h out (omega arith) (omega arith) full in
    elim (Bool-cases (s.future_size == 0)) [
      | inl no_future ↦
          rw (boxed_empty future s.future_size s.future_align (ground arith)) (stuck made apart)
      | inr has_future ↦ rw (boxed_full future s.future_size s.future_align (ground arith)) (
          free_then (record { address = future; size = s.future_size; align = s.future_align }) _
            made (λ h e. stuck h (free-Apart header s.header_size _ made h apart e)))
    ]
  where
    free_then :
        (b : Block) (bs h : List Block)
        → ((h' : List Block) → free b h ≡ some h' → free_all bs h' ≡ none)
        → free_all (b ∷ bs) h ≡ none
    free_then b bs h rest = elim (Option-cases (free b h)) [
      | inl e ↦ free_first b bs h e
      | inr (h', e) ↦ ground (arith, e, rest h' e)
    ]
