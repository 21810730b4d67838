-- ===== src/Tests/Memory.antt =====
-- Deallocations at concrete addresses.
use loony_rs_runtime.Base.{ℕ, ◌<◌, ◌≡◌, ◌⊎◌, ◌↔◌, inl, inr, refl, arith, none, [], ◌∷◌, ◌++◌}
use loony_rs_runtime.Task.State.{is_complete}
use loony_rs_runtime.Task.Header.{Polled, Header, clone, ready}
use loony_rs_runtime.Task.Raw.{create_raw_task, poll}
use loony_rs_runtime.Task.Raw.Freed.{deallocations, drop_wakers, freed_early}
use loony_rs_runtime.Task.Layout
use loony_rs_runtime.Task.Layout.{Block, future_ptr, task_layout, task_block, deallocate}
use loony_rs_runtime.Task.Layout.Heap
use loony_rs_runtime.Task.Layout.Heap.{free_all, create_task, deallocate_task}
use loony_rs_runtime.Task.Layout.Undefined.{deallocate_undefined_iff, deallocate_task_undefined}

abbrev sizes : Layout.Sizes
sizes = record {
  header_size = 56;
  header_align = 8;
  future_size = 24;
  future_align = 8;
  output_size = 4;
  output_align = 4;
  output_field = 32;
}

-- Another block, after that of the task at 4096.
abbrev other : Block
other = record { address = 8192; size = 16; align = 8 }

deallocate_undefined_iff_example :
    (free_all
        (deallocate sizes 4096 0x3 (future_ptr sizes 4096))
        (task_block sizes 4096 ∷ other ∷ [])
      ≡ none)
    ↔ ((0 < 24) ⊎ (0 < 4))
unfolding is_complete task_layout
deallocate_undefined_iff_example =
    deallocate_undefined_iff sizes 4096 0x3 (other ∷ []) (omega arith) (omega arith) refl
      (inr (omega arith), tt)

abbrev boxes : Heap.Sizes
boxes = record {
  header_size = 48;
  header_align = 8;
  future_size = 24;
  future_align = 8;
  output_size = 8;
  output_align = 4;
  output_field = 32;
}

deallocate_task_undefined_example :
    free_all (deallocate_task boxes 4096 4160) (create_task boxes 4096 4160 4200 ++ other ∷ [])
    ≡ none
unfolding create_task Layout.boxed
deallocate_task_undefined_example =
    deallocate_task_undefined boxes 4096 4160 4200 (other ∷ []) (omega arith) (omega arith)
      (omega arith)
      (inl (omega arith), (inr (omega arith), (inr (omega arith), (inr (omega arith), tt))))

-- The future keeps three clones of its waker, and is ready.
abbrev keeps_three : ℕ → Polled ℕ ℕ
keeps_three f = record { next = f; calls = clone ∷ clone ∷ clone ∷ []; result = ready 42 }

freed_early_example :
    let h : Header ℕ ℕ ℕ = poll keeps_three 1 (create_raw_task 0) in
    (deallocations (drop_wakers 2 h).events ≡ 1)
    × ((j : ℕ) → j < 2 → deallocations (drop_wakers j h).events ≡ 0)
freed_early_example = freed_early ℕ keeps_three 0 2 0 42 refl (omega arith) (omega arith)
