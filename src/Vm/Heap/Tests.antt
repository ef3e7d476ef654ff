-- ===== src/Vm/Heap/Tests.antt =====
-- Runs of the heap, and its theorems at concrete heaps.
use cyntatic.Prelude.{ℕ, ◌+◌, ◌<◌, ◌≡◌, refl, true, false, some, [], ◌∷◌, arith, ◌⊎◌}
use cyntatic.Word.{align}
use cyntatic.Vm.Heap.{Block, Heap, heap_init, alloc_heap_block, free}
use cyntatic.Vm.Heap.Valid.{IsValid, heap_init-IsValid}
use cyntatic.Vm.Heap.Alloc.{Allocated, alloc_heap_block-Allocated}
use cyntatic.Vm.Heap.Free.{Freed, free-Freed}
use cyntatic.Vm.Heap.Use.{free-alloc, alloc_heap_block_wraps}

abbrev block : ℕ → ℕ → Block
block a n = record { addr = a; size = n }

abbrev start : Heap
start = record { free = []; used = []; fresh = 4; top = 16; sth = 16; lmt = 1000; aln = 8 }

abbrev one_used : Heap
one_used = record start { used = block 16 16 ∷ []; fresh = 3; top = 32 }

-- Three blocks, of which the two outer ones are free.
abbrev holes : Heap
holes = record start {
  free = block 16 64 ∷ [];
  used = block 80 8 ∷ block 88 16 ∷ [];
  fresh = 1;
  top = 104;
}

split_runs :
    alloc_heap_block holes 9
    ≡ some (
      block 16 16,
      record holes { free = block 32 48 ∷ []; used = block 16 16 ∷ holes.used; fresh = 0 },
    )
unfolding alloc_heap_block
split_runs = refl

merge_runs :
    free holes 80
    ≡ (true, record holes { free = block 16 72 ∷ []; used = block 88 16 ∷ []; fresh = 2 })
unfolding free
merge_runs = refl

start-IsValid : IsValid 16 4 start
unfolding heap_init
start-IsValid =
    heap_init-IsValid 16 1000 4 16 8 (omega arith) (omega arith) (omega arith) (omega arith)

heap_init-IsValid_example : IsValid 16 4 (heap_init 16 1000 4 16 8)
heap_init-IsValid_example =
    heap_init-IsValid 16 1000 4 16 8 (omega arith) (omega arith) (omega arith) (omega arith)

alloc_heap_block-Allocated_example : Allocated 16 4 start (align 10 8) (block 16 16) one_used
unfolding alloc_heap_block
alloc_heap_block-Allocated_example =
    alloc_heap_block-Allocated 16 4 start 10 start-IsValid (omega arith) refl

one_used-IsValid : IsValid 16 4 one_used
one_used-IsValid = alloc_heap_block-Allocated_example.valid

free-Freed_example :
    ((free one_used 16).0 ≡ true) × Freed 16 4 16 one_used (free one_used 16).1
    ⊎ ((free one_used 16).0 ≡ false) × ((free one_used 16).1 ≡ one_used)
free-Freed_example = free-Freed 16 4 16 one_used one_used-IsValid

free-alloc_example : ((free one_used 16).0 ≡ true) × ((free one_used 16).1.used ≡ [])
unfolding alloc_heap_block
free-alloc_example = free-alloc 16 4 start 10 start-IsValid (omega arith) (omega arith) refl

alloc_heap_block_wraps_example :
    (r : Block × Heap) × (alloc_heap_block one_used 0xffff_fff0 ≡ some r)
    × (1000 < r.0.addr + r.0.size)
    × (r.1.top < 32)
unfolding align
alloc_heap_block_wraps_example =
    alloc_heap_block_wraps 16 4 one_used 0xffff_fff0 one_used-IsValid (omega arith) refl
      (omega arith) (omega arith)
