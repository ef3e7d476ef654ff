-- ===== src/Vm/Heap.antt =====
-- The heap of the virtual machine (src/vm/memory.c): linked lists of block descriptors. A list of
-- blocks stands for a chain of `HeapBlock`s; the fields of a descriptor on the `fresh` chain are never
-- read, so that chain is its length.
pub mod Cover
pub mod Shape
pub mod Valid
pub mod Alloc
pub mod Free
pub mod Use
mod Tests
use cyntatic.Prelude.{
  ℕ, zero, suc, ◌+◌, ◌-◌, ◌%◌, Bool, true, false, ◌&&◌, ◌||◌, Option, none, some, List, [], ◌∷◌,
  leb, ltb, ◌==◌, if◌then◌else◌,
}
use cyntatic.Word.{u32_mod, add32, sub32, align}

pub record Block : Type 0 where
  pub addr : ℕ
  pub size : ℕ

pub record Heap : Type 0 where
  pub free : List Block
  pub used : List Block
  pub fresh : ℕ
  pub top : ℕ
  pub sth : ℕ
  pub lmt : ℕ
  pub aln : ℕ

-- `VM_heap_init_`: the loop chains `blocks - 1` further descriptors to the first; the `u32`
-- subtraction wraps at 0.
unfoldable pub heap_init : ℕ → ℕ → ℕ → ℕ → ℕ → Heap
heap_init hb hlm blocks sth alignment = record {
  free = [];
  used = [];
  fresh = sub32 blocks 1 + 1;
  top = hb;
  sth = sth;
  lmt = hlm;
  aln = alignment;
}

-- `VM_heap_insert_heap_block`: before the first block at the same address or above it.
unfoldable pub insert_heap_block : Block → List Block → List Block
insert_heap_block b [] = b ∷ []
insert_heap_block b (p ∷ ps) = if leb b.addr p.addr then b ∷ p ∷ ps else p ∷ insert_heap_block b ps

-- The end of one round of `VM_heap_compact`: `ptr` is the block under the cursor, `prev` the last
-- block of its run, `n` the number of blocks behind `ptr` that the run swallows.
unfoldable pub close_run : Block → Block → ℕ → Block
close_run ptr prev n =
    if n == 0 then ptr else record ptr { size = add32 (sub32 prev.addr ptr.addr) prev.size }

-- The two loops of `VM_heap_compact`, with the number of descriptors that
-- `VM_heap_release_heap_blocks` returns to the `fresh` chain.
unfoldable pub compact_run : Block → Block → ℕ → List Block → List Block × ℕ
unfolding close_run
compact_run ptr prev n [] = (close_run ptr prev n ∷ [], n)
compact_run ptr prev n (scan ∷ rest) =
    let longer = compact_run ptr scan (n + 1) rest in
    let r = compact_run scan scan 0 rest in
    let closed : List Block × ℕ = (close_run ptr prev n ∷ r.0, n + r.1) in
    if add32 prev.addr prev.size == scan.addr then longer else closed

unfoldable pub compact : List Block → List Block × ℕ
unfolding compact_run
compact [] = ([], 0)
compact (b ∷ bs) = compact_run b b 0 bs

-- The block ends at the top of the heap, and can be resized in place to `size`.
unfoldable pub is_top : Heap → ℕ → Block → Bool
is_top h size p = leb h.top (add32 p.addr p.size) && leb (add32 p.addr size) h.lmt

-- The block found by a search, once the search has passed `q`.
unfoldable pub behind : Block → Option (Block × List Block) → Option (Block × List Block)
behind q none = none
behind q (some r) = some (r.0, q ∷ r.1)

-- The search of `VM_heap_alloc_heap_block` along the free list: the block it unlinks, and the rest.
unfoldable pub take_free : Heap → ℕ → List Block → Option (Block × List Block)
unfolding is_top behind
take_free h size [] = none
take_free h size (p ∷ ps) =
    if is_top h size p || leb size p.size then some (p, ps) else behind p (take_free h size ps)

-- The block found has room to spare: a fresh descriptor takes the excess.
unfoldable pub split_block : Heap → ℕ → Block → List Block → Block × Heap
unfolding insert_heap_block compact
split_block h size p rest =
    let b = record p { size = size } in
    let excess : Block = record { addr = add32 p.addr size; size = sub32 p.size size } in
    let c = compact (insert_heap_block excess rest) in
    (b, record h { free = c.0; used = b ∷ h.used; fresh = h.fresh - 1 + c.1 })

-- A block of the free list is used again.
unfoldable pub reuse_block : Heap → ℕ → Block → List Block → Block × Heap
unfolding is_top split_block
reuse_block h size p rest =
    let b = record p { size = size } in
    if is_top h size p
    then (b, record h { free = rest; used = b ∷ h.used; top = add32 p.addr size })
    else if ltb 0 h.fresh && leb h.sth (sub32 p.size size)
    then split_block h size p rest
    else (p, record h { free = rest; used = p ∷ h.used })

-- Nothing on the free list serves: a fresh descriptor takes a block at the top.
unfoldable pub fresh_block : Heap → ℕ → Option (Block × Heap)
fresh_block h size =
    let new_top = add32 h.top size in
    let b : Block = record { addr = h.top; size = size } in
    if ltb 0 h.fresh && leb new_top h.lmt
    then some (b, record h { used = b ∷ h.used; fresh = h.fresh - 1; top = new_top })
    else none

-- `VM_heap_alloc_heap_block`.
unfoldable pub alloc_heap_block : Heap → ℕ → Option (Block × Heap)
unfolding take_free reuse_block fresh_block align
alloc_heap_block h size =
    let n = align size h.aln in
    elim (take_free h n h.free) [ some r ↦ some (reuse_block h n r.0 r.1) | none ↦ fresh_block h n ]

-- `VM_alloc`: the address of the block, 0 if there is none.
unfoldable pub alloc : Heap → ℕ → ℕ × Heap
unfolding alloc_heap_block
alloc h size = elim (alloc_heap_block h size) [ some r ↦ (r.0.addr, r.1) | none ↦ (0, h) ]

-- The search of `VM_free` along the used list.
unfoldable pub take_used : ℕ → List Block → Option (Block × List Block)
unfolding behind
take_used mem [] = none
take_used mem (b ∷ bs) = if mem == b.addr then some (b, bs) else behind b (take_used mem bs)

unfoldable pub release : Heap → Block → List Block → Heap
unfolding insert_heap_block compact
release h b rest =
    let c = compact (insert_heap_block b h.free) in
    record h { free = c.0; used = rest; fresh = h.fresh + c.1 }

-- `VM_free`.
unfoldable pub free : Heap → ℕ → Bool × Heap
unfolding take_used release
free h mem =
    if mem == 0
    then (false, h)
    else elim (take_used mem h.used) [ some r ↦ (true, release h r.0 r.1) | none ↦ (false, h) ]
