-- ===== src/Vm/Heap/Use.antt =====
-- Calls of `VM_alloc` and `VM_free` in sequence, when an allocation succeeds, and what a request near
-- 2 ^ 32 bytes does.
use cyntatic.Prelude.{
  ℕ, ◌+◌, ◌-◌, ◌≤◌, ◌<◌, ◌≡◌, refl, true, false, ◌&&◌, some, [], ◌∷◌, arith, inl, inr, Option-cases,
  leb, ltb, ◌==◌, ==_refl,
}
use cyntatic.Word.{add32, u32_mod, align}
use cyntatic.Vm.Heap.{
  Block, Heap, take_free, take_used, reuse_block, fresh_block, alloc_heap_block, release, free,
}
use cyntatic.Vm.Heap.Valid.{IsValid}
use cyntatic.Vm.Heap.Alloc.{alloc_heap_block-Allocated}

-- The block and the heap that `fresh_block` returns where it succeeds.
abbrev top_block : Heap → ℕ → Block × Heap
top_block h n =
    let b : Block = record { addr = h.top; size = n } in
    (b, record h { used = b ∷ h.used; fresh = h.fresh - 1; top = add32 h.top n })

-- With a spare descriptor and room above the top an allocation succeeds.
pub alloc_heap_block-some :
    (hb blocks : ℕ) (h : Heap) (size : ℕ)
    → IsValid hb blocks h
    → 0 < h.fresh
    → h.top + align size h.aln ≤ h.lmt
    → (r : Block × Heap) × (alloc_heap_block h size ≡ some r)
unfolding alloc_heap_block fresh_block
alloc_heap_block-some hb blocks h size v f room =
    let n = align size h.aln in
    elim (Option-cases (take_free h n h.free)) [
      | inr (r, found) ↦ (reuse_block h n r.0 r.1, rw (found, alloc_heap_block))
      | inl nothing ↦
          let test : (ltb 0 h.fresh && leb (add32 h.top n) h.lmt) ≡ true =
            ground (arith, v.small) in
          (top_block h n, rw (nothing, alloc_heap_block) (rw test))
    ]

-- On a valid heap whose base is not 0 and where the limit and the aligned size do not wrap (their sum
-- is below 2 ^ 32), `VM_free` of the address that an allocation has just returned gives the block back:
-- the call succeeds, and the list of blocks in use is the one before the allocation.
pub free-alloc :
    (hb blocks : ℕ) (h : Heap) (size : ℕ) {r : Block × Heap}
    → IsValid hb blocks h
    → 0 < hb
    → h.lmt + align size h.aln < u32_mod
    → alloc_heap_block h size ≡ some r
    → ((free r.1 r.0.addr).0 ≡ true) × ((free r.1 r.0.addr).1.used ≡ h.used)
unfolding free take_used release
free-alloc hb blocks h size {r} v pos fits e =
    let a = alloc_heap_block-Allocated hb blocks h size v fits e in
    let nz : (r.0.addr == 0) ≡ false = ground (arith, a.within) in
    rw (nz, a.listed, ==_refl r.0.addr) (refl, refl)

-- A request whose aligned size carries the top past 2 ^ 32 is granted where the free list is empty and
-- a descriptor is spare: the block returned ends beyond the heap's limit, and the top moves down.
pub alloc_heap_block_wraps :
    (hb blocks : ℕ) (h : Heap) (size : ℕ)
    → IsValid hb blocks h
    → 0 < h.fresh
    → h.free ≡ []
    → align size h.aln < u32_mod
    → u32_mod ≤ h.top + align size h.aln
    → (r : Block × Heap) × (alloc_heap_block h size ≡ some r)
      × (h.lmt < r.0.addr + r.0.size)
      × (r.1.top < h.top)
unfolding alloc_heap_block fresh_block take_free
alloc_heap_block_wraps hb blocks h size v f e small wraps =
    let n = align size h.aln in
    let low : add32 h.top n < h.top = omega (arith, v.small, v.high) in
    let test : (ltb 0 h.fresh && leb (add32 h.top n) h.lmt) ≡ true = ground (arith, v.high) in
    (top_block h n, rw (e, test), omega (arith, v.small), low)
