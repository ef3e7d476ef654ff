-- ===== src/Vm/Heap/Free.antt =====
-- `VM_free` (src/vm/memory.c) keeps the heap valid, and moves exactly one block from the used list to
-- the free list.
use cyntatic.Prelude.{
  ℕ, ◌+◌, ◌≡◌, refl, ◌∙◌, true, false, List, arith, ◌⊎◌, inl, inr, Bool-cases, Option-cases, ◌==◌,
}
use cyntatic.Word.{u32_mod}
use cyntatic.Vm.Heap.{Block, Heap, insert_heap_block, compact, take_used, release, free}
use cyntatic.Vm.Heap.Cover.{
  span, cover, cover-insert_heap_block, insert_heap_block-Within, cover-compact,
}
use cyntatic.Vm.Heap.Shape.{
  IsApart, insert_heap_block-IsSorted, length-insert_heap_block, compact-Compacted,
}
use cyntatic.Vm.Heap.Valid.{IsValid, Unlinked, take_used-Unlinked}

-- What a release of the block at `mem` promises: the heap is valid; the block was in use at `mem`; the
-- bytes covered by blocks in use are those of before less the block's, which the free list covers now;
-- no two free neighbours touch; and the top stays.
pub record Freed (hb blocks mem : ℕ) (h h' : Heap) : Type 0 where
  pub block : Block
  pub valid : IsValid hb blocks h'
  pub home : block.addr ≡ mem
  pub used : (x : ℕ) → cover x h'.used + span x block.addr block.size ≡ cover x h.used
  pub free : (x : ℕ) → cover x h'.free ≡ cover x h.free + span x block.addr block.size
  pub apart : IsApart u32_mod h'.free
  pub top : h'.top ≡ h.top

release-Freed :
    (hb blocks mem : ℕ) (h : Heap) (b : Block) (rest : List Block)
    → IsValid hb blocks h
    → Unlinked hb h.lmt b rest h.used
    → b.addr ≡ mem
    → Freed hb blocks mem h (release h b rest)
unfolding release
release-Freed hb blocks mem h b rest v u home =
    let list = insert_heap_block b h.free in
    let w = insert_heap_block-Within hb h.lmt b h.free u.block v.free_within in
    let c =
      compact-Compacted hb h.lmt list v.small w
        (insert_heap_block-IsSorted hb b h.free u.block.0 v.sorted) in
    let covers : (x : ℕ) → cover x (compact list).0 ≡ span x b.addr b.size + cover x h.free =
      λ x. cover-compact x hb h.lmt list v.small w ∙ cover-insert_heap_block x b h.free in
    record {
      block = b;
      valid = record {
        small = v.small;
        low = v.low;
        high = v.high;
        free_within = c.within;
        used_within = u.within;
        disjoint = λ x. omega (arith, covers x, v.disjoint x, u.covers x);
        below = λ x a. omega (arith, covers x, v.below x a, u.covers x);
        sorted = c.sorted;
        counted = omega (arith, c.counted, length-insert_heap_block b h.free, u.counted, v.counted);
      };
      home = home;
      used = λ x. omega (arith, u.covers x);
      free = λ x. omega (arith, covers x);
      apart = c.apart;
      top = refl;
    }

-- `VM_free` on a valid heap: a call that returns true has released one block at the address, and a
-- call that returns false has changed nothing.
pub free-Freed :
    (hb blocks mem : ℕ) (h : Heap)
    → IsValid hb blocks h
    → ((free h mem).0 ≡ true) × Freed hb blocks mem h (free h mem).1
      ⊎ ((free h mem).0 ≡ false) × ((free h mem).1 ≡ h)
unfolding free
free-Freed hb blocks mem h v = elim (Bool-cases (mem == 0)) [
  | inl z ↦ inr (rw z, rw z)
  | inr nz ↦ elim (Option-cases (take_used mem h.used)) [
    | inl nothing ↦ inr (rw (nz, nothing), rw (nz, nothing))
    | inr ((b, rest), found) ↦
        let (u, home) = take_used-Unlinked hb h.lmt mem h.used v.used_within found in
        inl (rw (nz, found), rw (nz, found) (release-Freed hb blocks mem h b rest v u home))
  ]
]
