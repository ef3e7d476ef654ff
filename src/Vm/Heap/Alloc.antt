-- ===== src/Vm/Heap/Alloc.antt =====
-- `VM_heap_alloc_heap_block` (src/vm/memory.c) keeps the heap valid and hands out memory that no block
-- in use covers.
use cyntatic.Prelude.{
  ℕ, ◌+◌, ◌-◌, ◌≤◌, ◌<◌, ◌≡◌, refl, ◌∙◌, true, ◌&&◌, ◌||◌, some, none, List, ◌∷◌, arith, inl, inr,
  Bool-cases, Option-cases, of_some_eq, leb, ltb,
}
use cyntatic.Word.{add32, sub32, u32_mod, align}
use cyntatic.Vm.Heap.{
  Block, Heap, insert_heap_block, compact, is_top, take_free, split_block, reuse_block, fresh_block,
  alloc_heap_block, alloc,
}
use cyntatic.Vm.Heap.Cover.{
  Within, span, cover, cover-cons, cover-insert_heap_block, insert_heap_block-Within, cover-compact,
}
use cyntatic.Vm.Heap.Shape.{insert_heap_block-IsSorted, length-insert_heap_block, compact-Compacted}
use cyntatic.Vm.Heap.Valid.{IsValid, Unlinked, take_free-Unlinked}

-- What an allocation of `n` bytes promises: the new heap is valid, the block lies in the heap and has
-- the room, no block in use covered any of it, and the used list grew by exactly this block.
pub record Allocated (hb blocks : ℕ) (h : Heap) (n : ℕ) (b : Block) (h' : Heap) : Type 0 where
  pub valid : IsValid hb blocks h'
  pub within : Within hb h.lmt b
  pub roomy : n ≤ b.size
  pub separate : (x : ℕ) → b.addr ≤ x → x < b.addr + b.size → cover x h.used ≡ 0
  pub listed : h'.used ≡ b ∷ h.used
  pub limit : h'.lmt ≡ h.lmt
  pub alignment : h'.aln ≡ h.aln

module _ (hb blocks : ℕ) (h : Heap) (n : ℕ) (v : IsValid hb blocks h)
    (fits : h.lmt + n < u32_mod) where
  -- A block at the top of the heap is resized in place.
  top_Allocated :
      (p : Block) (rest : List Block)
      → Unlinked hb h.lmt p rest h.free
      → is_top h n p ≡ true
      → Allocated hb blocks h n
          (record p { size = n })
          (record h { free = rest; used = record p { size = n } ∷ h.used; top = add32 p.addr n })
  unfolding is_top
  top_Allocated p rest u t =
      let top_end : h.top ≤ p.addr + p.size = ground (arith, u.block, v.small) in
      let at : add32 p.addr n ≡ p.addr + n = ground (arith, u.block, v.small) in
      let fit : p.addr + n ≤ h.lmt = ground (arith, u.block, v.small) in
      let clear : (x : ℕ) → p.addr ≤ x → (cover x h.used ≡ 0) × (cover x rest ≡ 0) =
        λ x a. ground (arith, v.disjoint x, v.below x, u.covers x) in
      record {
        valid = record {
          small = v.small;
          low = omega (arith, u.block);
          high = omega arith;
          free_within = u.within;
          used_within = ((u.block.0, fit), v.used_within);
          disjoint = λ x. ground (
            arith,
            cover-cons x (record p { size = n }) h.used,
            v.disjoint x,
            u.covers x,
            clear x,
          );
          below = λ x a. ground (arith, cover-cons x (record p { size = n }) h.used, clear x);
          sorted = u.sorted hb v.sorted;
          counted = omega (arith, u.counted, v.counted);
        };
        within = (u.block.0, fit);
        roomy = omega arith;
        separate = λ x a _. (clear x a).0;
        listed = refl;
        limit = refl;
        alignment = refl;
      }

  -- A block with room enough is used as it is.
  whole_Allocated :
      (p : Block) (rest : List Block)
      → Unlinked hb h.lmt p rest h.free
      → n ≤ p.size
      → Allocated hb blocks h n p (record h { free = rest; used = p ∷ h.used })
  whole_Allocated p rest u r = record {
    valid = record {
      small = v.small;
      low = v.low;
      high = v.high;
      free_within = u.within;
      used_within = (u.block, v.used_within);
      disjoint = λ x. omega (arith, cover-cons x p h.used, v.disjoint x, u.covers x);
      below = λ x a. omega (arith, cover-cons x p h.used, v.below x a, u.covers x);
      sorted = u.sorted hb v.sorted;
      counted = omega (arith, u.counted, v.counted);
    };
    within = u.block;
    roomy = r;
    separate = λ x a b. ground (arith, v.disjoint x, u.covers x);
    listed = refl;
    limit = refl;
    alignment = refl;
  }

  -- A block is split: the excess goes back to the free list, which is merged.
  split_Allocated :
      (p : Block) (rest : List Block)
      → Unlinked hb h.lmt p rest h.free
      → n ≤ p.size
      → 0 < h.fresh
      → Allocated hb blocks h n (split_block h n p rest).0 (split_block h n p rest).1
  unfolding split_block
  split_Allocated p rest u r f =
      let at : add32 p.addr n ≡ p.addr + n = omega (arith, u.block, v.small) in
      let left : sub32 p.size n ≡ p.size - n = omega (arith, u.block, v.small) in
      let excess : Block = record { addr = p.addr + n; size = p.size - n } in
      let excess_within : Within hb h.lmt excess = omega (arith, u.block) in
      let list = insert_heap_block excess rest in
      let w = insert_heap_block-Within hb h.lmt excess rest excess_within u.within in
      let c =
        compact-Compacted hb h.lmt list v.small w
          (insert_heap_block-IsSorted hb excess rest excess_within.0 (u.sorted hb v.sorted)) in
      let covers : (x : ℕ)
          → cover x (compact list).0 ≡ span x (p.addr + n) (p.size - n) + cover x rest =
        λ x. cover-compact x hb h.lmt list v.small w ∙ cover-insert_heap_block x excess rest in
      rw (at, left)
        (record {
          valid = record {
            small = v.small;
            low = v.low;
            high = v.high;
            free_within = c.within;
            used_within = (omega (arith, u.block), v.used_within);
            disjoint = λ x. ground (
              arith,
              covers x,
              cover-cons x (record p { size = n }) h.used,
              v.disjoint x,
              u.covers x,
            );
            below = λ x a. ground (
              arith,
              covers x,
              cover-cons x (record p { size = n }) h.used,
              v.below x,
              u.covers x,
            );
            sorted = c.sorted;
            counted =
                omega
                  (arith, c.counted, length-insert_heap_block excess rest, u.counted, v.counted);
          };
          within = omega (arith, u.block);
          roomy = omega arith;
          separate = λ x a b. ground (arith, v.disjoint x, u.covers x);
          listed = refl;
          limit = refl;
          alignment = refl;
        })

  reuse_Allocated :
      (p : Block) (rest : List Block)
      → Unlinked hb h.lmt p rest h.free
      → (is_top h n p || leb n p.size) ≡ true
      → Allocated hb blocks h n (reuse_block h n p rest).0 (reuse_block h n p rest).1
  unfolding reuse_block
  reuse_Allocated p rest u t = elim (Bool-cases (is_top h n p)) [
    | inl top ↦ rw top (top_Allocated p rest u top)
    | inr not_top ↦
        let room : n ≤ p.size = ground arith in
        elim (Bool-cases (ltb 0 h.fresh && leb h.sth (sub32 p.size n))) [
          | inl s ↦ rw (not_top, s) (split_Allocated p rest u room (ground arith))
          | inr s ↦ rw (not_top, s) (whole_Allocated p rest u room)
        ]
  ]

  fresh_Allocated : {r : Block × Heap} → fresh_block h n ≡ some r → Allocated hb blocks h n r.0 r.1
  unfolding fresh_block
  fresh_Allocated e =
      let b : Block = record { addr = h.top; size = n } in
      elim (Bool-cases (ltb 0 h.fresh && leb (add32 h.top n) h.lmt)) [
        | inr f ↦ absurd (cc (rw f at e))
        | inl t ↦
            let at : add32 h.top n ≡ h.top + n = omega (arith, v.high) in
            let room : h.top + n ≤ h.lmt = ground arith in
            let spare : 0 < h.fresh = ground arith in
            let clear : (x : ℕ) → h.top ≤ x → (cover x h.used ≡ 0) × (cover x h.free ≡ 0) =
              λ x a. omega (arith, v.below x a) in
            of_some_eq (λ r. Allocated hb blocks h n r.0 r.1) (rw t at e)
              (record {
                valid = record {
                  small = v.small;
                  low = omega (arith, v.low);
                  high = omega arith;
                  free_within = v.free_within;
                  used_within = ((v.low, room), v.used_within);
                  disjoint = λ x. ground (arith, cover-cons x b h.used, v.disjoint x, v.below x);
                  below = λ x a. ground (arith, cover-cons x b h.used, v.below x);
                  sorted = v.sorted;
                  counted = omega (arith, v.counted);
                };
                within = (v.low, room);
                roomy = omega arith;
                separate = λ x a _. (clear x a).0;
                listed = refl;
                limit = refl;
                alignment = refl;
              })
      ]

  -- The search, then the two ways to a block.
  alloc_aligned_Allocated :
      {r : Block × Heap}
      → (elim (take_free h n h.free) [
        | some r ↦ some (reuse_block h n r.0 r.1)
        | none ↦ fresh_block h n
      ])
        ≡ some r
      → Allocated hb blocks h n r.0 r.1
  alloc_aligned_Allocated e = elim (Option-cases (take_free h n h.free)) [
    | inl nothing ↦ fresh_Allocated (rw nothing at e)
    | inr ((p, rest), found) ↦
        let (u, t) = take_free-Unlinked hb h.lmt h n h.free v.free_within found in
        of_some_eq (λ r. Allocated hb blocks h n r.0 r.1) (rw found at e)
          (reuse_Allocated p rest u t)
  ]

-- An allocation that succeeds keeps the heap valid and returns a block inside the heap, of at least
-- the aligned size, none of whose bytes a block in use covered; it is the one new block in use. The
-- aligned size must not wrap past the heap's limit.
pub alloc_heap_block-Allocated :
    (hb blocks : ℕ) (h : Heap) (size : ℕ) {r : Block × Heap}
    → IsValid hb blocks h
    → h.lmt + align size h.aln < u32_mod
    → alloc_heap_block h size ≡ some r
    → Allocated hb blocks h (align size h.aln) r.0 r.1
unfolding alloc_heap_block
alloc_heap_block-Allocated hb blocks h size v fits e =
    alloc_aligned_Allocated hb blocks h (align size h.aln) v fits e

-- `VM_alloc` keeps the heap valid whether or not it finds a block.
pub alloc-IsValid :
    (hb blocks : ℕ) (h : Heap) (size : ℕ)
    → IsValid hb blocks h
    → h.lmt + align size h.aln < u32_mod
    → IsValid hb blocks (alloc h size).1
unfolding alloc
alloc-IsValid hb blocks h size v fits = elim (Option-cases (alloc_heap_block h size)) [
  | inl nothing ↦ rw (nothing, alloc) v
  | inr (r, found) ↦
      rw (found, alloc) (alloc_heap_block-Allocated hb blocks h size v fits found).valid
]
