-- ===== src/Vm/Heap/Valid.antt =====
-- The invariant of the heap, and what the searches along its lists return.
use cyntatic.Prelude.{
  ℕ, ◌+◌, ◌≤◌, ◌<◌, ◌≡◌, true, ◌||◌, Option, some, none, List, [], ◌∷◌, arith, inl, inr, Bool-cases,
  leb, ◌==◌, All, length,
}
use cyntatic.Word.{u32_mod}
use cyntatic.Vm.Heap.{Block, Heap, heap_init, behind, is_top, take_free, take_used}
use cyntatic.Vm.Heap.Cover.{Within, span, cover, cover-cons}
use cyntatic.Vm.Heap.Shape.{IsSorted, IsSorted-weaken}

-- Blocks lie between `hb` and the limit; no address is covered twice, and none at or above `top` is
-- covered at all; the free list is sorted; `blocks` descriptors exist, on one list each.
pub record IsValid (hb blocks : ℕ) (h : Heap) : Type 0 where
  pub small : h.lmt < u32_mod
  pub low : hb ≤ h.top
  pub high : h.top ≤ h.lmt
  pub free_within : All (Within hb h.lmt) h.free
  pub used_within : All (Within hb h.lmt) h.used
  pub disjoint : (x : ℕ) → cover x h.used + cover x h.free ≤ 1
  pub below : (x : ℕ) → h.top ≤ x → cover x h.used + cover x h.free ≡ 0
  pub sorted : IsSorted hb h.free
  pub counted : length h.free + length h.used + h.fresh ≡ blocks

-- A block unlinked from a list, and what is left.
pub record Unlinked (lo hi : ℕ) (p : Block) (rest bs : List Block) : Type 0 where
  pub block : Within lo hi p
  pub within : All (Within lo hi) rest
  pub sorted : (l : ℕ) → IsSorted l bs → IsSorted l rest
  pub counted : length rest + 1 ≡ length bs
  pub covers : (x : ℕ) → cover x bs ≡ span x p.addr p.size + cover x rest

unlink_head :
    (lo hi : ℕ) (p : Block) (ps : List Block)
    → All (Within lo hi) (p ∷ ps)
    → Unlinked lo hi p ps (p ∷ ps)
unlink_head lo hi p ps w = record {
  block = w.0;
  within = w.1;
  sorted = λ l s. IsSorted-weaken ps s.0 s.1;
  counted = omega arith;
  covers = λ x. cover-cons x p ps;
}

unlink_tail :
    (lo hi : ℕ) (p q : Block) (rest ps : List Block)
    → Within lo hi q
    → Unlinked lo hi p rest ps
    → Unlinked lo hi p (q ∷ rest) (q ∷ ps)
unlink_tail lo hi p q rest ps w u = record {
  block = u.block;
  within = (w, u.within);
  sorted = λ l s. (s.0, u.sorted q.addr s.1);
  counted = omega (arith, u.counted);
  covers = λ x. omega (arith, cover-cons x q ps, cover-cons x q rest, u.covers x);
}

-- A search that goes on behind `q` finds its block there.
behind-eq-some :
    (q : Block) (o : Option (Block × List Block)) {p : Block} {rest : List Block}
    → behind q o ≡ some (p, rest)
    → (rest' : List Block) × (o ≡ some (p, rest')) × (rest ≡ q ∷ rest')
unfolding behind
behind-eq-some q none e = cc
behind-eq-some q (some (a, b)) e = (b, ground arith, ground arith)

pub take_free-Unlinked :
    (lo hi : ℕ) (h : Heap) (n : ℕ) (bs : List Block) {p : Block} {rest : List Block}
    → All (Within lo hi) bs
    → take_free h n bs ≡ some (p, rest)
    → Unlinked lo hi p rest bs × ((is_top h n p || leb n p.size) ≡ true)
unfolding take_free
take_free-Unlinked lo hi h n [] w e = cc
take_free-Unlinked lo hi h n (q ∷ qs) {p} {rest} w e =
    elim (Bool-cases (is_top h n q || leb n q.size)) [
      | inl t ↦
          let d : some (q, qs) ≡ some (p, rest) = rw t at e in
          let dp : q ≡ p = ground arith in
          let dr : qs ≡ rest = ground arith in rw (← dp, ← dr) (unlink_head lo hi q qs w, t)
      | inr f ↦
          let d : behind q (take_free h n qs) ≡ some (p, rest) = rw f at e in
          let (rest', found, tail) = behind-eq-some q (take_free h n qs) d in
          let (u, t) = take_free-Unlinked lo hi h n qs w.1 found in
          rw tail (unlink_tail lo hi p q rest' qs w.0 u, t)
    ]

pub take_used-Unlinked :
    (lo hi mem : ℕ) (bs : List Block) {p : Block} {rest : List Block}
    → All (Within lo hi) bs
    → take_used mem bs ≡ some (p, rest)
    → Unlinked lo hi p rest bs × (p.addr ≡ mem)
unfolding take_used
take_used-Unlinked lo hi mem [] w e = cc
take_used-Unlinked lo hi mem (q ∷ qs) {p} {rest} w e = elim (Bool-cases (mem == q.addr)) [
  | inl t ↦
      let d : some (q, qs) ≡ some (p, rest) = rw t at e in
      let dp : q ≡ p = ground arith in
      let dr : qs ≡ rest = ground arith in rw (← dp, ← dr) (unlink_head lo hi q qs w, ground arith)
  | inr f ↦
      let d : behind q (take_used mem qs) ≡ some (p, rest) = rw f at e in
      let (rest', found, tail) = behind-eq-some q (take_used mem qs) d in
      let (u, t) = take_used-Unlinked lo hi mem qs w.1 found in
      rw tail (unlink_tail lo hi p q rest' qs w.0 u, t)
]

-- The heap that `VM_heap_init_` makes meets the invariant, where its base is at most its limit, the limit
-- is below 2 ^ 32, and the number of descriptors is between 1 and 2 ^ 32 - 1.
pub heap_init-IsValid :
    (hb hlm blocks sth alignment : ℕ)
    → hb ≤ hlm
    → hlm < u32_mod
    → 0 < blocks
    → blocks < u32_mod
    → IsValid hb blocks (heap_init hb hlm blocks sth alignment)
unfolding heap_init cover
heap_init-IsValid hb hlm blocks sth alignment h b p q = record {
  small = b;
  low = omega arith;
  high = h;
  free_within = tt;
  used_within = tt;
  disjoint = λ x. omega arith;
  below = λ x _. omega arith;
  sorted = tt;
  counted = omega arith;
}
