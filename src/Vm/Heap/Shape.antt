-- ===== src/Vm/Heap/Shape.antt =====
-- What merging the free list keeps of its shape: bounds, order, the number of descriptors, and that no
-- two neighbours touch afterwards.
use cyntatic.Prelude.{
  ℕ, suc, ◌+◌, ◌≤◌, ◌<◌, ◌≡◌, ◌≢◌, refl, false, List, [], ◌∷◌, arith, inl, inr, Bool-cases,
  ne_of_==, leb, ◌==◌, All, length,
}
use cyntatic.Word.{add32, u32_mod}
use cyntatic.Vm.Heap.{Block, insert_heap_block, close_run, compact_run, compact}
use cyntatic.Vm.Heap.Cover.{Within, IsRun, close_run_lem}

-- Addresses do not fall along the list, and start at `lo` or above.
abbrev pub IsSorted : ℕ → List Block → Type 0
IsSorted lo [] = Unit
IsSorted lo (b ∷ bs) = (lo ≤ b.addr) × IsSorted b.addr bs

-- No block starts where the one before it (or the address `e`) ends.
abbrev pub IsApart : ℕ → List Block → Type 0
IsApart e [] = Unit
IsApart e (b ∷ bs) = (e ≢ b.addr) × IsApart (b.addr + b.size) bs

pub insert_heap_block-IsSorted :
    (lo : ℕ) (b : Block) (bs : List Block)
    → lo ≤ b.addr
    → IsSorted lo bs
    → IsSorted lo (insert_heap_block b bs)
unfolding insert_heap_block
insert_heap_block-IsSorted lo b [] h s = (h, tt)
insert_heap_block-IsSorted lo b (p ∷ ps) h s = elim (Bool-cases (leb b.addr p.addr)) [
  | inl t ↦ rw t (ground arith)
  | inr f ↦ rw f (s.0, insert_heap_block-IsSorted p.addr b ps (ground arith) s.1)
]

pub length-insert_heap_block :
    (b : Block) (bs : List Block) → length (insert_heap_block b bs) ≡ length bs + 1
unfolding insert_heap_block
length-insert_heap_block b [] = refl
length-insert_heap_block b (p ∷ ps) = ground (arith, length-insert_heap_block b ps)

-- What holds of the merged list from a run on.
record Merged (lo hi e n : ℕ) (ptr : Block) (rest : List Block) (r : List Block × ℕ) : Type 0 where
  within : All (Within lo hi) r.0
  sorted : IsSorted ptr.addr r.0
  apart : e ≢ ptr.addr → IsApart e r.0
  counted : length r.0 + r.1 ≡ length rest + suc n

pub IsSorted-weaken : {lo lo' : ℕ} (bs : List Block) → lo ≤ lo' → IsSorted lo' bs → IsSorted lo bs
IsSorted-weaken [] h s = tt
IsSorted-weaken (b ∷ bs) h s = (omega arith, s.1)

ne_of_touch :
    (a n c : ℕ) {hi : ℕ} → (add32 a n == c) ≡ false → hi < u32_mod → a + n ≤ hi → a + n ≢ c
ne_of_touch a n c f b u = omega (arith, ne_of_== _ _ f)

compact_run-Merged :
    (lo hi : ℕ) (ptr prev : Block) (n : ℕ) (rest : List Block)
    → hi < u32_mod
    → IsRun ptr prev n
    → lo ≤ ptr.addr
    → prev.addr + prev.size ≤ hi
    → All (Within lo hi) rest
    → IsSorted prev.addr rest
    → (e : ℕ) → Merged lo hi e n ptr rest (compact_run ptr prev n rest)
unfolding compact_run
compact_run-Merged lo hi ptr prev n [] b r l u w s e =
    let c = close_run_lem ptr prev n hi r u b in
    record {
      within = (omega arith, tt);
      sorted = (omega arith, tt);
      apart = λ h. (omega arith, tt);
      counted = omega arith;
    }
compact_run-Merged lo hi ptr prev n (scan ∷ rest) b r l u w s e =
    let c = close_run_lem ptr prev n hi r u b in
    elim (Bool-cases (add32 prev.addr prev.size == scan.addr)) [
      | inl t ↦
          let m =
            compact_run-Merged lo hi ptr scan (n + 1) rest b
              (omega arith, λ z. absurd (omega arith)) l w.0.1 w.1 s.1 e in
          rw t (record {
            within = m.within;
            sorted = m.sorted;
            apart = m.apart;
            counted = omega arith;
          })
      | inr f ↦
          let m =
            compact_run-Merged lo hi scan scan 0 rest b (omega arith, λ z. (refl, refl)) w.0.0 w.0.1
              w.1 s.1 (prev.addr + prev.size) in
          let ends : (close_run ptr prev n).addr + (close_run ptr prev n).size
              ≡ prev.addr + prev.size =
            omega arith in
          rw f (record {
            within = ((omega arith, omega arith), m.within);
            sorted = (omega arith, IsSorted-weaken _ (omega arith) m.sorted);
            apart = λ h. (omega arith, rw ends (m.apart (ne_of_touch _ _ _ f b u)));
            counted = omega arith;
          })
    ]

-- Merging keeps the bounds and the order, returns every swallowed descriptor, and leaves no two
-- neighbours that touch.
pub record Compacted (lo hi : ℕ) (bs : List Block) (r : List Block × ℕ) : Type 0 where
  pub within : All (Within lo hi) r.0
  pub sorted : IsSorted lo r.0
  pub apart : IsApart u32_mod r.0
  pub counted : length r.0 + r.1 ≡ length bs

pub compact-Compacted :
    (lo hi : ℕ) (bs : List Block)
    → hi < u32_mod
    → All (Within lo hi) bs
    → IsSorted lo bs
    → Compacted lo hi bs (compact bs)
unfolding compact
compact-Compacted lo hi [] b w s = record {
  within = tt;
  sorted = tt;
  apart = tt;
  counted = omega arith;
}
compact-Compacted lo hi (p ∷ ps) b w s =
    let m =
      compact_run-Merged lo hi p p 0 ps b (omega arith, λ z. (refl, refl)) w.0.0 w.0.1 w.1 s.1
        u32_mod in
    record {
      within = m.within;
      sorted = IsSorted-weaken _ s.0 m.sorted;
      apart = m.apart (omega arith);
      counted = omega arith;
    }
