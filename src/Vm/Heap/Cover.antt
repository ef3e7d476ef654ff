-- ===== src/Vm/Heap/Cover.antt =====
-- How many blocks of a list cover an address, and what the list operations of src/vm/memory.c do to
-- that number.
use cyntatic.Prelude.{
  ℕ, zero, suc, ◌+◌, ◌-◌, ◌≤◌, ◌<◌, ◌≡◌, refl, ap, ◌∙◌, ◌&&◌, List, [], ◌∷◌, arith, inl, inr,
  Bool-cases, eq_of_==, leb, ltb, ◌==◌, if◌then◌else◌, All,
}
use cyntatic.Word.{add32, u32_mod}
use cyntatic.Vm.Heap.{Block, insert_heap_block, close_run, compact_run, compact}

-- 1 if `x` lies in the `n` bytes from `a`, 0 otherwise.
abbrev pub span : ℕ → ℕ → ℕ → ℕ
span x a n = if leb a x && ltb x (a + n) then 1 else 0

unfoldable pub cover : ℕ → List Block → ℕ
cover x [] = 0
cover x (b ∷ bs) = span x b.addr b.size + cover x bs

-- The block lies between `lo` and `hi`.
abbrev pub Within : ℕ → ℕ → Block → Type 0
Within lo hi b = (lo ≤ b.addr) × (b.addr + b.size ≤ hi)

pub cover-cons :
    (x : ℕ) (b : Block) (bs : List Block) → cover x (b ∷ bs) ≡ span x b.addr b.size + cover x bs
unfolding cover
cover-cons x b bs = refl

pub cover-insert_heap_block :
    (x : ℕ) (b : Block) (bs : List Block)
    → cover x (insert_heap_block b bs) ≡ span x b.addr b.size + cover x bs
unfolding cover insert_heap_block
cover-insert_heap_block x b [] = refl
cover-insert_heap_block x b (p ∷ ps) = ground (arith, cover-insert_heap_block x b ps)

pub insert_heap_block-Within :
    (lo hi : ℕ) (b : Block) (bs : List Block)
    → Within lo hi b
    → All (Within lo hi) bs
    → All (Within lo hi) (insert_heap_block b bs)
unfolding insert_heap_block
insert_heap_block-Within lo hi b [] hb h = (hb, tt)
insert_heap_block-Within lo hi b (p ∷ ps) hb h =
    ground (arith, insert_heap_block-Within lo hi b ps hb h.1)

-- A run from `ptr` to `prev`: `prev` starts at or above `ptr`, and is `ptr` while nothing is merged.
abbrev pub IsRun : Block → Block → ℕ → Type 0
IsRun ptr prev n =
    (ptr.addr ≤ prev.addr) × (n ≡ 0 → (ptr.addr ≡ prev.addr) × (ptr.size ≡ prev.size))

-- Two spans that touch are one span.
span_join : (x a b n : ℕ) → a ≤ b → span x a (b - a) + span x b n ≡ span x a (b + n - a)
span_join x a b n h = ground arith

pub close_run_lem :
    (ptr prev : Block) (n hi : ℕ)
    → IsRun ptr prev n
    → prev.addr + prev.size ≤ hi
    → hi < u32_mod
    → ((close_run ptr prev n).addr ≡ ptr.addr)
      × ((close_run ptr prev n).size ≡ prev.addr + prev.size - ptr.addr)
unfolding close_run
close_run_lem ptr prev zero hi r a b = ground (arith, r.1 refl)
close_run_lem ptr prev (suc n) hi r a b = ground arith

cover-compact_run :
    (x lo hi : ℕ) (ptr prev : Block) (n : ℕ) (rest : List Block)
    → hi < u32_mod
    → IsRun ptr prev n
    → prev.addr + prev.size ≤ hi
    → All (Within lo hi) rest
    → cover x (compact_run ptr prev n rest).0
      ≡ span x ptr.addr (prev.addr + prev.size - ptr.addr) + cover x rest
unfolding cover compact_run
cover-compact_run x lo hi ptr prev n [] b r e w =
    let c = close_run_lem ptr prev n hi r e b in rw (c.0, c.1)
cover-compact_run x lo hi ptr prev n (scan ∷ rest) b r e w =
    let c = close_run_lem ptr prev n hi r e b in
    elim (Bool-cases (add32 prev.addr prev.size == scan.addr)) [
      | inl t ↦
          let touch : prev.addr + prev.size ≡ scan.addr = omega (arith, eq_of_== _ _ t) in
          rw t (
            cover-compact_run x lo hi ptr scan (n + 1) rest b
              (omega arith, λ z. absurd (omega arith)) w.0.1 w.1
            ∙ ground (arith, span_join x ptr.addr scan.addr scan.size))
      | inr f ↦
          rw (f, c.0, c.1)
            (ap (λ (k : ℕ). span x ptr.addr (prev.addr + prev.size - ptr.addr) + k)
              (cover-compact_run x lo hi scan scan 0 rest b (omega arith, λ z. (refl, refl)) w.0.1
                  w.1
                ∙ ground arith))
    ]

pub cover-compact :
    (x lo hi : ℕ) (bs : List Block)
    → hi < u32_mod
    → All (Within lo hi) bs
    → cover x (compact bs).0 ≡ cover x bs
unfolding compact
cover-compact x lo hi [] b w = refl
cover-compact x lo hi (p ∷ ps) b w =
    cover-compact_run x lo hi p p 0 ps b (omega arith, λ z. (refl, refl)) w.0.1 w.1
    ∙ rw cover-cons (ground arith)
