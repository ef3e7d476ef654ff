-- ===== src/Vm/Builder/Distance.antt =====
-- The offsets that the loop of `Builder_link` (src/vm/builder.c) writes.
use cyntatic.Prelude.{
  ℕ, zero, suc, ◌+◌, ◌-◌, ◌%◌, ◌<◌, ◌≡◌, refl, sym, ap, ◌∙◌, inl, inr, Bool, true, false, ◌&&◌,
  some, List, [], ◌∷◌, ◌++◌, ltb, lt→ltb, ◌==◌, if◌then◌else◌, get_elem?, All, arith, Bool-cases,
  if_true, eq_of_==, ==_refl,
}
use cyntatic.Word.{add32, u32_mod, u64_mod}
use cyntatic.Vm.Instr.{Instruction}
use cyntatic.Vm.Builder.{minus_ip, plus_ip, is_patched, size_of, link_loop}
use cyntatic.Vm.Builder.Link.{
  changed, changed-twice, changed-same, act, given_to, get_elem?-after_round, after_round, round_of,
  round_of-counted_size, size_of-changed,
}

-- The address that the loop has counted at an instruction, where the first stands at `db`.
abbrev pub address : List Instruction → ℕ → ℕ → ℕ
address is db zero = db
address is db (suc n) = add32 (address is db n) (size_of (get_elem? is n))

address-small : (is : List Instruction) (db n : ℕ) → db < u32_mod → address is db n < u64_mod
address-small is db zero h = omega arith
address-small is db (suc n) h = omega arith

-- The part of the offset that a count of `n` rounds has added.
abbrev once : ℕ → ℕ → ℕ → ℕ
once k i v = if ltb k i then v else 0

once-step : (k i v : ℕ) → once k (suc i) v ≡ once k i v + (if i == k then v else 0)
once-step k i v = ground arith

-- The offset at the start of round `i`, `a` the address of the instruction and `b` that of the target.
abbrev offset : ℕ → ℕ → ℕ → ℕ → ℕ → ℕ → ℕ
offset k t a b i ii = (ii + once k i (u64_mod - a) + once t i b) % u64_mod

taken_off :
    (z a ip : ℕ) (c : Bool)
    → a < u64_mod
    → (c ≡ true → ip ≡ a)
    → (if c then (z % u64_mod + u64_mod - ip) % u64_mod else z % u64_mod)
      ≡ (z + (if c then u64_mod - a else 0)) % u64_mod
taken_off z a ip true h e = (let w = e refl in omega arith)
taken_off z a ip false h e = omega arith

put_on :
    (z b ip : ℕ) (c : Bool)
    → (c ≡ true → ip ≡ b)
    → (if c then (z % u64_mod + ip) % u64_mod else z % u64_mod)
      ≡ (z + (if c then b else 0)) % u64_mod
put_on z b ip true e = (let w = e refl in omega arith)
put_on z b ip false e = omega arith

==_comm : (t i : ℕ) → (t == i) ≡ (i == t)
==_comm t i = ground arith

and_false : (b : Bool) → (b && false) ≡ false
and_false true = refl
and_false false = refl

and_true : (b : Bool) → (b && true) ≡ b
and_true true = refl
and_true false = refl

-- The references to other instructions than `k` leave it.
given_to-others :
    (refs : List (ℕ × ℕ)) (i ip k : ℕ) (x : Instruction)
    → All (λ r. (r.1 == k) ≡ false) refs
    → given_to refs i ip k x ≡ x
given_to-others [] i ip k x all = refl
given_to-others ((t, j) ∷ refs) i ip k x (h, all) =
    let none_here : (t == i && j == k) ≡ false = ap (λ b. t == i && b) h ∙ and_false (t == i) in
    ap (λ b. given_to refs i ip k (act b (plus_ip ip) x)) none_here
    ∙ given_to-others refs i ip k x all

given_to-once :
    (pre post : List (ℕ × ℕ)) (t i ip k : ℕ) (x : Instruction)
    → All (λ r. (r.1 == k) ≡ false) pre
    → All (λ r. (r.1 == k) ≡ false) post
    → given_to (pre ++ (t, k) ∷ post) i ip k x ≡ act (t == i) (plus_ip ip) x
given_to-once [] post t i ip k x all all' =
    let here : (t == i && k == k) ≡ (t == i) =
      ap (λ b. t == i && b) (==_refl k) ∙ and_true (t == i) in
    given_to-others post i ip k _ all' ∙ ap (λ b. act b (plus_ip ip) x) here
given_to-once ((s, j) ∷ pre) post t i ip k x (h, all) all' =
    let none_here : (s == i && j == k) ≡ false = ap (λ b. s == i && b) h ∙ and_false (s == i) in
    ap (λ b. given_to (pre ++ (t, k) ∷ post) i ip k (act b (plus_ip ip) x)) none_here
    ∙ given_to-once pre post t i ip k x all all'

patched_here :
    (patches : List (ℕ × List ℕ)) (i k : ℕ)
    → is_patched k patches ≡ true
    → (is_patched i patches && i == k) ≡ (i == k)
patched_here patches i k h = elim (Bool-cases (i == k)) [
  | inr off ↦ ap (λ b. is_patched i patches && b) off ∙ and_false _ ∙ sym off
  | inl at ↦
      let same : i ≡ k = eq_of_== i k at in
      ap (λ b. b && i == k) (ap (λ j. is_patched j patches) same ∙ h)
]

act-minus :
    (c : Bool) (ip : ℕ) (x : Instruction)
    → act c (minus_ip ip) x ≡ record x { ii = if c then (x.ii + u64_mod - ip) % u64_mod else x.ii }
act-minus true ip x = refl
act-minus false ip x = refl

act-plus :
    (c : Bool) (ip : ℕ) (x : Instruction)
    → act c (plus_ip ip) x ≡ record x { ii = if c then (x.ii + ip) % u64_mod else x.ii }
act-plus true ip x = refl
act-plus false ip x = refl

-- The instruction at the start of round `i`.
abbrev shifted : ℕ → ℕ → ℕ → ℕ → ℕ → Instruction → Instruction
shifted k t a b i x = record x { ii = offset k t a b i x.ii }

round_of-shifted :
    (patches : List (ℕ × List ℕ)) (pre post : List (ℕ × ℕ)) (t k a b i ip : ℕ) (x : Instruction)
    → is_patched k patches ≡ true
    → All (λ r. (r.1 == k) ≡ false) pre
    → All (λ r. (r.1 == k) ≡ false) post
    → a < u64_mod
    → ((i == k) ≡ true → ip ≡ a)
    → ((t == i) ≡ true → ip ≡ b)
    → round_of patches (pre ++ (t, k) ∷ post) i ip k (shifted k t a b i x)
      ≡ shifted k t a b (suc i) x
round_of-shifted patches pre post t k a b i ip x patched all all' small at_k at_t =
    let z : ℕ = x.ii + once k i (u64_mod - a) + once t i b in
    let ka : ℕ = if i == k then u64_mod - a else 0 in
    let tb : ℕ = if t == i then b else 0 in
    let off = taken_off z a ip (i == k) small at_k in
    let on = put_on (z + ka) b ip (t == i) at_t in
    let sum : z + ka + tb ≡ x.ii + once k (suc i) (u64_mod - a) + once t (suc i) b =
      let e = once-step k i (u64_mod - a) in
      let e' = once-step t i b ∙ ap (λ c. once t i b + (if c then b else 0)) (sym (==_comm t i)) in
      omega arith in
    ap (λ c. given_to (pre ++ (t, k) ∷ post) i ip k (act c (minus_ip ip) (shifted k t a b i x)))
      (patched_here patches i k patched)
    ∙ ap (given_to (pre ++ (t, k) ∷ post) i ip k)
        (act-minus (i == k) ip (shifted k t a b i x) ∙ ap (λ v. record x { ii = v }) off)
    ∙ given_to-once pre post t i ip k _ all all'
    ∙ act-plus (t == i) ip _
    ∙ ap (λ v. record x { ii = v }) (on ∙ ap (λ s. s % u64_mod) sum)

module _ (patches : List (ℕ × List ℕ)) (pre post : List (ℕ × ℕ)) (t k db : ℕ)
    (start : List Instruction) (patched : is_patched k patches ≡ true)
    (all : All (λ r. (r.1 == k) ≡ false) pre) (all' : All (λ r. (r.1 == k) ≡ false) post)
    (small : db < u32_mod) where
  rounds :
      (n i ip : ℕ) (is : List Instruction)
      → ip ≡ address start db i
      → get_elem? is k
        ≡ changed (shifted k t (address start db k) (address start db t) i) (get_elem? start k)
      → ((m : ℕ) → size_of (get_elem? is m) ≡ size_of (get_elem? start m))
      → get_elem? (link_loop patches (pre ++ (t, k) ∷ post) n i ip is) k
        ≡ changed
            (shifted k t (address start db k) (address start db t) (i + n))
            (get_elem? start k)
  unfolding link_loop
  rounds zero i ip is at e sizes =
      let same : i ≡ i + 0 = omega arith in
      e
      ∙ ap
          (λ j.
            changed (shifted k t (address start db k) (address start db t) j) (get_elem? start k))
          same
  rounds (suc n) i ip is at e sizes =
      let refs : List (ℕ × ℕ) = pre ++ (t, k) ∷ post in
      let a : ℕ = address start db k in
      let b : ℕ = address start db t in
      let next : List Instruction = after_round patches refs i ip is in
      let same : suc i + n ≡ i + suc n = omega arith in
      let sizes' : (m : ℕ) → size_of (get_elem? next m) ≡ size_of (get_elem? start m) = λ m.
        ap size_of (get_elem?-after_round patches refs i ip m is)
        ∙ size_of-changed _ (get_elem? is m) (round_of-counted_size patches refs i ip m)
        ∙ sizes m in
      let ip' : add32 ip (size_of (get_elem? next i)) ≡ address start db (suc i) =
        ap (λ v. add32 v (size_of (get_elem? next i))) at
        ∙ ap (add32 (address start db i)) (sizes' i) in
      let at_k : (i == k) ≡ true → ip ≡ a = λ h. at ∙ ap (address start db) (eq_of_== i k h) in
      let at_t : (t == i) ≡ true → ip ≡ b =
        λ h. at ∙ ap (address start db) (sym (eq_of_== t i h)) in
      let step : (x : Instruction)
          → round_of patches refs i ip k (shifted k t a b i x) ≡ shifted k t a b (suc i) x =
        λ x.
          round_of-shifted patches pre post t k a b i ip x patched all all'
            (address-small start db k small) at_k at_t in
      let e' : get_elem? next k ≡ changed (shifted k t a b (suc i)) (get_elem? start k) =
        get_elem?-after_round patches refs i ip k is
        ∙ ap (changed (round_of patches refs i ip k)) e
        ∙ changed-twice _ _ (get_elem? start k)
        ∙ changed-same _ _ (get_elem? start k) step in
      rounds n (suc i) _ next ip' e' sizes'
      ∙ ap (λ j. changed (shifted k t a b j) (get_elem? start k)) same

  -- For a patched instruction that one reference names, the loop of `Builder_link` adds to its offset
  -- the distance from the address of the instruction to that of the label, as it counts addresses, by
  -- the `ims` mode of each instruction, in 64-bit arithmetic.
  pub link_loop-distance :
      (n : ℕ) (x : Instruction)
      → get_elem? start k ≡ some x
      → x.ii < u64_mod
      → k < n
      → t < n
      → get_elem? (link_loop patches (pre ++ (t, k) ∷ post) n 0 db start) k
        ≡ some (record x {
          ii = (x.ii + (u64_mod - address start db k) + address start db t) % u64_mod;
        })
  link_loop-distance n x at word k_in t_in =
      let a : ℕ = address start db k in
      let b : ℕ = address start db t in
      let first : offset k t a b 0 x.ii ≡ x.ii = ground arith in
      let last : offset k t a b (0 + n) x.ii ≡ (x.ii + (u64_mod - a) + b) % u64_mod =
        ap (λ v. (x.ii + v + once t (0 + n) b) % u64_mod)
          (if_true 0 (lt→ltb k (0 + n) (omega arith)))
        ∙ ap (λ v. (x.ii + (u64_mod - a) + v) % u64_mod)
            (if_true 0 (lt→ltb t (0 + n) (omega arith))) in
      rounds n 0 db start refl
        (at
          ∙ ap (λ v. some (record x { ii = v })) (sym first)
          ∙ ap (changed (shifted k t a b 0)) (sym at))
        (λ m. refl)
      ∙ ap (changed (shifted k t a b (0 + n))) at
      ∙ ap (λ v. some (record x { ii = v })) last
