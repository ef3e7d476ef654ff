-- ===== src/Vm/Builder/Link.antt =====
-- What a round of the loop of `Builder_link` (src/vm/builder.c) does to an instruction.
use cyntatic.Prelude.{
  ℕ, zero, suc, ◌≡◌, refl, sym, ap, ◌∙◌, Bool, true, false, ◌&&◌, Option, some, none, List, [], ◌∷◌,
  ◌==◌, if◌then◌else◌, get_elem?, arith,
}
use cyntatic.Vm.Instr.{Instruction}
use cyntatic.Vm.Builder.{
  modify, minus_ip, plus_ip, is_patched, add_to_references, counted_size, size_of,
}

-- A change of the instruction, if there is one.
abbrev pub changed : (Instruction → Instruction) → Option Instruction → Option Instruction
changed f (some x) = some (f x)
changed f none = none

pub changed-twice :
    (f g : Instruction → Instruction) (o : Option Instruction)
    → changed g (changed f o) ≡ changed (λ x. g (f x)) o
changed-twice f g none = refl
changed-twice f g (some x) = refl

abbrev pub act : Bool → (Instruction → Instruction) → Instruction → Instruction
act b f x = if b then f x else x

changed-none : (o : Option Instruction) → o ≡ changed (λ x. x) o
changed-none none = refl
changed-none (some x) = refl

suc_== : (j k : ℕ) → (suc j == suc k) ≡ (j == k)
suc_== j k = ground arith

pub changed-same :
    (f g : Instruction → Instruction) (o : Option Instruction)
    → ((x : Instruction) → f x ≡ g x)
    → changed f o ≡ changed g o
changed-same f g none h = refl
changed-same f g (some x) h = ap (λ y. some y) (h x)

get_elem?-modify :
    (j k : ℕ) (f : Instruction → Instruction) (is : List Instruction)
    → get_elem? (modify j f is) k ≡ changed (act (j == k) f) (get_elem? is k)
unfolding modify
get_elem?-modify j k f [] = refl
get_elem?-modify zero zero f (i ∷ is) = refl
get_elem?-modify zero (suc k) f (i ∷ is) =
    let e : (0 == suc k) ≡ false = ground arith in
    changed-none (get_elem? is k) ∙ ap (λ b. changed (act b f) (get_elem? is k)) (sym e)
get_elem?-modify (suc j) zero f (i ∷ is) =
    let e : (suc j == 0) ≡ false = ground arith in ap (λ b. some (act b f i)) (sym e)
get_elem?-modify (suc j) (suc k) f (i ∷ is) =
    get_elem?-modify j k f is ∙ ap (λ b. changed (act b f) (get_elem? is k)) (sym (suc_== j k))

-- What the references to the instruction `i` do to the one at `k`.
abbrev pub given_to : List (ℕ × ℕ) → ℕ → ℕ → ℕ → Instruction → Instruction
given_to [] i ip k x = x
given_to ((t, j) ∷ refs) i ip k x = given_to refs i ip k (act (t == i && j == k) (plus_ip ip) x)

one_reference :
    (b : Bool) (j k ip : ℕ) (is : List Instruction)
    → get_elem? (if b then modify j (plus_ip ip) is else is) k
      ≡ changed (act (b && j == k) (plus_ip ip)) (get_elem? is k)
one_reference true j k ip is = get_elem?-modify j k (plus_ip ip) is
one_reference false j k ip is = changed-none (get_elem? is k)

get_elem?-add_to_references :
    (refs : List (ℕ × ℕ)) (i ip k : ℕ) (is : List Instruction)
    → get_elem? (add_to_references refs i ip is) k ≡ changed (given_to refs i ip k) (get_elem? is k)
unfolding add_to_references
get_elem?-add_to_references [] i ip k is = changed-none (get_elem? is k)
get_elem?-add_to_references ((t, j) ∷ refs) i ip k is =
    get_elem?-add_to_references refs i ip k (if t == i then modify j (plus_ip ip) is else is)
    ∙ ap (changed (given_to refs i ip k)) (one_reference (t == i) j k ip is)
    ∙ changed-twice _ _ (get_elem? is k)

-- A round of the loop, on the instruction at `k`.
abbrev pub round_of : List (ℕ × List ℕ) → List (ℕ × ℕ) → ℕ → ℕ → ℕ → Instruction → Instruction
round_of patches refs i ip k x =
    given_to refs i ip k (act (is_patched i patches && i == k) (minus_ip ip) x)

one_patch :
    (b : Bool) (i k ip : ℕ) (is : List Instruction)
    → get_elem? (if b then modify i (minus_ip ip) is else is) k
      ≡ changed (act (b && i == k) (minus_ip ip)) (get_elem? is k)
one_patch true i k ip is = get_elem?-modify i k (minus_ip ip) is
one_patch false i k ip is = changed-none (get_elem? is k)

abbrev pub after_round :
    List (ℕ × List ℕ) → List (ℕ × ℕ) → ℕ → ℕ → List Instruction → List Instruction
after_round patches refs i ip is =
    add_to_references refs i ip (if is_patched i patches then modify i (minus_ip ip) is else is)

pub get_elem?-after_round :
    (patches : List (ℕ × List ℕ)) (refs : List (ℕ × ℕ)) (i ip k : ℕ) (is : List Instruction)
    → get_elem? (after_round patches refs i ip is) k
      ≡ changed (round_of patches refs i ip k) (get_elem? is k)
get_elem?-after_round patches refs i ip k is =
    get_elem?-add_to_references refs i ip k
      (if is_patched i patches then modify i (minus_ip ip) is else is)
    ∙ ap (changed (given_to refs i ip k)) (one_patch (is_patched i patches) i k ip is)
    ∙ changed-twice _ _ (get_elem? is k)

-- The size that the loop counts does not depend on the offset.
act-counted_size :
    (b : Bool) (f : Instruction → Instruction) (x : Instruction)
    → ((y : Instruction) → counted_size (f y) ≡ counted_size y)
    → counted_size (act b f x) ≡ counted_size x
act-counted_size true f x h = h x
act-counted_size false f x h = refl

plus_ip-counted_size : (ip : ℕ) (x : Instruction) → counted_size (plus_ip ip x) ≡ counted_size x
unfolding counted_size
plus_ip-counted_size ip x = refl

minus_ip-counted_size : (ip : ℕ) (x : Instruction) → counted_size (minus_ip ip x) ≡ counted_size x
unfolding counted_size
minus_ip-counted_size ip x = refl

given_to-counted_size :
    (refs : List (ℕ × ℕ)) (i ip k : ℕ) (x : Instruction)
    → counted_size (given_to refs i ip k x) ≡ counted_size x
given_to-counted_size [] i ip k x = refl
given_to-counted_size ((t, j) ∷ refs) i ip k x =
    given_to-counted_size refs i ip k (act (t == i && j == k) (plus_ip ip) x)
    ∙ act-counted_size (t == i && j == k) (plus_ip ip) x (plus_ip-counted_size ip)

pub round_of-counted_size :
    (patches : List (ℕ × List ℕ)) (refs : List (ℕ × ℕ)) (i ip k : ℕ) (x : Instruction)
    → counted_size (round_of patches refs i ip k x) ≡ counted_size x
round_of-counted_size patches refs i ip k x =
    given_to-counted_size refs i ip k (act (is_patched i patches && i == k) (minus_ip ip) x)
    ∙ act-counted_size (is_patched i patches && i == k) (minus_ip ip) x (minus_ip-counted_size ip)

pub size_of-changed :
    (f : Instruction → Instruction) (o : Option Instruction)
    → ((y : Instruction) → counted_size (f y) ≡ counted_size y)
    → size_of (changed f o) ≡ size_of o
size_of-changed f none h = refl
size_of-changed f (some x) h = h x
