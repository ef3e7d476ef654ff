-- ===== src/Vm/Opcodes.antt =====
-- The names of the operations (src/vm/utils.c, src/tree.c): `VM_get_opcode_for_instr_`, whose tree is the
-- list of its entries, in the order of `VM_OP_CODES`. A string is its characters.
pub mod Case
use cyntatic.Prelude.{
  ℕ, zero, suc, ◌+◌, ◌-◌, Option, some, none, List, [], ◌∷◌, Bool, true, false, ◌&&◌, leb,
  if◌then◌else◌, length,
}
use Prim.Native.Nat.{Ordering}
use cyntatic.Tree.Text.{char_order}

-- `toupper`, in the "C" locale.
abbrev pub to_upper : ℕ → ℕ
to_upper c = if leb 97 c && leb c 122 then c - 32 else c

-- `RbTree_strncasecmp`, as `strncmp` of Tree.Text.
unfoldable pub strncasecmp : List ℕ → ℕ → List ℕ → Option Ordering
strncasecmp s1 zero [] = some Ordering.eq
strncasecmp s1 (suc n) [] = some Ordering.gt
strncasecmp s1 zero (b ∷ s2) = some Ordering.lt
strncasecmp [] (suc n) (b ∷ s2) = none
strncasecmp (a ∷ s1) (suc n) (b ∷ s2) = elim (char_order (to_upper a) (to_upper b)) [
  | Ordering.eq ↦ strncasecmp s1 n s2
  | Ordering.lt ↦ some Ordering.lt
  | Ordering.gt ↦ some Ordering.gt
]

-- `VM_OP_CODES`: the name of an operation and the number of its arguments; the place is the opcode.
abbrev pub op_codes : List (List ℕ × ℕ)
op_codes =
    (b'h' ∷ b'a' ∷ b'l' ∷ b't' ∷ [], 0)
    ∷ (b'd' ∷ b'b' ∷ b'g' ∷ [], 0)
    ∷ (b'r' ∷ b'e' ∷ b't' ∷ [], 1)
    ∷ (b'j' ∷ b'm' ∷ b'p' ∷ [], 1)
    ∷ (b'j' ∷ b'm' ∷ b'p' ∷ b'z' ∷ [], 1)
    ∷ (b'j' ∷ b'm' ∷ b'p' ∷ b'n' ∷ b'z' ∷ [], 1)
    ∷ (b'j' ∷ b'm' ∷ b'p' ∷ b'g' ∷ [], 1)
    ∷ (b'j' ∷ b'm' ∷ b'p' ∷ b's' ∷ [], 1)
    ∷ (b'l' ∷ b'n' ∷ b'o' ∷ b't' ∷ [], 1)
    ∷ (b'b' ∷ b'n' ∷ b'o' ∷ b't' ∷ [], 1)
    ∷ (b'i' ∷ b'n' ∷ b'c' ∷ [], 1)
    ∷ (b'd' ∷ b'e' ∷ b'c' ∷ [], 1)
    ∷ (b'c' ∷ b'a' ∷ b'l' ∷ b'l' ∷ [], 1)
    ∷ (b'p' ∷ b'u' ∷ b's' ∷ b'h' ∷ [], 1)
    ∷ (b'p' ∷ b'o' ∷ b'p' ∷ [], 1)
    ∷ (b'p' ∷ b'o' ∷ b'p' ∷ b'n' ∷ [], 1)
    ∷ (b'p' ∷ b'u' ∷ b't' ∷ b'i' ∷ [], 1)
    ∷ (b'p' ∷ b'u' ∷ b't' ∷ b's' ∷ [], 1)
    ∷ (b'p' ∷ b'u' ∷ b't' ∷ b'c' ∷ [], 1)
    ∷ (b'm' ∷ b'c' ∷ b'p' ∷ b'y' ∷ [], 1)
    ∷ (b'd' ∷ b'l' ∷ b'l' ∷ b'o' ∷ b'c' ∷ [], 1)
    ∷ (b'n' ∷ b'c' ∷ b'a' ∷ b'l' ∷ b'l' ∷ [], 1)
    ∷ (b'a' ∷ b'l' ∷ b'l' ∷ b'o' ∷ b'c' ∷ b'a' ∷ [], 2)
    ∷ (b'r' ∷ b'm' ∷ b'e' ∷ b'm' ∷ [], 2)
    ∷ (b'm' ∷ b'o' ∷ b'v' ∷ [], 2)
    ∷ (b'a' ∷ b'd' ∷ b'd' ∷ [], 2)
    ∷ (b's' ∷ b'u' ∷ b'b' ∷ [], 2)
    ∷ (b'a' ∷ b'n' ∷ b'd' ∷ [], 2)
    ∷ (b'o' ∷ b'r' ∷ [], 2)
    ∷ (b's' ∷ b'a' ∷ b'r' ∷ [], 2)
    ∷ (b's' ∷ b'a' ∷ b'l' ∷ [], 2)
    ∷ (b'x' ∷ b'o' ∷ b'r' ∷ [], 2)
    ∷ (b'b' ∷ b'o' ∷ b'r' ∷ [], 2)
    ∷ (b'b' ∷ b'a' ∷ b'n' ∷ b'd' ∷ [], 2)
    ∷ (b'm' ∷ b'u' ∷ b'l' ∷ [], 2)
    ∷ (b'd' ∷ b'i' ∷ b'v' ∷ [], 2)
    ∷ (b'm' ∷ b'o' ∷ b'd' ∷ [], 2)
    ∷ (b'c' ∷ b'm' ∷ b'p' ∷ [], 2)
    ∷ (b'a' ∷ b'l' ∷ b'l' ∷ b'o' ∷ b'c' ∷ [], 2)
    ∷ []

-- The strings are the same but for the case of their letters.
abbrev pub is_equal : Option Ordering → Bool
is_equal (some Ordering.eq) = true
is_equal o = false

-- `RbTree_find_` on the operations, for one that is not empty: the opcode and the number of arguments.
unfoldable pub find_opcode : List (List ℕ × ℕ) → ℕ → List ℕ → Option (ℕ × ℕ)
unfolding strncasecmp
find_opcode [] opc name = none
find_opcode ((n, args) ∷ rest) opc name =
    if is_equal (strncasecmp name (length name) n)
    then some (opc, args)
    else find_opcode rest (suc opc) name

-- `VM_get_opcode_for_instr_`; `none` is `opcCOUNT`.
unfoldable pub get_opcode : List ℕ → Option (ℕ × ℕ)
unfolding find_opcode
get_opcode name = find_opcode op_codes 0 name
