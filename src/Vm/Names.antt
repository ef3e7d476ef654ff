-- ===== src/Vm/Names.antt =====
-- The names of the registers (src/vm/utils.c): `vmRegisterNameTbl` and `Vm_get_register_from_str_`. A
-- string is its characters.
use cyntatic.Prelude.{
  ℕ, zero, suc, ◌-◌, ◌≡◌, refl, some, List, [], ◌∷◌, ◌&&◌, ◌||◌, ltb, ◌==◌, if◌then◌else◌,
  get_elem?, of_some_eq,
}
use cyntatic.Vm.State.{reg_count, sp, ip, bp, flg}

-- `vmRegisterNameTbl`.
abbrev pub register_names : List (List ℕ)
register_names =
    (b'r' ∷ b'0' ∷ [])
    ∷ (b'r' ∷ b'1' ∷ [])
    ∷ (b'r' ∷ b'2' ∷ [])
    ∷ (b'r' ∷ b'3' ∷ [])
    ∷ (b'r' ∷ b'4' ∷ [])
    ∷ (b'r' ∷ b'5' ∷ [])
    ∷ (b's' ∷ b'p' ∷ [])
    ∷ (b'i' ∷ b'p' ∷ [])
    ∷ (b'b' ∷ b'p' ∷ [])
    ∷ (b'f' ∷ b'l' ∷ b'g' ∷ [])
    ∷ []

-- `Vm_get_register_from_str_`; `reg_count` where the string names no register.
unfoldable pub get_register : List ℕ → ℕ
get_register (a ∷ b ∷ []) =
    if a == b'b'
    then (if b == b'p' then bp else reg_count)
    else if a == b'i'
    then (if b == b'p' then ip else reg_count)
    else if a == b's'
    then (if b == b'p' then sp else reg_count)
    else if a == b'r'
    then (if ltb b b'0' || ltb b'5' b then reg_count else b - b'0')
    else reg_count
get_register (a ∷ b ∷ c ∷ []) =
    if a == b'f' then (if b == b'l' && c == b'g' then flg else reg_count) else reg_count
get_register s = reg_count

-- The name of a register is read as that register.
pub get_register-register_names :
    (r : ℕ) {s : List ℕ} → get_elem? register_names r ≡ some s → get_register s ≡ r
unfolding get_register
get_register-register_names zero e = of_some_eq (λ s. get_register s ≡ 0) e refl
get_register-register_names (suc zero) e = of_some_eq (λ s. get_register s ≡ 1) e refl
get_register-register_names (suc (suc zero)) e = of_some_eq (λ s. get_register s ≡ 2) e refl
get_register-register_names (suc (suc (suc zero))) e = of_some_eq (λ s. get_register s ≡ 3) e refl
get_register-register_names (suc (suc (suc (suc zero)))) e =
    of_some_eq (λ s. get_register s ≡ 4) e refl
get_register-register_names (suc (suc (suc (suc (suc zero))))) e =
    of_some_eq (λ s. get_register s ≡ 5) e refl
get_register-register_names (suc (suc (suc (suc (suc (suc zero)))))) e =
    of_some_eq (λ s. get_register s ≡ 6) e refl
get_register-register_names (suc (suc (suc (suc (suc (suc (suc zero))))))) e =
    of_some_eq (λ s. get_register s ≡ 7) e refl
get_register-register_names (suc (suc (suc (suc (suc (suc (suc (suc zero)))))))) e =
    of_some_eq (λ s. get_register s ≡ 8) e refl
get_register-register_names (suc (suc (suc (suc (suc (suc (suc (suc (suc zero))))))))) e =
    of_some_eq (λ s. get_register s ≡ 9) e refl
get_register-register_names (suc (suc (suc (suc (suc (suc (suc (suc (suc (suc r)))))))))) e = cc
