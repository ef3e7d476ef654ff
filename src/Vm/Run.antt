-- ===== src/Vm/Run.antt =====
-- How a call into the virtual machine ends: with a value, or with one of the `VM_abort` calls, or in
-- behaviour that C leaves undefined.
use cyntatic.Prelude.{Option, some, none, ◌≡◌, refl, ◌⊎◌, inl, inr}
use mathlib.Core.Path.{subst}

pub data Fault : Type 0 where
  -- `MEM`: "Memory access violation"
  access_violation : Fault
  -- `VM_pushn`: "VM stack memory overflow"
  stack_overflow : Fault
  -- `VM_popn`: "VM stack memory underflow"
  stack_underflow : Fault
  -- `VM_fetch`: "execution goes beyond code space"
  beyond_code : Fault
  -- `VM_execute`: "Unknown instruction"
  unknown_instruction : Fault
  -- `VM_put_utf8_chr_`: "invalid UCS character"
  invalid_ucs : Fault
  -- `VM_cstring_dup_`: "Out of heap memory"
  out_of_heap : Fault
  -- C gives the code no meaning: a read through a null pointer or past an array, a failed
  -- `unreachable`, a shift by the width, a division by zero
  undefined : Fault

pub data Run {ℓ} (A : Type ℓ) : Type ℓ where
  ok : A → Run A
  fault : Fault → Run A

infixl 5 ◌>>=◌
abbrev pub ◌>>=◌ {ℓ κ} : {A : Type ℓ} {B : Type κ} → Run A → (A → Run B) → Run B
ok a >>= f = f a
fault e >>= f = fault e

-- A pointer that the code follows without a test.
abbrev pub defined {ℓ} : {A : Type ℓ} → Option A → Run A
defined (some a) = ok a
defined none = fault undefined

-- What holds of the parts of a known result holds of the parts that a hypothesis names.
pub of_ok_eq {ℓ κ} : {A : Type ℓ} (P : A → Type κ) {x y : A} → ok x ≡ ok y → P x → P y
of_ok_eq P e h = subst P (cc) h

pub Run-cases {ℓ} :
    {A : Type ℓ} (r : Run A) → ((e : Fault) × (r ≡ fault e)) ⊎ ((a : A) × (r ≡ ok a))
Run-cases (fault e) = inl (e, refl)
Run-cases (ok a) = inr (a, refl)
