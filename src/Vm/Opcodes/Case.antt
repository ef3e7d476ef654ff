-- ===== src/Vm/Opcodes/Case.antt =====
-- The names of the operations are read in any case (src/vm/utils.c).
use cyntatic.Prelude.{
  ℕ, zero, suc, ◌+◌, ◌≡◌, refl, ap, ◌∙◌, Option, some, List, [], ◌∷◌, length, get_elem?,
  if◌then◌else◌, arith, of_some_eq,
}
use Prim.Native.Nat.{Ordering}
use cyntatic.Tree.Text.{char_order}
use cyntatic.Vm.Opcodes.{to_upper, strncasecmp, op_codes, is_equal, find_opcode, get_opcode}

-- The letters of a string, in upper case.
abbrev pub upper : List ℕ → List ℕ
upper [] = []
upper (c ∷ s) = to_upper c ∷ upper s

length-upper : (s t : List ℕ) → upper s ≡ upper t → length s ≡ length t
length-upper [] [] e = refl
length-upper [] (d ∷ t) e = absurd (cc)
length-upper (c ∷ s) [] e = absurd (cc)
length-upper (c ∷ s) (d ∷ t) e = ap suc (length-upper s t (cc))

-- The comparison sees a string in upper case only.
strncasecmp-upper :
    (s t n : List ℕ) → upper s ≡ upper t → strncasecmp s (length s) n ≡ strncasecmp t (length t) n
unfolding strncasecmp
strncasecmp-upper [] [] n e = refl
strncasecmp-upper [] (d ∷ t) n e = absurd (cc)
strncasecmp-upper (c ∷ s) [] n e = absurd (cc)
strncasecmp-upper (c ∷ s) (d ∷ t) [] e = refl
strncasecmp-upper (c ∷ s) (d ∷ t) (b ∷ n) e =
    let h : to_upper c ≡ to_upper d = cc in
    let more = strncasecmp-upper s t n (cc) in
    ap
      (λ u. elim (char_order u (to_upper b)) as (λ o. Option Ordering) [
        | Ordering.eq ↦ strncasecmp s (length s) n
        | Ordering.lt ↦ some Ordering.lt
        | Ordering.gt ↦ some Ordering.gt
      ])
      h
    ∙ ap
        (λ r. elim (char_order (to_upper d) (to_upper b)) as (λ o. Option Ordering) [
          | Ordering.eq ↦ r
          | Ordering.lt ↦ some Ordering.lt
          | Ordering.gt ↦ some Ordering.gt
        ])
        more

find_opcode-upper :
    (l : List (List ℕ × ℕ)) (k : ℕ) (s t : List ℕ)
    → upper s ≡ upper t
    → find_opcode l k s ≡ find_opcode l k t
unfolding find_opcode
find_opcode-upper [] k s t e = refl
find_opcode-upper ((n, args) ∷ l) k s t e =
    ap (λ r. if is_equal r then some (k, args) else find_opcode l (suc k) s)
      (strncasecmp-upper s t n e)
    ∙ ap (λ r. if is_equal (strncasecmp t (length t) n) then some (k, args) else r)
        (find_opcode-upper l (suc k) s t e)

-- Each entry of a table, from the place `k` on, is found under its name.
abbrev Found : ℕ → List (List ℕ × ℕ) → Type 0
Found k [] = Unit
Found k ((n, args) ∷ l) = (get_opcode n ≡ some (k, args)) × Found (suc k) l

op_codes-Found : Found 0 op_codes
unfolding get_opcode find_opcode strncasecmp
op_codes-Found = (
  refl,
  (
    refl,
    (
      refl,
      (
        refl,
        (
          refl,
          (
            refl,
            (
              refl,
              (
                refl,
                (
                  refl,
                  (
                    refl,
                    (
                      refl,
                      (
                        refl,
                        (
                          refl,
                          (
                            refl,
                            (
                              refl,
                              (
                                refl,
                                (
                                  refl,
                                  (
                                    refl,
                                    (
                                      refl,
                                      (
                                        refl,
                                        (
                                          refl,
                                          (
                                            refl,
                                            (
                                              refl,
                                              (
                                                refl,
                                                (
                                                  refl,
                                                  (
                                                    refl,
                                                    (
                                                      refl,
                                                      (
                                                        refl,
                                                        (
                                                          refl,
                                                          (
                                                            refl,
                                                            (
                                                            refl,
                                                            (
                                                            refl,
                                                            (
                                                            refl,
                                                            (
                                                            refl,
                                                            (
                                                            refl,
                                                            (refl, (refl, (refl, (refl, tt)))),
                                                            ),
                                                            ),
                                                            ),
                                                            ),
                                                            ),
                                                          ),
                                                        ),
                                                      ),
                                                    ),
                                                  ),
                                                ),
                                              ),
                                            ),
                                          ),
                                        ),
                                      ),
                                    ),
                                  ),
                                ),
                              ),
                            ),
                          ),
                        ),
                      ),
                    ),
                  ),
                ),
              ),
            ),
          ),
        ),
      ),
    ),
  ),
)

Found-at :
    (l : List (List ℕ × ℕ)) (k i : ℕ) (name : List ℕ) (args : ℕ)
    → Found k l
    → get_elem? l i ≡ some (name, args)
    → get_opcode name ≡ some (k + i, args)
Found-at [] k i name args h e = absurd (cc)
Found-at ((n, m) ∷ l) k zero name args (h, hs) e =
    of_some_eq (λ r. get_opcode r.0 ≡ some (k + 0, r.1)) e (h ∙ ap (λ j. some (j, m)) (omega arith))
Found-at ((n, m) ∷ l) k (suc i) name args (h, hs) e =
    Found-at l (suc k) i name args hs e ∙ ap (λ j. some (j, args)) (omega arith)

-- The name of an operation, its letters in any case, is read as the opcode at its place in the table,
-- with the number of arguments that stands there.
pub get_opcode-upper :
    (opc : ℕ) (name s : List ℕ) (args : ℕ)
    → get_elem? op_codes opc ≡ some (name, args)
    → upper s ≡ upper name
    → get_opcode s ≡ some (opc, args)
unfolding get_opcode
get_opcode-upper opc name s args e h =
    find_opcode-upper op_codes 0 s name h
    ∙ Found-at op_codes 0 opc name args op_codes-Found e
    ∙ ap (λ j. some (j, args)) (omega arith)
