-- ===== src/Mutator/Between.antt =====
-- src/mutator/mutator.py: GenericMutator.find_syscall_between_indexes
use native.Mathlib.Nat.{add-suc}
use crash_simulator.Base.{
  ◌≡◌, refl, ap, sym, ◌∙◌, ℕ, suc, ◌+◌, Bool, true, false, List, [], ◌∷◌, map, ℤ, pos, negsuc, eq_ℤ,
  ltb, length, if◌then◌else◌, arith, Bool-cases, inl, inr,
}
use crash_simulator.Py.{Result, ok, raised, value_error}
use crash_simulator.Syscall.{Syscall}

abbrev is_negative : ℤ → Bool
is_negative (pos n) = false
is_negative (negsuc n) = true

abbrev exceeds : ℤ → ℕ → Bool
exceeds (pos n) m = ltb m n
exceeds (negsuc n) m = false

-- start, which is not negative here
abbrev as_ℕ : ℤ → ℕ
as_ℕ (pos n) = n
as_ℕ (negsuc n) = 0

-- for index, line in enumerate(syscalls): `at` is index + start.
indexes_from : (Syscall → Bool) → ℕ → List Syscall → List ℕ
indexes_from pred_func at [] = []
indexes_from pred_func at (line ∷ lines) =
    let rest = indexes_from pred_func (suc at) lines in if pred_func line then at ∷ rest else rest

unfoldable pub find_syscall_between_indexes :
    List Syscall → ℤ → ℤ → (Syscall → Bool) → Result (List ℕ)
unfolding indexes_from
find_syscall_between_indexes syscalls start end pred_func =
    if is_negative start
    then raised value_error
    else if is_negative end
    then raised value_error
    else if eq_ℤ start end
    then raised value_error
    else if exceeds end (length syscalls)
    then raised value_error
    else ok (indexes_from pred_func (as_ℕ start) syscalls)

indexes_shift :
    (p : Syscall → Bool) (s at : ℕ) (cs : List Syscall)
    → indexes_from p (s + at) cs ≡ map (λ i. s + i) (indexes_from p at cs)
unfolding indexes_from
indexes_shift p s at [] = refl
indexes_shift p s at (c ∷ cs) =
    let later = ap (λ n. indexes_from p n cs) (sym (add-suc s at)) in
    elim (Bool-cases (p c)) [
      | inl h ↦ rw (h) (ap (λ l. (s + at) ∷ l) (later ∙ indexes_shift p s (suc at) cs))
      | inr h ↦ rw (h) (later ∙ indexes_shift p s (suc at) cs)
    ]

-- Two searches that raise nothing, the second from 0 on: the indexes of the first are those of the
-- second with its start added, whatever the ends are. So every call of the list is looked at in both.
pub between_shifted :
    (cs : List Syscall) (s : ℕ) (end end' : ℤ) (p : Syscall → Bool) (is is' : List ℕ)
    → find_syscall_between_indexes cs (pos s) end p ≡ ok is
    → find_syscall_between_indexes cs (pos 0) end' p ≡ ok is'
    → is ≡ map (λ i. s + i) is'
unfolding find_syscall_between_indexes
between_shifted cs s end end' p is is' h h' = ground (arith, indexes_shift p s 0 cs)
