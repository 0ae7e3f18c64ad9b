-- ===== src/Mutator/Time/Laws.antt =====
-- Laws of FutureTimeMutator and ReverseTimeMutator (src/mutator/).
use crash_simulator.Base.{
  ◌≡◌, Bool, true, false, List, [], ◌∷◌, ◌++◌, map, ℤ, +ℤ_cancel, arith, All, All-mono, pos,
  if◌then◌else◌,
}
use crash_simulator.Py.{text, same, Value, num, str, ok, raised, type_error, then_try}
use crash_simulator.Syscall.{Syscall}
use crash_simulator.Mutator.Each.{mutate_each_chain}
use crash_simulator.Mutator.Time.{
  add_int, sub_int, future_call, future_mutate, reverse_call, reverse_mutate,
}

abbrev pub is_num : Value → Bool
is_num (num n) = true
is_num v = false

-- A call of `time` has a number for its result.
abbrev pub TimeIsNumber : Syscall → Type 0
TimeIsNumber c = same c.name (text "time") ≡ true → is_num c.ret_value ≡ true

-- The label of a call of `time` is emptied.
unfoldable pub unlabel : Syscall → Syscall
unlabel c = if same c.name (text "time") then record c { ret_label = str [] } else c

number_of : Value → ℤ
number_of (num n) = n
number_of v = pos 0

reverse_call-future_call :
    (seconds : ℤ) (c : Syscall)
    → TimeIsNumber c
    → then_try (future_call seconds c) (reverse_call seconds) ≡ ok (unlabel c)
unfolding future_call reverse_call unlabel add_int sub_int number_of
reverse_call-future_call seconds c a = ground (arith, a, +ℤ_cancel (number_of c.ret_value) seconds)

-- Moving the clock forward and then back by the same number of seconds leaves every result as it was
-- in the trace. Only the labels of the `time` calls are lost.
pub reverse-future :
    (seconds : ℤ) (t : List Syscall)
    → All TimeIsNumber t
    → ((future_mutate seconds t).0 ≡ ok tt)
      × (reverse_mutate seconds (future_mutate seconds t).1 ≡ (ok tt, map unlabel t))
unfolding future_mutate reverse_mutate
reverse-future seconds t a =
    mutate_each_chain (future_call seconds) (reverse_call seconds) unlabel t (
      All-mono TimeIsNumber
        (λ c. then_try (future_call seconds c) (reverse_call seconds) ≡ ok (unlabel c)) t
        (reverse_call-future_call seconds) a)

-- The first `time` call whose result is no number ends the mutation with a TypeError. The calls
-- before it stay mutated; it and the calls behind it are unchanged.
pub future_raises :
    (seconds : ℤ) (before : List Syscall) (c : Syscall) (rest : List Syscall)
    → All TimeIsNumber before
    → same c.name (text "time") ≡ true
    → is_num c.ret_value ≡ false
    → future_mutate seconds (before ++ c ∷ rest)
      ≡ (raised type_error, (future_mutate seconds before).1 ++ c ∷ rest)
unfolding future_mutate
future_raises seconds [] c rest a h n = ground arith
future_raises seconds (d ∷ before) c rest a h n =
    ground (arith, a.0, future_raises seconds before c rest a.1 h n)
