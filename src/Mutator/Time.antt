-- ===== src/Mutator/Time.antt =====
-- src/mutator/FutureTime.py and src/mutator/ReverseTime.py
pub mod Laws
use crash_simulator.Base.{
  Bool, true, false, Option, none, some, List, [], ℤ, ◌+ℤ◌, ◌-ℤ◌, if◌then◌else◌,
}
use crash_simulator.Py.{
  Text, text, same, Value, nil, num, str, list, obj, Result, ok, raised, type_error, then_try,
}
use crash_simulator.Syscall.{Syscall}
use crash_simulator.Mutator.Each.{mutate_each}

-- v + n and v - n
unfoldable pub add_int : Value → ℤ → Result Value
add_int (num m) n = ok (num (m +ℤ n))
add_int _ n = raised type_error

unfoldable pub sub_int : Value → ℤ → Result Value
sub_int (num m) n = ok (num (m -ℤ n))
sub_int _ n = raised type_error

-- syscalls[k].ret = (v, '')
abbrev pub with_ret : Syscall → Value → Result Syscall
with_ret c v = ok (record c { ret_value = v; ret_label = str [] })

unfoldable pub future_call : ℤ → Syscall → Result Syscall
unfolding add_int
future_call seconds c =
    if same c.name (text "time") then then_try (add_int c.ret_value seconds) (with_ret c) else ok c

-- FutureTimeMutator.mutate_syscalls
unfoldable pub future_mutate : ℤ → List Syscall → Result (Unit {0}) × List Syscall
unfolding future_call mutate_each
future_mutate seconds = mutate_each (future_call seconds)

unfoldable pub reverse_call : ℤ → Syscall → Result Syscall
unfolding sub_int
reverse_call seconds c =
    if same c.name (text "time") then then_try (sub_int c.ret_value seconds) (with_ret c) else ok c

-- ReverseTimeMutator.mutate_syscalls
unfoldable pub reverse_mutate : ℤ → List Syscall → Result (Unit {0}) × List Syscall
unfolding reverse_call mutate_each
reverse_mutate seconds = mutate_each (reverse_call seconds)
