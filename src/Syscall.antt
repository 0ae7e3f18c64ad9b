-- ===== src/Syscall.antt =====
-- A system call object, as posix_omni_parser makes it. `args` holds the attribute `value` of each
-- argument object, and the return tuple is `ret_value`, `ret_label`.
use crash_simulator.Base.{ℕ, Bool, Option, none, some, List, get_elem?, ℤ}
use crash_simulator.Py.{Text, Value, str, contains, int, Result, ok, raised, index_error, then_try}

pub record Syscall : Type 0 where
  pub name : Text
  pub args : List Value
  pub ret_value : Value  -- ret[0]
  pub ret_label : Value  -- ret[1]

or_index_error : Option Value → Result Value
or_index_error none = raised index_error
or_index_error (some v) = ok v

-- syscall_object.args[i].value
unfoldable pub arg : Syscall → ℕ → Result Value
unfolding or_index_error
arg c i = or_index_error (get_elem? c.args i)

-- t in syscall_object.args[i].value
unfoldable pub arg_has : Text → Syscall → ℕ → Result Bool
unfolding arg
arg_has t c i = then_try (arg c i) (λ v. contains (str t) v)

-- int(syscall_object.args[i].value)
unfoldable pub arg_int : Syscall → ℕ → Result ℤ
unfolding arg
arg_int c i = then_try (arg c i) int

-- int(syscall_object.ret[0])
unfoldable pub ret_int : Syscall → Result ℤ
ret_int c = int c.ret_value
