-- ===== src/Checker/Calls.antt =====
-- What the specifications of the automata say of one call. These are independent of the automata:
-- each is about a call alone.
use crash_simulator.Base.{Bool, false, Option, none, some, ℤ, pos, eq_ℤ, ◌&&◌, if◌then◌else◌, ℕ}
use crash_simulator.Py.{Text, text, same, Result, ok, raised}
use crash_simulator.Syscall.{Syscall, arg_has, arg_int, ret_int}

abbrev pub holds : Result Bool → Bool
holds (ok b) = b
holds (raised e) = false

abbrev pub is_ok : Result ℤ → ℤ → Bool
is_ok (ok m) n = eq_ℤ n m
is_ok (raised e) n = false

abbrev pub ok_value : Result ℤ → Option ℤ
ok_value (ok n) = some n
ok_value (raised e) = none

-- The number in a result, for the lemmas that need one on every branch.
abbrev pub number : Result ℤ → ℤ
number (ok n) = n
number (raised e) = pos 0

-- A call of `name` with `part` in its argument `i`.
unfoldable pub called_with : Text → Text → ℕ → Syscall → Bool
called_with name part i c = same c.name name && holds (arg_has part c i)

-- A call of `open` on a path with `file` in it, and the number that it returns.
unfoldable pub opened : Text → Syscall → Option ℤ
unfolding called_with
opened file c = if called_with (text "open") file 0 c then ok_value (ret_int c) else none

-- A call of `name` on the descriptor `fd`.
unfoldable pub called_on : Text → ℤ → Syscall → Bool
called_on name fd c = same c.name name && is_ok (arg_int c 0) fd
