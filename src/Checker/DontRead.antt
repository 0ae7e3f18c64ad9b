-- ===== src/Checker/DontRead.antt =====
-- src/checker/checker.py: DontReadFileAfterStatChecker
pub mod Correct
use crash_simulator.Base.{Bool, true, false, ◌&&◌, some, ℤ, pos}
use crash_simulator.Py.{Text, text, is_in, register_eq, Py, ◌>>=◌, ◌>>◌, self, put, lift, when}
use crash_simulator.Syscall.{Syscall, arg, arg_has, ret_int}

-- The ids 0 to 3 of `self.states`.
pub data State : Type 0 where
  not_stated not_opened not_read has_been_read : State

pub record Automaton : Type 0 where
  pub filename : Text
  pub current_state : State
  pub fd_register : ℤ

unfoldable pub init : Text → Automaton
init filename = record { filename = filename; current_state = not_stated; fd_register = pos 0 }

abbrev is_not_stated : State → Bool
is_not_stated not_stated = true
is_not_stated _ = false

abbrev is_not_opened : State → Bool
is_not_opened not_opened = true
is_not_opened _ = false

abbrev is_not_read : State → Bool
is_not_read not_read = true
is_not_read _ = false

-- if self.current_state['id'] == 0
watch_stat : Syscall → Py Automaton (Unit {0})
watch_stat c = do
  a ← self
  when (is_not_stated a.current_state && is_in (text "stat64") c.name) do
    hit ← lift (arg_has a.filename c 0)
    when hit (put (record a { current_state = not_opened }))

-- if self.current_state['id'] == 1
watch_open : Syscall → Py Automaton (Unit {0})
watch_open c = do
  a ← self
  when (is_not_opened a.current_state && is_in (text "open") c.name) do
    hit ← lift (arg_has a.filename c 0)
    when hit do fd ← lift (ret_int c); put (record a { fd_register = fd; current_state = not_read })

-- if self.current_state['id'] == 2
watch_read : Syscall → Py Automaton (Unit {0})
watch_read c = do
  a ← self
  when (is_not_read a.current_state && is_in (text "read") c.name) do
    v ← lift (arg c 0)
    when (register_eq (some a.fd_register) v) (put (record a { current_state = has_been_read }))

-- The tests on the state are no `elif` chain: one call can pass several of them.
unfoldable pub transition : Syscall → Py Automaton (Unit {0})
unfolding watch_stat watch_open watch_read
transition c = do watch_stat c; watch_open c; watch_read c

unfoldable pub is_accepting : Automaton → Bool
is_accepting a = elim a.current_state [ has_been_read ↦ false | _ ↦ true ]
