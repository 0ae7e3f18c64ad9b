-- ===== src/Checker/Urandom.antt =====
-- src/checker/checker.py: UrandomReadDuringCopyAutomaton
pub mod Correct
use crash_simulator.Base.{Bool, true, false, ◌&&◌, Option, none, some, ℤ}
use crash_simulator.Py.{
  text, is_in, Value, nil, contains, register_eq, Py, ◌>>=◌, ◌>>◌, self, put, lift, when,
}
use crash_simulator.Syscall.{Syscall, arg, arg_has, ret_int}

-- The ids 0 to 3 of `self.states`.
pub data State : Type 0 where
  not_opened not_read has_been_read written : State

pub record Automaton : Type 0 where
  pub current_state : State
  pub data_register : Value
  pub urandom_fd : Option ℤ

unfoldable pub init : Automaton
init = record { current_state = not_opened; data_register = nil; urandom_fd = none }

abbrev is_not_opened : State → Bool
is_not_opened not_opened = true
is_not_opened _ = false

abbrev is_not_read : State → Bool
is_not_read not_read = true
is_not_read _ = false

abbrev is_read : State → Bool
is_read has_been_read = true
is_read _ = false

-- if self.current_state['id'] == 0. The state is set before `int` may raise.
unfoldable pub watch_open : Syscall → Py Automaton (Unit {0})
watch_open c = do
  a ← self
  when (is_not_opened a.current_state && is_in (text "open") c.name) do
    hit ← lift (arg_has (text "/dev/urandom") c 0)
    when hit do
      put (record a { current_state = not_read })
      fd ← lift (ret_int c)
      put (record a { current_state = not_read; urandom_fd = some fd })

-- if self.current_state['id'] == 1
unfoldable pub watch_read : Syscall → Py Automaton (Unit {0})
watch_read c = do
  a ← self
  when (is_not_read a.current_state && is_in (text "read") c.name) do
    v ← lift (arg c 0)
    when (register_eq a.urandom_fd v) do
      buffer ← lift (arg c 1)
      put (record a { data_register = buffer; current_state = has_been_read })

-- if self.current_state['id'] == 2
read_again : Syscall → Py Automaton (Unit {0})
read_again c = do
  a ← self
  when (is_in (text "read") c.name) do
    v ← lift (arg c 0)
    when (register_eq a.urandom_fd v)
        do buffer ← lift (arg c 1); put (record a { data_register = buffer })

write_out : Syscall → Py Automaton (Unit {0})
write_out c = do
  a ← self
  when (is_in (text "write") c.name) do
    buffer ← lift (arg c 1)
    hit ← lift (contains a.data_register buffer)
    when hit (put (record a { current_state = written }))

unfoldable pub watch_write : Syscall → Py Automaton (Unit {0})
unfolding read_again write_out
watch_write c = do a ← self; when (is_read a.current_state) do read_again c; write_out c

-- The tests on the state are no `elif` chain: one call can pass several of them.
unfoldable pub transition : Syscall → Py Automaton (Unit {0})
unfolding watch_open watch_read watch_write
transition c = do watch_open c; watch_read c; watch_write c

unfoldable pub is_accepting : Automaton → Bool
is_accepting a = elim a.current_state [ written ↦ false | _ ↦ true ]
