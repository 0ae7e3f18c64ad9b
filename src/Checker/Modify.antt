-- ===== src/Checker/Modify.antt =====
-- src/checker/checker.py: DontModifyFileAutomaton
pub mod Correct
use crash_simulator.Base.{Bool, true, false, not, ◌&&◌, Option, none, some, ℤ, if◌then◌else◌}
use crash_simulator.Py.{
  Text, text, is_in, Value, str, contains, register_eq, Result, ok, raised, not_implemented, Py,
  ◌>>=◌, ◌>>◌, skip, self, put, lift, when,
}
use crash_simulator.Syscall.{Syscall, arg, arg_has, ret_int}

-- The ids 0, 1, 2 of `self.states`.
pub data State : Type 0 where
  not_opened opened_whole destroyed : State

pub record Automaton : Type 0 where
  pub filename : Text
  pub current_state : State
  pub fd_register : Option ℤ

unfoldable pub init : Text → Automaton
init filename = record { filename = filename; current_state = not_opened; fd_register = none }

-- `_bad_flags`: the verdict on the two flags, or the exception.
unfoldable pub judge_flags : Bool → Bool → Result Bool
judge_flags append trunc =
    if append && trunc then raised not_implemented else if not append then ok true else ok false

unfoldable pub bad_flags : Value → Py Automaton Bool
unfolding judge_flags
bad_flags flags = do
  append ← lift (contains (str (text "O_APPEND")) flags)
  trunc ← lift (contains (str (text "O_TRUNC")) flags)
  lift (judge_flags append trunc)

-- The descriptor is stored before the flags are judged.
on_open : Syscall → Py Automaton (Unit {0})
unfolding bad_flags
on_open c = do
  a ← self
  hit ← lift (arg_has a.filename c 0)
  when hit do
    fd ← lift (ret_int c)
    put (record a { fd_register = some fd })
    flags ← lift (arg c 1)
    bad ← bad_flags flags
    a' ← self
    when bad (put (record a' { current_state = destroyed }))

on_write : Syscall → Py Automaton (Unit {0})
on_write c = do
  a ← self
  v ← lift (arg c 0)
  when (register_eq a.fd_register v) (put (record a { current_state = destroyed }))

unfoldable pub transition : Syscall → Py Automaton (Unit {0})
unfolding on_open on_write
transition c = do
  a ← self
  elim a.current_state [
    | not_opened ↦
        if is_in (text "open") c.name
        then on_open c
        else when (is_in (text "write") c.name) (on_write c)
    | _ ↦ skip
  ]

unfoldable pub is_accepting : Automaton → Bool
is_accepting a = elim a.current_state [ destroyed ↦ false | _ ↦ true ]
