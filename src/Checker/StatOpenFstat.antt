-- ===== src/Checker/StatOpenFstat.antt =====
-- src/checker/checker.py: StatOpenFstatAutomaton
pub mod Correct
use crash_simulator.Base.{Bool, true, false, ◌||◌, Option, none, some, ℤ}
use crash_simulator.Py.{Text, text, same, register_is, Py, ◌>>=◌, skip, self, put, lift, when}
use crash_simulator.Syscall.{Syscall, arg_has, arg_int, ret_int}

-- The ids 0 to 3 of `self.states`.
pub data State : Type 0 where
  not_stated not_opened not_fstated done : State

pub record Automaton : Type 0 where
  pub filename : Text
  pub fd_register : Option ℤ
  pub current_state : State

unfoldable pub init : Text → Automaton
init filename = record { filename = filename; fd_register = none; current_state = not_stated }

-- The last `else`, which raises on an illegal state, has no case: `State` has no other value.
unfoldable pub transition : Syscall → Py Automaton (Unit {0})
transition c = do
  a ← self
  elim a.current_state [
    | not_stated ↦ when (same c.name (text "stat64") || same c.name (text "lstat64")) do
      hit ← lift (arg_has a.filename c 0)
      when hit (put (record a { current_state = not_opened }))
    | not_opened ↦ when (same c.name (text "open")) do
      hit ← lift (arg_has a.filename c 0)
      when hit do
        fd ← lift (ret_int c)
        put (record a { fd_register = some fd; current_state = not_fstated })
    | not_fstated ↦ when (same c.name (text "fstat64")) do
      fd ← lift (arg_int c 0)
      when (register_is a.fd_register fd) (put (record a { current_state = done }))
    | done ↦ skip
  ]

unfoldable pub is_accepting : Automaton → Bool
is_accepting a = elim a.current_state [ done ↦ true | _ ↦ false ]
