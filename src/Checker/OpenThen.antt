-- ===== src/Checker/OpenThen.antt =====
-- src/checker/checker.py: OpenAndUtimensatAutomaton and OpenAndFstatFileAutomaton. The two classes
-- differ only in the call that they wait for, which is an argument here.
pub mod Correct
use crash_simulator.Base.{Bool, true, false, Option, none, some, ℤ, List}
use crash_simulator.Py.{
  Text, text, same, Py, ok, ◌>>=◌, skip, self, put, lift, when, for_each, register_is,
}
use crash_simulator.Syscall.{Syscall, arg_has, arg_int, ret_int}

-- The ids 0, 1, 2 of `self.states`.
pub data State : Type 0 where
  not_opened has_been_opened used : State

pub record Automaton : Type 0 where
  pub filename : Text
  pub current_state : State
  pub fd_register : Option ℤ

unfoldable pub init : Text → Automaton
init filename = record { filename = filename; current_state = not_opened; fd_register = none }

-- `transition`, where `use_name` is the awaited call.
unfoldable pub transition : Text → Syscall → Py Automaton (Unit {0})
transition use_name c = do
  a ← self
  elim a.current_state [
    | not_opened ↦ when (same c.name (text "open")) do
      hit ← lift (arg_has a.filename c 0)
      when hit do
        fd ← lift (ret_int c)
        put (record a { fd_register = some fd; current_state = has_been_opened })
    | has_been_opened ↦ when (same c.name use_name) do
      fd ← lift (arg_int c 0)
      when (register_is a.fd_register fd) (put (record a { current_state = used }))
    | used ↦ skip
  ]

unfoldable pub is_accepting : Automaton → Bool
is_accepting a = elim a.current_state [ used ↦ true | _ ↦ false ]

-- OpenAndUtimensatAutomaton.transition
unfoldable pub utimensat_transition : Syscall → Py Automaton (Unit {0})
unfolding transition
utimensat_transition = transition (text "utimensat")

-- OpenAndFstatFileAutomaton.transition
unfoldable pub fstat_transition : Syscall → Py Automaton (Unit {0})
unfolding transition
fstat_transition = transition (text "fstat64")
