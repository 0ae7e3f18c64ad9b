-- ===== src/Checker/Rename.antt =====
-- src/checker/checker.py: RenameEXDEVAutomaton
pub mod Correct
use crash_simulator.Base.{Bool, true, false}
use crash_simulator.Py.{Text, text, same, str, value_eq, Py, ◌>>=◌, skip, self, put, lift, when}
use crash_simulator.Syscall.{Syscall, arg_has}

-- The ids 0, 1 of `self.states`.
pub data State : Type 0 where
  not_attempted got_exdev : State

pub record Automaton : Type 0 where
  pub filename : Text
  pub current_state : State

unfoldable pub init : Text → Automaton
init filename = record { filename = filename; current_state = not_attempted }

unfoldable pub transition : Syscall → Py Automaton (Unit {0})
transition c = do
  a ← self
  elim a.current_state [
    | not_attempted ↦ when (same c.name (text "rename")) do
      hit ← lift (arg_has a.filename c 0)
      when hit (
          when (value_eq c.ret_label (str (text "EXDEV")))
            (put (record a { current_state = got_exdev })))
    | got_exdev ↦ skip
  ]

unfoldable pub is_accepting : Automaton → Bool
is_accepting a = elim a.current_state [ got_exdev ↦ true | not_attempted ↦ false ]
