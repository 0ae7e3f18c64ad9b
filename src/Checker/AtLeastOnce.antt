-- ===== src/Checker/AtLeastOnce.antt =====
-- src/checker/checker.py: AtLeastOnceWithArgAutomaton
pub mod Correct
use crash_simulator.Base.{Bool, true, false, ℕ}
use crash_simulator.Py.{Text, is_in, Py, ◌>>=◌, skip, self, put, lift, when}
use crash_simulator.Syscall.{Syscall, arg_has}

-- The ids 0, 1 of `self.states`.
pub data State : Type 0 where
  not_called called : State

pub record Automaton : Type 0 where
  pub name : Text
  pub value : Text  -- self.arg
  pub position : ℕ  -- self.pos
  pub current_state : State

unfoldable pub init : Text → Text → ℕ → Automaton
init name value position = record {
  name = name;
  value = value;
  position = position;
  current_state = not_called;
}

-- The second test is made only if the first one passes.
unfoldable pub transition : Syscall → Py Automaton (Unit {0})
transition c = do
  a ← self
  elim a.current_state [
    | not_called ↦ when (is_in a.name c.name) do
      hit ← lift (arg_has a.value c a.position)
      when hit (put (record a { current_state = called }))
    | called ↦ skip
  ]

unfoldable pub is_accepting : Automaton → Bool
is_accepting a = elim a.current_state [ called ↦ true | not_called ↦ false ]
