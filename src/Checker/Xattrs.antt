-- ===== src/Checker/Xattrs.antt =====
-- src/checker/checker.py: XattrsCopiedInBulkAutomaton
pub mod Correct
pub mod Single
use crash_simulator.Base.{
  Bool, true, false, not, ◌||◌, Option, none, some, ℤ, List, [], ◌∷◌, ◌++◌, if◌then◌else◌,
}
use crash_simulator.Py.{
  Text, text, same, is_in, Value, str, value_eq, register_is, Py, ◌>>=◌, ◌>>◌, skip, self, put,
  lift, when,
}
use crash_simulator.Syscall.{Syscall, arg, arg_has, arg_int, ret_int}

-- The ids 0 to 3 of `self.states`.
pub data State : Type 0 where
  not_opened reading writing all_written : State

pub record Automaton : Type 0 where
  pub filename : Text
  pub current_state : State
  pub fd_register : Option ℤ
  pub attrs : List Value

unfoldable pub init : Text → Automaton
init filename = record {
  filename = filename;
  current_state = not_opened;
  fd_register = none;
  attrs = [];
}

-- v in attrs
unfoldable pub has_attr : Value → List Value → Bool
has_attr v [] = false
has_attr v (w ∷ ws) = value_eq v w || has_attr v ws

-- attrs.remove(v), under the test that `v` is in the list: the first one goes.
unfoldable pub remove : Value → List Value → List Value
remove v [] = []
remove v (w ∷ ws) = if value_eq v w then ws else w ∷ remove v ws

is_empty : List Value → Bool
is_empty [] = true
is_empty (v ∷ vs) = false

-- `and` looks at the size argument only if the descriptor is the one opened.
collect : Syscall → Py Automaton (Unit {0})
collect c = do
  a ← self
  when (is_in (text "fgetxattr") c.name) do
    fd ← lift (arg_int c 0)
    when (register_is a.fd_register fd) do
      size ← lift (arg c 2)
      when (not (value_eq size (str (text "0x0"))))
          do attr ← lift (arg c 1); put (record a { attrs = a.attrs ++ attr ∷ [] })

-- if syscall_object.args[1].value in self.attrs: self.attrs.remove(…)
strike : Syscall → Py Automaton (Unit {0})
unfolding has_attr remove
strike c = do
  a ← self
  attr ← lift (arg c 1)
  when (has_attr attr a.attrs) (put (record a { attrs = remove attr a.attrs }))

enter : State → Py Automaton (Unit {0})
enter state = do a ← self; put (record a { current_state = state })

finish : Py Automaton (Unit {0})
unfolding enter is_empty
finish = do a ← self; when (is_empty a.attrs) (enter all_written)

unfoldable pub transition : Syscall → Py Automaton (Unit {0})
unfolding collect strike enter finish
transition c = do
  a ← self
  elim a.current_state [
    | not_opened ↦ when (same c.name (text "open")) do
      hit ← lift (arg_has a.filename c 0)
      when hit do
        fd ← lift (ret_int c)
        put (record a { fd_register = some fd; current_state = reading })
    | reading ↦ do collect c; when (is_in (text "fsetxattr") c.name) do strike c; enter writing
    | writing ↦ when (is_in (text "fsetxattr") c.name) do strike c; finish
    | all_written ↦ skip
  ]

unfoldable pub is_accepting : Automaton → Bool
is_accepting a = elim a.current_state [ all_written ↦ true | _ ↦ false ]
