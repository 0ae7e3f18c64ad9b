-- ===== src/TraceManager.antt =====
-- src/TraceManager.py: the window of parsed calls that the producer fills and the mutators read.
-- Logging has no effect on the state and is left out.
pub mod Reads
use Prim.Native.Nat.{◌-◌}
use crash_simulator.Base.{
  ℕ, zero, suc, ◌+◌, Bool, true, false, not, ◌&&◌, Option, none, some, List, [], ◌∷◌, ◌++◌, map,
  length, get_elem?, ltb, leb, if◌then◌else◌, ℤ, pos, negsuc, ◌+ℤ◌, ◌-ℤ◌,
}
use crash_simulator.Py.{
  Text, same, Result, ok, raised, attribute_error, type_error, index_error, Py, ◌>>=◌, ◌>>◌, self,
  put, lift, raise, return,
}
use crash_simulator.Syscall.{Syscall}

-- One element of `self.trace`.
pub record Line : Type 0 where
  pub event_line : Text
  pub trace_line : Text

-- One element of `self.mutators`.
pub record Entry : Type 0 where
  pub id : Text
  pub index : ℤ

-- `parse_line` gives None for a line that holds no call.
pub record Manager : Type 0 where
  pub producer_running : Bool
  pub syscall_objects : List (Option Syscall)
  pub trace : List Line
  pub mutators : List Entry

unfoldable pub init : Manager
init = record { producer_running = true; syscall_objects = []; trace = []; mutators = [] }

-- `draw i` is what `random.choice(char)` returns the i-th time.
unfoldable pub id_generator : ℕ → (ℕ → ℕ) → Text
id_generator zero draw = []
id_generator (suc size) draw = id_generator size draw ++ draw size ∷ []

-- Returns the id that `set_id` stores in the mutator.
unfoldable pub register_mutator : (ℕ → ℕ) → Py Manager Text
unfolding id_generator
register_mutator draw = do
  m ← self
  let id = id_generator 10 draw
  put (record m { mutators = m.mutators ++ record { id = id; index = pos 0 } ∷ [] })
  return id

abbrev pub shift : ℤ → Entry → Entry
shift n e = record e { index = e.index -ℤ n }

pop_objects : List (Option Syscall) → Py Manager (Unit {0})
pop_objects [] = raise index_error
pop_objects (c ∷ cs) = do m ← self; put (record m { syscall_objects = cs })

pop_trace : List Line → Py Manager (Unit {0})
pop_trace [] = raise index_error
pop_trace (l ∷ ls) = do m ← self; put (record m { trace = ls })

unfoldable pub pop_front : Py Manager (Unit {0})
unfolding pop_objects pop_trace
pop_front = do
  m ← self
  pop_objects m.syscall_objects
  pop_trace m.trace
  m' ← self
  put (record m' { mutators = map (shift (pos 1)) m'.mutators })

abbrev shift_up : Option ℕ → Option ℕ
shift_up none = none
shift_up (some i) = some (suc i)

-- The position of the first entry with the id.
unfoldable pub find_entry : Text → List Entry → Option ℕ
find_entry id [] = none
find_entry id (e ∷ es) = if same e.id id then some 0 else shift_up (find_entry id es)

found_or_raise : Option ℕ → Result ℕ
found_or_raise none = raised attribute_error
found_or_raise (some i) = ok i

-- `exceptions.MutatorError` names nothing: `import exceptions` brings Python's own module of that
-- name, and the attribute lookup raises.
unfoldable pub checking_mutator : Text → Py Manager ℕ
unfolding find_entry found_or_raise
checking_mutator id = do m ← self; lift (found_or_raise (find_entry id m.mutators))

-- l[i], with Python's negative positions; `none` is the IndexError.
unfoldable pub py_index {ℓ} : {A : Type ℓ} → List A → ℤ → Option A
py_index l (pos n) = get_elem? l n
py_index l (negsuc n) = if ltb n (length l) then get_elem? l (length l - suc n) else none

-- A round of the loop for each of the numbers left: the lines collected, and whether the end of the
-- range was reached.
unfoldable pub gather : ℕ → ℤ → List Line → List Text × Bool
unfolding py_index
gather zero at ls = ([], true)
gather (suc n) at ls = elim (py_index ls at) [
  | none ↦ ([], false)
  | some l ↦ let (more, reached) = gather n (at +ℤ pos 1) ls in (l.trace_line ∷ more, reached)
]

pub record Package : Type 0 where
  pub syscall : Option Syscall
  pub event : Text
  pub trace : List Text

-- self.mutators[i]['index'] += 1
unfoldable pub advance : ℕ → List Entry → List Entry
advance i [] = []
advance zero (e ∷ es) = record e { index = e.index +ℤ pos 1 } ∷ es
advance (suc i) (e ∷ es) = e ∷ advance i es

-- The package at an index, unless the list ends too early.
unfoldable pub pack_at : ℕ → ℤ → Manager → Option Package
unfolding gather py_index
pack_at sniplen at m = elim (py_index m.syscall_objects at) [
  | none ↦ none
  | some syscall ↦ elim (py_index m.trace at) [
    | none ↦ none
    | some l ↦
        let (more, reached) = gather (sniplen - 1) (at +ℤ pos 1) m.trace in
        if not reached && m.producer_running
        then none
        else some (record { syscall = syscall; event = l.event_line; trace = l.trace_line ∷ more })
  ]
]

deliver : ℕ → Option Package → Py Manager (Option Package)
unfolding advance
deliver i none = return none
deliver i (some p) = do
  m ← self
  put (record m { mutators = advance i m.mutators })
  return (some p)

entry_index : Option Entry → Result ℤ
entry_index none = raised index_error
entry_index (some e) = ok e.index

unfoldable pub get_next_syscall_trace_package : Text → ℕ → Py Manager (Option Package)
unfolding checking_mutator entry_index pack_at deliver
get_next_syscall_trace_package calling_mutator sniplen = do
  i ← checking_mutator calling_mutator
  m ← self
  at ← lift (entry_index (get_elem? m.mutators i))
  deliver i (pack_at sniplen at m)

-- `self.trace[backlog_start,index]` subscripts a list with a pair, which raises.
unfoldable pub get_backlog : Text → Py Manager (Option Package)
unfolding checking_mutator
get_backlog calling_mutator = do i ← checking_mutator calling_mutator; raise type_error

unfoldable pub producer_done : Py Manager (Unit {0})
producer_done = do m ← self; put (record m { producer_running = false })
