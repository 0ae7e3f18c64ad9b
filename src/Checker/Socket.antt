-- ===== src/Checker/Socket.antt =====
-- src/checker/checker.py: SocketConnectedAndReadChecker. The calls of `print` have no effect on the
-- automaton, but what they evaluate can raise, and is modelled.
pub mod Correct
use crash_simulator.Base.{
  Bool, true, false, ◌&&◌, Option, none, some, ℤ, pos, ◌+ℤ◌, leb_ℤ, eq_ℤ, List, [], ◌∷◌, ℕ, zero,
  suc, get_elem?,
}
use crash_simulator.Py.{
  Text, text, is_in, Value, Values, end, item, nil, num, str, list, obj, value_eq, Result, ok,
  raised, type_error, index_error, attribute_error, then_try, Py, ◌>>=◌, ◌>>◌, self, put, lift,
  when,
}
use crash_simulator.Syscall.{Syscall, arg, arg_int, ret_int}

-- The ids 0, 1, 2 of `self.states`.
pub data State : Type 0 where
  not_connected reading all_read : State

pub record Automaton : Type 0 where
  pub addr : Text
  pub port : Value
  pub data_length : ℤ
  pub data_length_register : ℤ
  pub sockfd_register : ℤ
  pub current_state : State

unfoldable pub init : Text → Value → ℤ → Automaton
init addr port data_length = record {
  addr = addr;
  port = port;
  data_length = data_length;
  data_length_register = pos 0;
  sockfd_register = pos 0;
  current_state = not_connected;
}

nth_item : Values → ℕ → Result Value
nth_item end i = raised index_error
nth_item (item v r) zero = ok v
nth_item (item v r) (suc i) = nth_item r i

nth_char : Option ℕ → Result Value
nth_char none = raised index_error
nth_char (some c) = ok (str (c ∷ []))

-- v[i]
unfoldable pub index : Value → ℕ → Result Value
unfolding nth_item nth_char
index (list r) i = nth_item r i
index (str s) i = nth_char (get_elem? s i)
index _ i = raised type_error

-- v.value
unfoldable pub attribute : Value → Result Value
attribute (obj v) = ok v
attribute _ = raised attribute_error

-- v[i].value
unfoldable pub member : Value → ℕ → Result Value
unfolding index attribute
member v i = then_try (index v i) attribute

abbrev is_not_connected : State → Bool
is_not_connected not_connected = true
is_not_connected _ = false

abbrev is_reading : State → Bool
is_reading reading = true
is_reading _ = false

-- `show` is Python's `str` on the parts of a socket address, which the parser's classes define.
module _ (show : Value → Text) where
  -- if self.current_state['id'] == 0
  unfoldable pub watch_connect : Syscall → Py Automaton (Unit {0})
  watch_connect c = do
    a ← self
    when (is_not_connected a.current_state && is_in (text "connect") c.name) do
      address ← lift (arg c 1)
      family ← lift (index address 0)
      when (is_in (text "INET") (show family)) do
        ip ← lift (member address 2)
        port ← lift (member address 1)
        when (is_in a.addr (show ip) && value_eq a.port port) do
          fd ← lift (arg_int c 0)
          put (record a { sockfd_register = fd; current_state = reading })

  count_data : Syscall → Py Automaton (Unit {0})
  count_data c = do
    a ← self
    fd ← lift (arg_int c 0)
    when (eq_ℤ fd a.sockfd_register) do
      n ← lift (ret_int c)
      put (record a { data_length_register = a.data_length_register +ℤ n })

  check_length : Py Automaton (Unit {0})
  check_length = do
    a ← self
    when (leb_ℤ a.data_length a.data_length_register) (put (record a { current_state = all_read }))

  -- if self.current_state['id'] == 1
  unfoldable pub watch_read : Syscall → Py Automaton (Unit {0})
  unfolding count_data check_length
  watch_read c = do
    a ← self
    when (is_reading a.current_state && is_in (text "read") c.name) do count_data c; check_length

  -- The tests on the state are no `elif` chain: one call can pass several of them.
  unfoldable pub transition : Syscall → Py Automaton (Unit {0})
  unfolding watch_connect watch_read
  transition c = do watch_connect c; watch_read c

unfoldable pub is_accepting : Automaton → Bool
is_accepting a = elim a.current_state [ all_read ↦ true | _ ↦ false ]
