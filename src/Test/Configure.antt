-- ===== src/Test/Configure.antt =====
-- src/rrtest.py: configure_test
pub mod Traceline
pub mod Null
use crash_simulator.Base.{
  ℕ, zero, suc, ◌+◌, ◌-◌, ◌*◌, Bool, true, false, not, ◌&&◌, Option, none, some, List, [], ◌∷◌,
  ◌++◌, map, ℤ, get_elem?, drop, length, ◌==◌, leb, if◌then◌else◌, is_some,
}
use crash_simulator.Py.{
  Text, text, is_in, is_space, starts_digit, starts_with, show_ℕ, Result, ok, raised, index_error,
  name_error, then_try, Py, ◌>>=◌, ◌>>◌, self, put, lift, return,
}
use crash_simulator.Syscall.{Syscall}
use crash_simulator.Test.Ini.{Ini, add_section, set_all, get}
use crash_simulator.Test.Snip.{event_number, write_lines, or_index_error}
use crash_simulator.Test.Opportunities.{
  Setup, section_name, snip_name, first_options, last_options, change_ini, add_snip, save,
  recorded_pid,
}

-- trace_lines[i - 1], where -1 is the last line
unfoldable pub line_before : List Text → ℕ → Result Text
line_before lines zero = or_index_error (get_elem? lines (length lines - 1))
line_before lines (suc i) = or_index_error (get_elem? lines i)

-- The loop that looks for the first call with `syscall_` in its name: the last value of `i`, which is
-- not bound if there is no call.
unfoldable pub marker_index : List Syscall → Result ℕ
marker_index [] = raised name_error
marker_index (c ∷ []) = ok 0
marker_index (c ∷ d ∷ l) =
    let rest = marker_index (d ∷ l) in
    if is_in (text "syscall_") c.name then ok 0 else then_try rest (λ i. ok (suc i))

unfoldable pub skip_digits : Text → Text
skip_digits [] = []
skip_digits (c ∷ s) = let rest = skip_digits s in if leb 48 c && leb c 57 then rest else c ∷ s

unfoldable pub skip_blanks : Text → Text
skip_blanks [] = []
skip_blanks (c ∷ s) = let rest = skip_blanks s in if is_space c then rest else c ∷ s

-- The text behind some spaces, one or more.
unfoldable pub blanks : Text → Option Text
blanks [] = none
blanks (c ∷ s) = if is_space c then some (skip_blanks s) else none

unfoldable pub numbered : Text → Option Text
numbered s = if starts_digit s then some (skip_digits s) else none

plus_signs : Text → Option Text
plus_signs s = if starts_with s (text "+++") then some (drop 3 s) else none

abbrev and_then : Option Text → (Text → Option Text) → Option Text
and_then none f = none
and_then (some s) f = f s

-- re.match(r'[0-9]+\s+\+\+\+\s+[0-9]+\s+\+\+\+', line)
unfoldable pub is_event_line : Text → Bool
unfolding skip_digits skip_blanks blanks numbered plus_signs
is_event_line line = is_some (
    and_then (numbered line) λ s. and_then (blanks s) λ s.
      and_then (plus_signs s)
        λ s. and_then (blanks s) λ s. and_then (numbered s) λ s. and_then (blanks s) plus_signs)

module _ (test_dir pid : Text) (trace_lines : List Text) (sniplen : ℕ) where
  -- The event and the snippet of the call in the line `at`, in the section `name`.
  unfoldable pub describe_line : Text → Text → ℕ → Py Setup (Unit {0})
  unfolding line_before event_number write_lines set_all last_options
  describe_line name snip at = do
    event_line ← lift (line_before trace_lines at)
    user_event ← lift (event_number event_line)
    add_snip snip (write_lines sniplen at 2 trace_lines).0
    change_ini
        (set_all name (last_options snip user_event pid (write_lines sniplen at 2 trace_lines).1))
    save

  -- A round for an index that identify_lines returned, in the section number `n`. The index is one
  -- of calls; with the event lines between them it is doubled.
  unfoldable pub configure_index : Text → ℕ → ℕ → Py Setup (Unit {0})
  unfolding section_name snip_name first_options set_all describe_line text
  configure_index mutator n index = do
    change_ini (add_section (section_name n))
    change_ini (set_all (section_name n) (first_options test_dir))
    change_ini (set_all (section_name n) ((text "mutator", mutator) ∷ []))
    line ← lift (or_index_error (get_elem? trace_lines (index * 2)))
    describe_line (section_name n) (snip_name test_dir n) (index * 2)

  unfoldable pub configure_indexes : Text → ℕ → List ℕ → Py Setup (Unit {0})
  unfolding configure_index
  configure_indexes mutator n [] = return tt
  configure_indexes mutator n (i ∷ is) = do
    configure_index mutator n i
    configure_indexes mutator (suc n) is

  -- The branch for a mutator, whose identify_lines is `identify`. The result is the return value.
  unfoldable pub configure_mutator :
      Text → (List Syscall → Result (List ℕ)) → List Syscall → Py Setup ℕ
  unfolding marker_index configure_indexes
  configure_mutator mutator identify syscalls = do
    off_set ← lift (marker_index syscalls)
    found ← lift (identify (drop off_set syscalls))
    s ← self
    configure_indexes mutator (length s.ini - 1) (map (λ i. i + off_set) found)
    return 1

  -- The branch for a line of the trace, counted from 1.
  unfoldable pub configure_line : ℕ → Py Setup ℕ
  unfolding first_options add_section set_all is_event_line describe_line text
  configure_line trace_line = do
    change_ini (add_section (text "request_handling_process"))
    change_ini (set_all (text "request_handling_process") (first_options test_dir))
    line ← lift (or_index_error (get_elem? trace_lines (trace_line - 1)))
    if is_event_line line then return 0 else do
      describe_line (text "request_handling_process") (test_dir ++ text "trace_snip.strace")
          (trace_line - 1)
      return 1

-- The mutator that is asked for: its constructor call, and its identify_lines.
pub record Chosen : Type 0 where
  pub call : Text
  pub identify : List Syscall → Result (List ℕ)

-- configure_test, for a test that exists. The trace line 0 is none. The result is what is returned,
-- where `none` is None.
unfoldable pub configure_test :
    Text → List Text → List Syscall → ℕ → Option Chosen → ℕ → Py Setup (Option ℕ)
unfolding recorded_pid configure_mutator configure_line get text
configure_test test_dir trace_lines syscalls sniplen (some m) (suc trace_line) = return (some 0)
configure_test test_dir trace_lines syscalls sniplen (some m) zero = do
  s ← self
  testname ← lift (get (text "rr_recording") (text "rr_dir") s.ini)
  pid ← lift (recorded_pid trace_lines)
  code ← configure_mutator test_dir pid trace_lines sniplen m.call m.identify syscalls
  return (some code)
configure_test test_dir trace_lines syscalls sniplen none zero = do
  s ← self
  testname ← lift (get (text "rr_recording") (text "rr_dir") s.ini)
  pid ← lift (recorded_pid trace_lines)
  return none
configure_test test_dir trace_lines syscalls sniplen none (suc trace_line) = do
  s ← self
  testname ← lift (get (text "rr_recording") (text "rr_dir") s.ini)
  pid ← lift (recorded_pid trace_lines)
  code ← configure_line test_dir pid trace_lines sniplen (suc trace_line)
  return (some code)
