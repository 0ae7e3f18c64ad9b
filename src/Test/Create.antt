-- ===== src/Test/Create.antt =====
-- src/rrtest.py: find_first_execve and create_test
pub mod Trimmed
use crash_simulator.Base.{
  ℕ, zero, suc, ◌-◌, Bool, true, false, not, ◌&&◌, Option, none, some, List, [], ◌∷◌, ◌++◌, ℤ, pos,
  eq_ℤ, take, length, if◌then◌else◌,
}
use crash_simulator.Py.{
  Text, text, is_in, show_ℕ, Result, ok, raised, index_error, then_try, Py, ◌>>=◌, ◌>>◌, self, put,
  lift, return, when,
}
use crash_simulator.Test.Ini.{Ini, add_section, set}
use crash_simulator.Test.Configure.{numbered, blanks}

-- The number of the first line with `execve` in it.
unfoldable pub find_first_execve : List Text → Option ℕ
unfolding text
find_first_execve [] = none
find_first_execve (content ∷ lines) =
    let rest = find_first_execve lines in
    if is_in (text "execve") content
    then some 0
    else elim rest [ none ↦ none | some n ↦ some (suc n) ]

-- The directory of a test: if it is there, the lines of strace_out.strace, and config.ini.
pub record Store : Type 0 where
  pub is_there : Bool
  pub trace : Option (List Text)
  pub saved : Option Ini

-- lines[-1] = lines[-1][:-1]
unfoldable pub cut_newline : List Text → Result (List Text)
cut_newline [] = raised index_error
cut_newline (l ∷ []) = ok (take (length l - 1) l ∷ [])
cut_newline (l ∷ m ∷ ls) = let rest = cut_newline (m ∷ ls) in then_try rest (λ cut. ok (l ∷ cut))

-- The exit call and its counter are dropped, and the newline before them.
unfoldable pub trim : List Text → Result (List Text)
unfolding cut_newline
trim lines = cut_newline (take (length lines - 2) lines)

-- config.ini with its one section.
unfoldable pub first_config : Text → Result Ini
unfolding text
first_config test_dir =
    then_try (add_section (text "rr_recording") [])
      (set (text "rr_recording") (text "rr_dir", test_dir))

-- re.sub(r'^[0-9]+\s+', '', line)
unfoldable pub without_pid : Text → Text
unfolding numbered blanks
without_pid line = elim (numbered line) [
  | none ↦ line
  | some s ↦ elim (blanks s) [ none ↦ line | some t ↦ t ]
]

-- The loop that prints the trace ends at a line of which nothing is left.
unfoldable pub listing : ℕ → List Text → List Text
unfolding without_pid text
listing lineno [] = []
listing lineno (line ∷ lines) =
    let rest = listing (suc lineno) lines in
    elim (without_pid line) [
      | [] ↦ []
      | c ∷ s ↦ (text "LINE " ++ show_ℕ (suc lineno) ++ text ": " ++ c ∷ s) ∷ rest
    ]

abbrev leave : Option (List Text) → Option Ini → Py Store (Unit {0})
leave trace saved = put (record { is_there = true; trace = trace; saved = saved })

-- What follows `rr record`.
unfoldable pub copy_trace : Text → List Text → Py Store (ℕ × List Text)
unfolding trim first_config listing
copy_trace test_dir recorded = do
  leave (some recorded) none
  lines ← lift (trim recorded)
  leave (some lines) none
  config ← lift (first_config test_dir)
  leave (some lines) (some config)
  return (1, listing 0 lines)

-- `status` is the exit status of `rr record`, and `recorded` the trace that rr wrote. The result is
-- that of create_test and what it lists.
unfoldable pub create_test : Text → Bool → ℤ → List Text → Py Store (ℕ × List Text)
unfolding copy_trace
create_test test_dir force status recorded s =
    if s.is_there && not force
    then (ok (0, []), s)
    else if not (eq_ℤ status (pos 0))
    then (leave none none >> return (0, [])) s
    else (leave none none >> copy_trace test_dir recorded) s
