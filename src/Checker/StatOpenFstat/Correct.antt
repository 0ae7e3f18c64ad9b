-- ===== src/Checker/StatOpenFstat/Correct.antt =====
-- What StatOpenFstatAutomaton accepts.
use crash_simulator.Base.{
  ◌≡◌, refl, ◌↔◌, true, ◌||◌, Option, none, some, List, [], ◌∷◌, arith, ℤ, if◌then◌else◌,
}
use crash_simulator.Py.{Text, text, ok, for_each, register_is, Result}
use crash_simulator.Syscall.{Syscall, ret_int}
use crash_simulator.Checker.Trace.{any, Has, any_iff, first, First, staged, staged_iff}
use crash_simulator.Checker.Calls.{number, opened, called_on, called_with}
use crash_simulator.Checker.StatOpenFstat.{
  Automaton, not_opened, not_fstated, done, init, transition, is_accepting,
}

abbrev pub run : Automaton → List Syscall → Result (Unit {0}) × Automaton
run a t = for_each transition t a

-- A call of stat64 or lstat64 on a path with `file` in it.
unfoldable pub stated : Text → Syscall → Option (Unit {0})
stated file c =
    if called_with (text "stat64") file 0 c || called_with (text "lstat64") file 0 c
    then some tt
    else none

run_done :
    (file : Text) (r : Option ℤ) (t : List Syscall)
    → run (record { filename = file; current_state = done; fd_register = r }) t
      ≡ (ok tt, record { filename = file; current_state = done; fd_register = r })
unfolding for_each transition
run_done file r [] = refl
run_done file r (c ∷ t) = run_done file r t

run_open :
    (file : Text) (fd : ℤ) (t : List Syscall)
    → let a : Automaton = record {
      filename = file;
      current_state = not_fstated;
      fd_register = some fd;
    } in
      (run a t).0 ≡ ok tt → is_accepting (run a t).1 ≡ any (called_on (text "fstat64") fd) t
unfolding for_each transition is_accepting any called_on register_is
run_open file fd [] h = refl
run_open file fd (c ∷ t) h = ground (arith, run_open file fd t, run_done file (some fd) t)

run_wait :
    (file : Text) (t : List Syscall)
    → let a : Automaton = record {
      filename = file;
      current_state = not_opened;
      fd_register = none;
    } in
      (run a t).0 ≡ ok tt
      → is_accepting (run a t).1
        ≡ staged (opened file) (λ fd. any (called_on (text "fstat64") fd)) t
unfolding for_each transition is_accepting staged first opened
run_wait file [] h = refl
run_wait file (c ∷ t) h = ground (arith, run_wait file t, run_open file (number (ret_int c)) t)

run-init :
    (file : Text) (t : List Syscall)
    → (run (init file) t).0 ≡ ok tt
    → is_accepting (run (init file) t).1
      ≡ staged
          (stated file)
          (λ _. staged (opened file) (λ fd. any (called_on (text "fstat64") fd)))
          t
unfolding for_each transition is_accepting staged first init stated called_with
run-init file [] h = refl
run-init file (c ∷ t) h = ground (arith, run-init file t, run_wait file t)

-- The file is opened, and fstat64 is called on the descriptor of the first such `open`.
abbrev pub OpenedAndFstated : Text → List Syscall → Type 0
OpenedAndFstated file t =
    (fd : ℤ) × (rest : List Syscall) × First (opened file) t fd rest
    × Has (called_on (text "fstat64") fd) rest

-- After a run with no exception, the automaton accepts exactly the traces in which behind the first
-- stat64 or lstat64 of the file comes an `open` of it, and behind the first of these an fstat64 on
-- the descriptor that the `open` returned.
pub stat_open_fstat_accepts_iff :
    (file : Text) (t : List Syscall)
    → (run (init file) t).0 ≡ ok tt
    → (is_accepting (run (init file) t).1 ≡ true) ↔ (
        (u : Unit {0}) × (rest : List Syscall) × First (stated file) t u rest
        × OpenedAndFstated file rest)
stat_open_fstat_accepts_iff file t h = rw (run-init file t h) (
    staged_iff (stated file)
      (λ _. staged_iff (opened file) (λ fd. any_iff (called_on (text "fstat64") fd))) t)
