-- ===== src/Checker/OpenThen/Correct.antt =====
-- What the two automata accept.
use crash_simulator.Base.{◌≡◌, refl, ◌↔◌, true, Option, some, List, [], ◌∷◌, arith, ℤ}
use crash_simulator.Py.{Text, ok, for_each, register_is, Result}
use crash_simulator.Syscall.{Syscall, ret_int}
use crash_simulator.Checker.Trace.{any, Has, any_iff, first, First, staged, staged_iff}
use crash_simulator.Checker.Calls.{number, opened, called_on}
use crash_simulator.Checker.OpenThen.{
  Automaton, has_been_opened, used, init, transition, is_accepting,
}

module _ (name : Text) where
  abbrev pub run : Automaton → List Syscall → Result (Unit {0}) × Automaton
  run a t = for_each (transition name) t a

  run_used :
      (file : Text) (r : Option ℤ) (t : List Syscall)
      → run (record { filename = file; current_state = used; fd_register = r }) t
        ≡ (ok tt, record { filename = file; current_state = used; fd_register = r })
  unfolding for_each transition
  run_used file r [] = refl
  run_used file r (c ∷ t) = run_used file r t

  run_open :
      (file : Text) (fd : ℤ) (t : List Syscall)
      → let a : Automaton = record {
        filename = file;
        current_state = has_been_opened;
        fd_register = some fd;
      } in
        (run a t).0 ≡ ok tt → is_accepting (run a t).1 ≡ any (called_on name fd) t
  unfolding for_each transition is_accepting any called_on register_is
  run_open file fd [] h = refl
  run_open file fd (c ∷ t) h = ground (arith, run_open file fd t, run_used file (some fd) t)

  -- The verdict of a run that starts before any `open`.
  run_wait :
      (file : Text) (t : List Syscall)
      → (run (init file) t).0 ≡ ok tt
      → is_accepting (run (init file) t).1 ≡ staged (opened file) (λ fd. any (called_on name fd)) t
  unfolding for_each transition is_accepting init staged first opened
  run_wait file [] h = refl
  run_wait file (c ∷ t) h = ground (arith, run_wait file t, run_open file (number (ret_int c)) t)

-- The first `open` of the file whose result is a number, a failure's -1 too, is followed by a call of
-- `name` on that number.
abbrev pub OpenedThen : Text → Text → List Syscall → Type 0
OpenedThen name file t =
    (fd : ℤ) × (rest : List Syscall) × First (opened file) t fd rest × Has (called_on name fd) rest

-- After a run with no exception, the automaton accepts exactly the traces in which the first `open` of
-- the file is followed by the awaited call on the number that it returned, which is -1 for an `open` that
-- failed: a later `open` that succeeds does not count.
pub open_then_accepts_iff :
    (name file : Text) (t : List Syscall)
    → (run name (init file) t).0 ≡ ok tt
    → (is_accepting (run name (init file) t).1 ≡ true) ↔ OpenedThen name file t
open_then_accepts_iff name file t h =
    rw (run_wait name file t h) (staged_iff (opened file) (λ fd. any_iff (called_on name fd)) t)
