-- ===== src/Checker/Rename/Correct.antt =====
-- What RenameEXDEVAutomaton accepts.
use crash_simulator.Base.{◌≡◌, refl, ◌↔◌, Bool, true, ◌&&◌, List, [], ◌∷◌, arith}
use crash_simulator.Py.{Text, text, ok, for_each, Result, str, value_eq}
use crash_simulator.Syscall.{Syscall}
use crash_simulator.Checker.Trace.{any, Has, any_iff}
use crash_simulator.Checker.Calls.{called_with}
use crash_simulator.Checker.Rename.{Automaton, got_exdev, init, transition, is_accepting}

abbrev pub run : Automaton → List Syscall → Result (Unit {0}) × Automaton
run a t = for_each transition t a

-- A rename of a path with `file` in it that failed with EXDEV.
unfoldable pub failed_with_exdev : Text → Syscall → Bool
failed_with_exdev file c =
    called_with (text "rename") file 0 c && value_eq c.ret_label (str (text "EXDEV"))

run_got :
    (file : Text) (t : List Syscall)
    → let a : Automaton = record { filename = file; current_state = got_exdev } in
      run a t ≡ (ok tt, a)
unfolding for_each transition
run_got file [] = refl
run_got file (c ∷ t) = run_got file t

run-init :
    (file : Text) (t : List Syscall)
    → (run (init file) t).0 ≡ ok tt
    → is_accepting (run (init file) t).1 ≡ any (failed_with_exdev file) t
unfolding for_each transition is_accepting any init failed_with_exdev called_with
run-init file [] h = refl
run-init file (c ∷ t) h = ground (arith, run-init file t, run_got file t)

-- After a run with no exception, the automaton accepts exactly the traces with a rename of the file
-- that failed with EXDEV.
pub rename_accepts_iff :
    (file : Text) (t : List Syscall)
    → (run (init file) t).0 ≡ ok tt
    → (is_accepting (run (init file) t).1 ≡ true) ↔ Has (failed_with_exdev file) t
rename_accepts_iff file t h = rw (run-init file t h) (any_iff (failed_with_exdev file) t)
