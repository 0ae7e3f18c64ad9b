-- ===== src/Checker/AtLeastOnce/Correct.antt =====
-- What AtLeastOnceWithArgAutomaton accepts.
use crash_simulator.Base.{◌≡◌, refl, ◌↔◌, Bool, true, ◌&&◌, List, [], ◌∷◌, arith, ℕ}
use crash_simulator.Py.{Text, is_in, ok, for_each, Result}
use crash_simulator.Syscall.{Syscall, arg_has}
use crash_simulator.Checker.Trace.{any, Has, any_iff}
use crash_simulator.Checker.Calls.{holds}
use crash_simulator.Checker.AtLeastOnce.{Automaton, called, init, transition, is_accepting}

abbrev pub run : Automaton → List Syscall → Result (Unit {0}) × Automaton
run a t = for_each transition t a

-- A call whose name has `name` in it, with `value` in its argument `i`.
unfoldable pub calls_with : Text → Text → ℕ → Syscall → Bool
calls_with name value i c = is_in name c.name && holds (arg_has value c i)

module _ (name value : Text) (i : ℕ) where
  run_called :
      (t : List Syscall)
      → let a : Automaton = record {
        name = name;
        value = value;
        position = i;
        current_state = called;
      } in
        run a t ≡ (ok tt, a)
  unfolding for_each transition
  run_called [] = refl
  run_called (c ∷ t) = run_called t

  -- The verdict as a test on the trace.
  pub at_least_once_accepts_eq :
      (t : List Syscall)
      → (run (init name value i) t).0 ≡ ok tt
      → is_accepting (run (init name value i) t).1 ≡ any (calls_with name value i) t
  unfolding for_each transition is_accepting any init calls_with
  at_least_once_accepts_eq [] h = refl
  at_least_once_accepts_eq (c ∷ t) h = ground (arith, at_least_once_accepts_eq t, run_called t)

  -- After a run with no exception, the automaton accepts exactly the traces with a call that has the
  -- name in its name and the value in its argument.
  pub at_least_once_accepts_iff :
      (t : List Syscall)
      → (run (init name value i) t).0 ≡ ok tt
      → (is_accepting (run (init name value i) t).1 ≡ true) ↔ Has (calls_with name value i) t
  at_least_once_accepts_iff t h =
      rw (at_least_once_accepts_eq t h) (any_iff (calls_with name value i) t)
