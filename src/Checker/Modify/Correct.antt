-- ===== src/Checker/Modify/Correct.antt =====
-- What DontModifyFileAutomaton accepts.
use crash_simulator.Base.{
  ◌≡◌, refl, Bool, true, false, not, ◌&&◌, ◌||◌, Option, none, List, [], ◌∷◌, ◌++◌, arith, ℤ,
  if◌then◌else◌, ◌≢◌,
}
use crash_simulator.Py.{Text, text, is_in, ok, raised, for_each, register_eq, Result, Value}
use crash_simulator.Syscall.{Syscall, arg, arg_has, ret_int}
use crash_simulator.Checker.Calls.{ok_value, holds}
use crash_simulator.Checker.Modify.{
  Automaton, not_opened, opened_whole, destroyed, init, transition, is_accepting,
}

abbrev pub run : Automaton → List Syscall → Result (Unit {0}) × Automaton
run a t = for_each transition t a

-- A call with `open` in its name, of a path with `file` in it.
unfoldable pub opens : Text → Syscall → Bool
opens file c = is_in (text "open") c.name && holds (arg_has file c 0)

-- Its flags have O_APPEND in them.
unfoldable pub appends : Syscall → Bool
appends c = holds (arg_has (text "O_APPEND") c 1)

-- The descriptor of the file after the call, from the one before it.
unfoldable pub latest : Text → Option ℤ → Syscall → Option ℤ
latest file r c = if opens file c then ok_value (ret_int c) else r

abbrev on_register : Option ℤ → Result Value → Bool
on_register r (ok v) = register_eq r v
on_register r (raised e) = false

-- The call opens the file other than for appending, or its name has `write` and its first argument is the
-- register: the same number, or None where the register is None.
unfoldable pub breaks : Text → Option ℤ → Syscall → Bool
breaks file r c =
    if is_in (text "open") c.name
    then opens file c && not (appends c)
    else is_in (text "write") c.name && on_register r (arg c 0)

-- Some call of the trace does, where the descriptor is that of the latest `open`.
unfoldable pub modifies : Text → Option ℤ → List Syscall → Bool
modifies file r [] = false
modifies file r (c ∷ t) = breaks file r c || modifies file (latest file r c) t

run_destroyed :
    (file : Text) (r : Option ℤ) (t : List Syscall)
    → let a : Automaton = record { filename = file; current_state = destroyed; fd_register = r } in
      run a t ≡ (ok tt, a)
unfolding for_each transition
run_destroyed file r [] = refl
run_destroyed file r (c ∷ t) = run_destroyed file r t

abbrev watching : Text → Option ℤ → Automaton
watching file r = record { filename = file; current_state = not_opened; fd_register = r }

-- The automaton after a call that raises nothing.
abbrev after : Text → Option ℤ → Syscall → Automaton
after file r c = record {
  filename = file;
  current_state = if breaks file r c then destroyed else not_opened;
  fd_register = latest file r c;
}

step :
    (file : Text) (r : Option ℤ) (c : Syscall)
    → (transition c (watching file r)).0 ≡ ok tt
    → transition c (watching file r) ≡ (ok tt, after file r c)
unfolding transition breaks latest opens appends arg_has
step file r c h = ground arith

run-watching :
    (file : Text) (r : Option ℤ) (t : List Syscall)
    → (run (watching file r) t).0 ≡ ok tt
    → is_accepting (run (watching file r) t).1 ≡ not (modifies file r t)
unfolding for_each is_accepting modifies
run-watching file r [] h = refl
run-watching file r (c ∷ t) h = ground (
  arith,
  step file r c,
  run-watching file (latest file r c) t,
  run_destroyed file (latest file r c) t,
)

-- After a run with no exception, the automaton accepts exactly if no call with `open` in its name opens
-- the file without O_APPEND and no call with `write` in its name has, as a number, what the latest `open`
-- of the file before it returned as its first argument (None if there is no `open` before it). A
-- descriptor that is a text is never taken for the number.
pub modify_accepts_eq :
    (file : Text) (t : List Syscall)
    → (run (init file) t).0 ≡ ok tt
    → is_accepting (run (init file) t).1 ≡ not (modifies file none t)
unfolding init
modify_accepts_eq file t h = run-watching file none t h

modifies_of_open :
    (file : Text) (r : Option ℤ) (before : List Syscall) (c : Syscall) (rest : List Syscall)
    → opens file c ≡ true
    → appends c ≡ false
    → modifies file r (before ++ c ∷ rest) ≡ true
unfolding modifies breaks opens
modifies_of_open file r [] c rest o a = ground arith
modifies_of_open file r (d ∷ before) c rest o a =
    ground (arith, modifies_of_open file (latest file r d) before c rest)

-- One `open` of the file without O_APPEND makes the automaton reject, whatever else the call's flags
-- are (O_RDONLY, say) and whatever the other calls do.
pub open_without_append_rejected :
    (file : Text) (before : List Syscall) (c : Syscall) (rest : List Syscall)
    → (run (init file) (before ++ c ∷ rest)).0 ≡ ok tt
    → opens file c ≡ true
    → appends c ≡ false
    → is_accepting (run (init file) (before ++ c ∷ rest)).1 ≡ false
open_without_append_rejected file before c rest h o a =
    rw (modify_accepts_eq file (before ++ c ∷ rest) h, modifies_of_open file none before c rest o a)

step_not_whole :
    (a : Automaton) (c : Syscall)
    → a.current_state ≢ opened_whole
    → (transition c a).1.current_state ≢ opened_whole
unfolding transition
step_not_whole a c h = ground arith

-- No trace, with or without an exception, leads to the state "File has been opened, not truncated".
pub never_opened_whole :
    (a : Automaton) (t : List Syscall)
    → a.current_state ≢ opened_whole
    → (run a t).1.current_state ≢ opened_whole
unfolding for_each
never_opened_whole a [] h = h
never_opened_whole a (c ∷ t) h =
    ground (arith, step_not_whole a c, never_opened_whole (transition c a).1 t)
