-- ===== src/Checker/DontRead/Correct.antt =====
-- What DontReadFileAfterStatChecker accepts.
use crash_simulator.Base.{
  ◌≡◌, refl, ◌↔◌, Bool, true, false, not, ◌&&◌, Option, none, some, List, [], ◌∷◌, arith, ℤ, pos,
  if◌then◌else◌, not-not,
}
use crash_simulator.Py.{Text, text, is_in, ok, raised, for_each, register_eq, Result, Value}
use crash_simulator.Syscall.{Syscall, arg, arg_has, ret_int}
use crash_simulator.Checker.Trace.{any, Has, any_iff, first, First, staged, staged_iff}
use crash_simulator.Checker.Calls.{number, ok_value, holds}
use crash_simulator.Checker.DontRead.{
  State, Automaton, not_opened, not_read, has_been_read, init, transition, is_accepting,
}

abbrev pub run : Automaton → List Syscall → Result (Unit {0}) × Automaton
run a t = for_each transition t a

-- A call with `stat64` in its name, of a path with `file` in it.
unfoldable pub stated : Text → Syscall → Option Syscall
stated file c = if is_in (text "stat64") c.name && holds (arg_has file c 0) then some c else none

abbrev beside : Syscall → Option ℤ → Option (ℤ × Syscall)
beside c none = none
beside c (some n) = some (n, c)

-- A call with `open` in its name, of such a path, and its descriptor.
unfoldable pub opened_by : Text → Syscall → Option (ℤ × Syscall)
opened_by file c =
    if is_in (text "open") c.name && holds (arg_has file c 0)
    then beside c (ok_value (ret_int c))
    else none

abbrev is_number : ℤ → Result Value → Bool
is_number n (ok v) = register_eq (some n) v
is_number n (raised e) = false

-- A call with `read` in its name, whose first argument is the number `fd`.
unfoldable pub reads : ℤ → Syscall → Bool
reads fd c = is_in (text "read") c.name && is_number fd (arg c 0)

module _ (file : Text) where
  abbrev at_state : State → ℤ → Automaton
  at_state s fd = record { filename = file; current_state = s; fd_register = fd }

  run_was_read :
      (fd : ℤ) (t : List Syscall)
      → run (at_state has_been_read fd) t ≡ (ok tt, at_state has_been_read fd)
  unfolding for_each transition
  run_was_read fd [] = refl
  run_was_read fd (c ∷ t) = run_was_read fd t

  run_not_read :
      (fd : ℤ) (t : List Syscall)
      → (run (at_state not_read fd) t).0 ≡ ok tt
      → is_accepting (run (at_state not_read fd) t).1 ≡ not (any (reads fd) t)
  unfolding for_each transition is_accepting any reads
  run_not_read fd [] h = refl
  run_not_read fd (c ∷ t) h = ground (arith, run_not_read fd t, run_was_read fd t)

  run_not_opened :
      (fd : ℤ) (t : List Syscall)
      → (run (at_state not_opened fd) t).0 ≡ ok tt
      → is_accepting (run (at_state not_opened fd) t).1
        ≡ not (staged (opened_by file) (λ p rest. any (reads p.0) (p.1 ∷ rest)) t)
  unfolding for_each transition is_accepting any reads staged first opened_by
  run_not_opened fd [] h = refl
  run_not_opened fd (c ∷ t) h = ground (
    arith,
    run_not_opened fd t,
    run_not_read (number (ret_int c)) t,
    run_was_read (number (ret_int c)) t,
  )

  -- Behind or at the first `open` of the file comes a read of its descriptor.
  abbrev pub OpenedAndRead : List Syscall → Type 0
  OpenedAndRead t =
      (p : ℤ × Syscall) × (rest : List Syscall) × First (opened_by file) t p rest
      × Has (reads p.0) (p.1 ∷ rest)

  step_init :
      (c : Syscall)
      → (transition c (init file)).0 ≡ ok tt
      → transition c (init file) ≡ elim (stated file c) [
        | none ↦ (ok tt, init file)
        | some _ ↦ transition c (at_state not_opened (pos 0))
      ]
  unfolding transition stated init
  step_init c h = ground arith

  run-init :
      (t : List Syscall)
      → (run (init file) t).0 ≡ ok tt
      → is_accepting (run (init file) t).1
        ≡ not (
            staged
              (stated file)
              (λ c rest.
                staged (opened_by file) (λ p rest. any (reads p.0) (p.1 ∷ rest)) (c ∷ rest))
              t)
  unfolding for_each is_accepting staged first stated init
  run-init [] h = refl
  run-init (c ∷ t) h = ground (arith, step_init c, run-init t, run_not_opened (pos 0) (c ∷ t))

  -- After a run with no exception, the checker rejects exactly the traces in which at or behind the
  -- first call with stat64 in its name (that of lstat64 too) on the file comes a call with `open`
  -- in its name on the file, and at or behind the first of these a call with `read` in its name whose
  -- first argument is what that `open` returned, as a number.
  pub dont_read_rejects_iff :
      (t : List Syscall)
      → (run (init file) t).0 ≡ ok tt
      → (not (is_accepting (run (init file) t).1) ≡ true) ↔ (
          (c : Syscall) × (rest : List Syscall) × First (stated file) t c rest
          × OpenedAndRead (c ∷ rest))
  dont_read_rejects_iff t h =
      rw (run-init t h, not-not)
        (staged_iff (stated file)
          (λ c rest.
            staged_iff (opened_by file) (λ p rest. any_iff (reads p.0) (p.1 ∷ rest)) (c ∷ rest))
          t)
