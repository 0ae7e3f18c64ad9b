-- ===== src/Checker/Urandom/Correct.antt =====
-- What UrandomReadDuringCopyAutomaton accepts.
use crash_simulator.Base.{
  ◌≡◌, refl, ◌↔◌, Bool, true, false, not, ◌&&◌, ◌||◌, Option, none, some, List, [], ◌∷◌, arith, ℤ,
  not-not, if◌then◌else◌, All, ◌⊎◌,
}
use crash_simulator.Py.{
  text, is_in, ok, raised, for_each, register_eq, Result, Value, num, nil, str, list, obj, contains,
  then_try,
}
use crash_simulator.Syscall.{Syscall, arg, arg_has, ret_int}
use crash_simulator.Checker.Trace.{first, First, staged, staged_iff}
use crash_simulator.Checker.Calls.{number, ok_value, holds}
use crash_simulator.Checker.Urandom.{
  State, Automaton, not_read, has_been_read, written, init, transition, is_accepting,
}

abbrev pub run : Automaton → List Syscall → Result (Unit {0}) × Automaton
run a t = for_each transition t a

abbrev beside : Syscall → Option ℤ → Option (ℤ × Syscall)
beside c none = none
beside c (some n) = some (n, c)

-- A call with `open` in its name, of the urandom device, and its descriptor.
unfoldable pub opened_by : Syscall → Option (ℤ × Syscall)
opened_by c =
    if is_in (text "open") c.name && holds (arg_has (text "/dev/urandom") c 0)
    then beside c (ok_value (ret_int c))
    else none

abbrev is_number : ℤ → Result Value → Bool
is_number n (ok v) = register_eq (some n) v
is_number n (raised e) = false

abbrev value_or_nil : Result Value → Value
value_or_nil (ok v) = v
value_or_nil (raised e) = nil

abbrev ok_beside : Syscall → Result Value → Option (Value × Syscall)
ok_beside c (ok v) = some (v, c)
ok_beside c (raised e) = none

-- A call with `read` in its name, whose first argument is the number `fd`.
unfoldable pub reads : ℤ → Syscall → Bool
reads fd c = is_in (text "read") c.name && is_number fd (arg c 0)

-- Such a call, and the data that it read.
unfoldable pub read_by : ℤ → Syscall → Option (Value × Syscall)
unfolding reads
read_by fd c = if reads fd c then ok_beside c (arg c 1) else none

-- The data of the latest read.
unfoldable pub latest : ℤ → Value → Syscall → Value
latest fd buffer c = if reads fd c then value_or_nil (arg c 1) else buffer

-- The call writes data that holds `buffer`.
unfoldable pub writes : Value → Syscall → Bool
writes buffer c = is_in (text "write") c.name && holds (then_try (arg c 1) (λ v. contains buffer v))

-- Some call writes the data of the latest read before it.
unfoldable pub leaks : ℤ → Value → List Syscall → Bool
leaks fd buffer [] = false
leaks fd buffer (c ∷ t) = writes (latest fd buffer c) c || leaks fd (latest fd buffer c) t

abbrev pub at_state : State → Value → Option ℤ → Automaton
at_state s buffer fd = record { current_state = s; data_register = buffer; urandom_fd = fd }

run-written :
    (buffer : Value) (fd : Option ℤ) (t : List Syscall)
    → run (at_state written buffer fd) t ≡ (ok tt, at_state written buffer fd)
unfolding for_each transition
run-written buffer fd [] = refl
run-written buffer fd (c ∷ t) = run-written buffer fd t

step_read :
    (fd : ℤ) (buffer : Value) (c : Syscall)
    → (transition c (at_state has_been_read buffer (some fd))).0 ≡ ok tt
    → transition c (at_state has_been_read buffer (some fd)) ≡ (
      ok tt,
      at_state
          (if writes (latest fd buffer c) c then written else has_been_read)
          (latest fd buffer c)
          (some fd),
    )
unfolding transition writes latest reads
step_read fd buffer c h = ground arith

run_read :
    (fd : ℤ) (buffer : Value) (t : List Syscall)
    → (run (at_state has_been_read buffer (some fd)) t).0 ≡ ok tt
    → is_accepting (run (at_state has_been_read buffer (some fd)) t).1 ≡ not (leaks fd buffer t)
unfolding for_each is_accepting leaks
run_read fd buffer [] h = refl
run_read fd buffer (c ∷ t) h = ground (
  arith,
  step_read fd buffer c,
  run_read fd (latest fd buffer c) t,
  run-written (latest fd buffer c) (some fd) t,
)

step_not_read :
    (fd : ℤ) (c : Syscall)
    → (transition c (at_state not_read nil (some fd))).0 ≡ ok tt
    → transition c (at_state not_read nil (some fd)) ≡ elim (read_by fd c) [
      | none ↦ (ok tt, at_state not_read nil (some fd))
      | some (v, _) ↦ transition c (at_state has_been_read v (some fd))
    ]
unfolding transition read_by
step_not_read fd c h = ground arith

run_not_read :
    (fd : ℤ) (t : List Syscall)
    → (run (at_state not_read nil (some fd)) t).0 ≡ ok tt
    → is_accepting (run (at_state not_read nil (some fd)) t).1
      ≡ not (staged (read_by fd) (λ p rest. leaks fd p.0 (p.1 ∷ rest)) t)
unfolding for_each is_accepting staged first
run_not_read fd [] h = refl
run_not_read fd (c ∷ t) h = ground (
  arith,
  step_not_read fd c,
  run_not_read fd t,
  read_by_self fd c,
  run_read fd (value_or_nil (arg c 1)) (c ∷ t),
)
  where
    read_by_self :
        (d : ℤ) (x : Syscall)
        → (read_by d x ≡ none) ⊎ (read_by d x ≡ some (value_or_nil (arg x 1), x))
    read_by_self d x = unfold read_by in ground arith

step_init :
    (c : Syscall)
    → (transition c init).0 ≡ ok tt
    → transition c init ≡ elim (opened_by c) [
      | none ↦ (ok tt, init)
      | some (fd, _) ↦ transition c (at_state not_read nil (some fd))
    ]
unfolding transition opened_by init
step_init c h = ground arith

opened_by_self : (c : Syscall) → (opened_by c ≡ none) ⊎ (opened_by c ≡ some (number (ret_int c), c))
unfolding opened_by
opened_by_self c = ground arith

run-init :
    (t : List Syscall)
    → (run init t).0 ≡ ok tt
    → is_accepting (run init t).1
      ≡ not (
          staged opened_by
            (λ p rest. staged (read_by p.0) (λ q rest'. leaks p.0 q.0 (q.1 ∷ rest')) (p.1 ∷ rest))
            t)
unfolding for_each is_accepting staged first init
run-init [] h = refl
run-init (c ∷ t) h =
    ground
      (arith, step_init c, run-init t, opened_by_self c, run_not_read (number (ret_int c)) (c ∷ t))

-- At or behind the first read of the descriptor, the data of the latest read is written.
abbrev pub ReadAndLeaked : ℤ → List Syscall → Type 0
ReadAndLeaked fd t =
    (p : Value × Syscall) × (rest : List Syscall) × First (read_by fd) t p rest
    × (leaks fd p.0 (p.1 ∷ rest) ≡ true)

-- After a run with no exception, the automaton rejects exactly the traces in which there is a call with
-- `open` in its name on a path with /dev/urandom in it, and at or behind the first of these, whatever it
-- returns, a call with `read` in its name whose first argument is what that `open` returned, as a
-- number, and at or behind the first of these some data that the latest such read gave is in the data of
-- a write. A later `open` of the device does not count.
pub urandom_rejects_iff :
    (t : List Syscall)
    → (run init t).0 ≡ ok tt
    → (not (is_accepting (run init t).1) ≡ true) ↔ (
        (p : ℤ × Syscall) × (rest : List Syscall) × First opened_by t p rest
        × ReadAndLeaked p.0 (p.1 ∷ rest))
urandom_rejects_iff t h =
    rw (run-init t h, not-not)
      (staged_iff opened_by
        (λ p rest. staged_iff (read_by p.0) (λ q rest'. (λ e. e, λ e. e)) (p.1 ∷ rest)) t)

abbrev pub is_text : Result Value → Bool
is_text (ok (str s)) = true
is_text (ok v) = false
is_text (raised e) = true

abbrev has_read : State → Bool
has_read has_been_read = true
has_read written = true
has_read _ = false

register_ne_text : (r : Option ℤ) (v : Value) → is_text (ok v) ≡ true → register_eq r v ≡ false
unfolding register_eq
register_ne_text none (str s) h = refl
register_ne_text (some n) (str s) h = refl
register_ne_text r nil h = cc
register_ne_text r (num n) h = cc
register_ne_text r (list x) h = cc
register_ne_text r (obj x) h = cc

step_text :
    (a : Automaton) (c : Syscall)
    → is_text (arg c 0) ≡ true
    → has_read a.current_state ≡ false
    → has_read (transition c a).1.current_state ≡ false
unfolding transition
step_text a c f h = ground (
  arith,
  register_ne_text a.urandom_fd (value_or_nil (arg c 0)),
  register_ne_text (some (number (ret_int c))) (value_or_nil (arg c 0)),
)

run_text :
    (a : Automaton) (t : List Syscall)
    → All (λ c. is_text (arg c 0) ≡ true) t
    → has_read a.current_state ≡ false
    → has_read (run a t).1.current_state ≡ false
unfolding for_each
run_text a [] f h = h
run_text a (c ∷ t) f h = ground (arith, step_text a c f.0 h, run_text (transition c a).1 t f.1)

-- If the first argument of every call is a text, as the descriptors in a trace file are, then the
-- automaton accepts, whatever the trace copies: it compares its descriptor, a number, with the text.
pub accepts_text :
    (t : List Syscall) → All (λ c. is_text (arg c 0) ≡ true) t → is_accepting (run init t).1 ≡ true
unfolding is_accepting
accepts_text t f = ground (arith, run_text init t f (unfold init in refl))
