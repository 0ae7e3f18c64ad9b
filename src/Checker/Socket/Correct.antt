-- ===== src/Checker/Socket/Correct.antt =====
-- What SocketConnectedAndReadChecker accepts.
use crash_simulator.Base.{
  ◌≡◌, refl, ◌↔◌, Bool, true, false, ◌&&◌, ◌||◌, Option, none, some, List, [], ◌∷◌, ◌++◌, arith, ℤ,
  pos, ◌+ℤ◌, +ℤ_zero, leb_ℤ, eq_ℤ, if◌then◌else◌, ap, Bool-cases, inl, inr, ◌⊎◌,
}
use crash_simulator.Py.{Text, text, is_in, ok, raised, for_each, Result, Value, value_eq, then_try}
use crash_simulator.Syscall.{Syscall, arg, arg_int, ret_int}
use crash_simulator.Checker.Trace.{first, First, staged, staged_iff}
use crash_simulator.Checker.Calls.{number, ok_value}
use crash_simulator.Checker.Socket.{
  State, Automaton, reading, all_read, init, index, member, transition, is_accepting,
}

abbrev passes : (Value → Bool) → Result Value → Bool
passes p (ok v) = p v
passes p (raised e) = false

abbrev is_number : ℤ → Result ℤ → Bool
is_number fd (ok n) = eq_ℤ n fd
is_number fd (raised e) = false

abbrev beside : Syscall → Option ℤ → Option (ℤ × Syscall)
beside c none = none
beside c (some n) = some (n, c)

-- A call with `read` in its name.
unfoldable pub is_read : Syscall → Bool
is_read c = is_in (text "read") c.name

-- What the call adds to the data of the socket `fd`.
unfoldable pub received : ℤ → Syscall → ℤ
received fd c = if is_read c && is_number fd (arg_int c 0) then number (ret_int c) else pos 0

-- The data of the socket behind the calls, from the data before them.
unfoldable pub total : ℤ → ℤ → List Syscall → ℤ
total fd n [] = n
total fd n (c ∷ t) = total fd (n +ℤ received fd c) t

-- At the end of some read, of any descriptor, the socket has given `wanted` or more.
pub record Filled (wanted fd n : ℤ) (t : List Syscall) : Type 0 where
  pub before : List Syscall
  pub hit : Syscall
  pub rest : List Syscall
  pub split : t ≡ before ++ hit ∷ rest
  pub reads : is_read hit ≡ true
  pub enough : leb_ℤ wanted (total fd n (before ++ hit ∷ [])) ≡ true

unfoldable pub filled : ℤ → ℤ → ℤ → List Syscall → Bool
filled wanted fd n [] = false
filled wanted fd n (c ∷ t) =
    (is_read c && leb_ℤ wanted (n +ℤ received fd c)) || filled wanted fd (n +ℤ received fd c) t

module _ (wanted fd : ℤ) where
  Filled-cons :
      (n : ℤ) (c : Syscall) (t : List Syscall)
      → Filled wanted fd (n +ℤ received fd c) t
      → Filled wanted fd n (c ∷ t)
  unfolding total
  Filled-cons n c t k = record {
    before = c ∷ k.before;
    hit = k.hit;
    rest = k.rest;
    split = ap (λ s. c ∷ s) k.split;
    reads = k.reads;
    enough = k.enough;
  }

  filled_sound : (n : ℤ) (t : List Syscall) → filled wanted fd n t ≡ true → Filled wanted fd n t
  unfolding filled total
  filled_sound n [] h = cc
  filled_sound n (c ∷ t) h = elim (Bool-cases (is_read c && leb_ℤ wanted (n +ℤ received fd c))) [
    | inl e ↦ record {
      before = [];
      hit = c;
      rest = t;
      split = refl;
      reads = ground arith;
      enough = ground arith;
    }
    | inr e ↦ Filled-cons n c t (filled_sound (n +ℤ received fd c) t (ground arith))
  ]

  filled_at :
      (n : ℤ) (before : List Syscall) (c : Syscall) (rest : List Syscall)
      → is_read c ≡ true
      → leb_ℤ wanted (total fd n (before ++ c ∷ [])) ≡ true
      → filled wanted fd n (before ++ c ∷ rest) ≡ true
  unfolding filled total
  filled_at n [] c rest r e = ground arith
  filled_at n (d ∷ before) c rest r e =
      ground (arith, filled_at (n +ℤ received fd d) before c rest r e)

  filled_iff : (n : ℤ) (t : List Syscall) → (filled wanted fd n t ≡ true) ↔ Filled wanted fd n t
  filled_iff n t =
      (filled_sound n t, λ k. rw k.split (filled_at n k.before k.hit k.rest k.reads k.enough))

module _ (show : Value → Text) (addr : Text) (port : Value) where
  -- A call with `connect` in its name, to an internet address and the port, and its descriptor.
  unfoldable pub connected : Syscall → Option (ℤ × Syscall)
  connected c =
      if is_in (text "connect") c.name
        && passes (λ f. is_in (text "INET") (show f)) (then_try (arg c 1) (λ a. index a 0))
        && passes (λ v. is_in addr (show v)) (then_try (arg c 1) (λ a. member a 2))
        && passes (value_eq port) (then_try (arg c 1) (λ a. member a 1))
      then beside c (ok_value (arg_int c 0))
      else none

  module _ (wanted : ℤ) where
    abbrev at_state : State → ℤ → ℤ → Automaton
    at_state s n fd = record {
      addr = addr;
      port = port;
      data_length = wanted;
      data_length_register = n;
      sockfd_register = fd;
      current_state = s;
    }

    abbrev pub run : Automaton → List Syscall → Result (Unit {0}) × Automaton
    run a t = for_each (transition show) t a

    run_all_read :
        (n fd : ℤ) (t : List Syscall)
        → run (at_state all_read n fd) t ≡ (ok tt, at_state all_read n fd)
    unfolding for_each transition
    run_all_read n fd [] = refl
    run_all_read n fd (c ∷ t) = run_all_read n fd t

    step_reading :
        (n fd : ℤ) (c : Syscall)
        → (transition show c (at_state reading n fd)).0 ≡ ok tt
        → transition show c (at_state reading n fd) ≡ (
          ok tt,
          at_state
              (if is_read c && leb_ℤ wanted (n +ℤ received fd c) then all_read else reading)
              (n +ℤ received fd c)
              fd,
        )
    unfolding transition received is_read
    step_reading n fd c h = ground (arith, +ℤ_zero n)

    run_reading :
        (n fd : ℤ) (t : List Syscall)
        → (run (at_state reading n fd) t).0 ≡ ok tt
        → is_accepting (run (at_state reading n fd) t).1 ≡ filled wanted fd n t
    unfolding for_each is_accepting filled
    run_reading n fd [] h = refl
    run_reading n fd (c ∷ t) h = ground (
      arith,
      step_reading n fd c,
      run_reading (n +ℤ received fd c) fd t,
      run_all_read (n +ℤ received fd c) fd t,
    )

    step_init :
        (c : Syscall)
        → (transition show c (init addr port wanted)).0 ≡ ok tt
        → transition show c (init addr port wanted) ≡ elim (connected c) [
          | none ↦ (ok tt, init addr port wanted)
          | some (fd, _) ↦ transition show c (at_state reading (pos 0) fd)
        ]
    unfolding transition connected init
    step_init c h = ground arith

    connected_self :
        (c : Syscall) → (connected c ≡ none) ⊎ (connected c ≡ some (number (arg_int c 0), c))
    unfolding connected
    connected_self c = ground arith

    run-init :
        (t : List Syscall)
        → (run (init addr port wanted) t).0 ≡ ok tt
        → is_accepting (run (init addr port wanted) t).1
          ≡ staged connected (λ p rest. filled wanted p.0 (pos 0) (p.1 ∷ rest)) t
    unfolding for_each is_accepting staged first init
    run-init [] h = refl
    run-init (c ∷ t) h = ground (
      arith,
      step_init c,
      run-init t,
      connected_self c,
      run_reading (pos 0) (number (arg_int c 0)) (c ∷ t),
    )

    -- After a run with no exception, the checker accepts exactly the traces in which, at or behind the
    -- first matching `connect`, some read call comes at whose end the reads of the connected socket
    -- have returned `wanted` or more in total. An amount equal to `wanted` is enough.
    pub socket_accepts_iff :
        (t : List Syscall)
        → (run (init addr port wanted) t).0 ≡ ok tt
        → (is_accepting (run (init addr port wanted) t).1 ≡ true) ↔ (
            (p : ℤ × Syscall) × (rest : List Syscall) × First connected t p rest
            × Filled wanted p.0 (pos 0) (p.1 ∷ rest))
    socket_accepts_iff t h =
        rw (run-init t h)
          (staged_iff connected (λ p rest. filled_iff wanted p.0 (pos 0) (p.1 ∷ rest)) t)
