-- ===== src/Checker/Xattrs/Correct.antt =====
-- What XattrsCopiedInBulkAutomaton accepts.
use crash_simulator.Base.{
  ◌≡◌, refl, Bool, true, false, not, ◌&&◌, Option, none, some, List, [], ◌∷◌, ◌++◌, arith, ℤ, ℕ,
  ◌+◌, ◌≤◌, if◌then◌else◌, Option-cases, inl, inr,
}
use crash_simulator.Py.{
  Text, text, is_in, ok, raised, for_each, register_is, Result, Value, nil, str, value_eq,
  value_eq_iff,
}
use crash_simulator.Syscall.{Syscall, arg, arg_int}
use crash_simulator.Checker.Trace.{First, First-here, First-cons}
use crash_simulator.Checker.Calls.{is_ok, opened, called_with}
use crash_simulator.Checker.Xattrs.{
  State, Automaton, reading, writing, all_written, init, has_attr, remove, transition, is_accepting,
}

abbrev pub run : Automaton → List Syscall → Result (Unit {0}) × Automaton
run a t = for_each transition t a

abbrev is_value : Value → Result Value → Bool
is_value v (ok w) = value_eq v w
is_value v (raised e) = false

abbrev is_sized : Result Value → Bool
is_sized (ok v) = not (value_eq v (str (text "0x0")))
is_sized (raised e) = false

-- A call with `fgetxattr` in its name reads the attribute `v` from the descriptor `fd`, with a size.
unfoldable pub gets : ℤ → Value → Syscall → Bool
gets fd v c =
    is_in (text "fgetxattr") c.name
    && is_ok (arg_int c 0) fd
    && is_sized (arg c 2)
    && is_value v (arg c 1)

-- A call with `fsetxattr` in its name.
unfoldable pub sets_any : Syscall → Bool
sets_any c = is_in (text "fsetxattr") c.name

-- Such a call of the attribute `v`.
unfoldable pub sets : Value → Syscall → Bool
sets v c = sets_any c && is_value v (arg c 1)

abbrev pub one : Bool → ℕ
one true = 1
one false = 0

-- How many calls set the attribute `v`.
unfoldable pub writes : Value → List Syscall → ℕ
writes v [] = 0
writes v (c ∷ t) = one (sets v c) + writes v t

-- How many calls, up to the first that sets any attribute, get the attribute `v`.
unfoldable pub bulk_reads : ℤ → Value → List Syscall → ℕ
bulk_reads fd v [] = 0
bulk_reads fd v (c ∷ t) =
    let more = bulk_reads fd v t in one (gets fd v c) + (if sets_any c then 0 else more)

-- How often the list has `v`.
unfoldable pub count : Value → List Value → ℕ
count v [] = 0
count v (w ∷ ws) = one (value_eq v w) + count v ws

count-append :
    (v w : Value) (l : List Value) → count v (l ++ w ∷ []) ≡ count v l + one (value_eq v w)
unfolding count
count-append v w [] = ground arith
count-append v w (x ∷ l) = omega (arith, count-append v w l)

value_eq_swap : (u v w : Value) → value_eq u w ≡ true → value_eq v w ≡ value_eq v u
value_eq_swap u v w h = rw (← (value_eq_iff u w).0 h)

-- Striking an attribute takes one of its entries, and none of another's.
count-remove :
    (v w : Value) (l : List Value) → count v l ≤ count v (remove w l) + one (value_eq v w)
unfolding count remove
count-remove v w [] = omega arith
count-remove v w (x ∷ l) = ground (arith, count-remove v w l, value_eq_swap w v x)

abbrev pub at_state : Text → State → Option ℤ → List Value → Automaton
at_state file s fd attrs = record {
  filename = file;
  current_state = s;
  fd_register = fd;
  attrs = attrs;
}

run_all_written :
    (file : Text) (fd : Option ℤ) (l : List Value) (t : List Syscall)
    → run (at_state file all_written fd l) t ≡ (ok tt, at_state file all_written fd l)
unfolding for_each transition
run_all_written file fd l [] = refl
run_all_written file fd l (c ∷ t) = run_all_written file fd l t

abbrev value_or_nil : Result Value → Value
value_or_nil (ok v) = v
value_or_nil (raised e) = nil

-- The list behind a call that sets an attribute.
unfoldable pub struck : List Value → Syscall → List Value
struck l c = let v = value_or_nil (arg c 1) in if sets_any c && has_attr v l then remove v l else l

abbrev pub is_nil : List Value → Bool
is_nil [] = true
is_nil (v ∷ l) = false

pub step_writing :
    (file : Text) (fd : Option ℤ) (l : List Value) (c : Syscall)
    → (transition c (at_state file writing fd l)).0 ≡ ok tt
    → transition c (at_state file writing fd l) ≡ (
      ok tt,
      at_state file
          (if sets_any c && is_nil (struck l c) then all_written else writing)
          fd
          (struck l c),
    )
unfolding transition struck sets_any
step_writing file fd l c h = ground arith

count-struck :
    (file : Text) (fd : Option ℤ) (v : Value) (l : List Value) (c : Syscall)
    → (transition c (at_state file writing fd l)).0 ≡ ok tt
    → count v l ≤ count v (struck l c) + one (sets v c)
unfolding transition struck sets sets_any
count-struck file fd v l c h = ground (arith, count-remove v (value_or_nil (arg c 1)) l)

count-is_nil : (v : Value) (l : List Value) → is_nil l ≡ true → count v l ≡ 0
unfolding count
count-is_nil v [] h = refl
count-is_nil v (w ∷ l) h = cc

run_writing :
    (file : Text) (fd : Option ℤ) (v : Value) (l : List Value) (t : List Syscall)
    → (run (at_state file writing fd l) t).0 ≡ ok tt
    → is_accepting (run (at_state file writing fd l) t).1 ≡ true
    → count v l ≤ writes v t
unfolding for_each is_accepting writes
run_writing file fd v l [] h a = cc
run_writing file fd v l (c ∷ t) h a = ground (
  arith,
  step_writing file fd l c,
  count-struck file fd v l c,
  run_writing file fd v (struck l c) t,
  count-is_nil v (struck l c),
)

-- The list behind a call that gets an attribute.
unfoldable pub collected : ℤ → List Value → Syscall → List Value
collected fd l c =
    if is_in (text "fgetxattr") c.name && is_ok (arg_int c 0) fd && is_sized (arg c 2)
    then l ++ value_or_nil (arg c 1) ∷ []
    else l

pub step_reading :
    (file : Text) (fd : ℤ) (l : List Value) (c : Syscall)
    → (transition c (at_state file reading (some fd) l)).0 ≡ ok tt
    → transition c (at_state file reading (some fd) l) ≡ (
      ok tt,
      at_state file
          (if sets_any c then writing else reading)
          (some fd)
          (struck (collected fd l c) c),
    )
unfolding transition struck sets_any collected register_is
step_reading file fd l c h = ground arith

count-collected :
    (file : Text) (fd : ℤ) (v : Value) (l : List Value) (c : Syscall)
    → (transition c (at_state file reading (some fd) l)).0 ≡ ok tt
    → count v l + one (gets fd v c) ≤ count v (struck (collected fd l c) c) + one (sets v c)
unfolding transition gets sets sets_any collected struck register_is
count-collected file fd v l c h = ground (
  arith,
  count-append v (value_or_nil (arg c 1)) l,
  count-remove v (value_or_nil (arg c 1)) l,
  count-remove v (value_or_nil (arg c 1)) (l ++ value_or_nil (arg c 1) ∷ []),
)

run_reading :
    (file : Text) (fd : ℤ) (v : Value) (l : List Value) (t : List Syscall)
    → (run (at_state file reading (some fd) l) t).0 ≡ ok tt
    → is_accepting (run (at_state file reading (some fd) l) t).1 ≡ true
    → count v l + bulk_reads fd v t ≤ writes v t
unfolding for_each is_accepting writes bulk_reads
run_reading file fd v l [] h a = cc
run_reading file fd v l (c ∷ t) h a = ground (
  arith,
  step_reading file fd l c,
  count-collected file fd v l c,
  run_reading file fd v (struck (collected fd l c) c) t,
  run_writing file (some fd) v (struck (collected fd l c) c) t,
)

step_init :
    (file : Text) (c : Syscall)
    → (transition c (init file)).0 ≡ ok tt
    → transition c (init file) ≡ (
      ok tt,
      elim (opened file c) [ none ↦ init file | some fd ↦ at_state file reading (some fd) [] ],
    )
unfolding transition opened called_with init
step_init file c h = ground arith

-- The first `open` of the file in an accepted trace, and the accepting run behind it.
pub opened-First :
    (file : Text) (t : List Syscall)
    → (run (init file) t).0 ≡ ok tt
    → is_accepting (run (init file) t).1 ≡ true
    → (fd : ℤ) × (rest : List Syscall) × First (opened file) t fd rest
      × ((run (at_state file reading (some fd) []) rest).0 ≡ ok tt)
      × (is_accepting (run (at_state file reading (some fd) []) rest).1 ≡ true)
unfolding for_each
opened-First file [] h a = unfold is_accepting init in cc
opened-First file (c ∷ t) h a = elim (Option-cases (opened file c)) [
  | inl e ↦
      let (fd, rest, f, k, b) =
        opened-First file t (ground (arith, step_init file c)) (ground (arith, step_init file c)) in
      (fd, rest, First-cons (opened file) c e f, k, b)
  | inr (fd, e) ↦ (
    fd,
    t,
    First-here (opened file) c t e,
    ground (arith, step_init file c),
    ground (arith, step_init file c),
  )
]

-- If a run with no exception accepts, then the file was opened, and every attribute is set, by the
-- calls behind the first such `open`, at least as often as it was got from the opened descriptor
-- before anything was set.
pub xattrs_accepts_sound :
    (file : Text) (t : List Syscall)
    → (run (init file) t).0 ≡ ok tt
    → is_accepting (run (init file) t).1 ≡ true
    → (fd : ℤ) × (rest : List Syscall) × First (opened file) t fd rest
      × ((v : Value) → bulk_reads fd v rest ≤ writes v rest)
xattrs_accepts_sound file t h a =
    let (fd, rest, f, k, b) = opened-First file t h a in
    (fd, rest, f, λ v. unfold count in omega (arith, run_reading file fd v [] rest k b))
