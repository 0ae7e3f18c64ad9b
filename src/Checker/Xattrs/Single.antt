-- ===== src/Checker/Xattrs/Single.antt =====
-- XattrsCopiedInBulkAutomaton on a trace with one call that sets an attribute
use crash_simulator.Base.{
  ◌≡◌, true, false, Option, some, List, [], ◌∷◌, ◌++◌, arith, ℤ, ℕ, ◌+◌, ◌≤◌, ◌<◌, Bool-cases, ap,
  ◌∙◌, inl, inr,
}
use crash_simulator.Py.{Text, ok, for_each, Value}
use crash_simulator.Syscall.{Syscall}
use crash_simulator.Checker.Trace.{First}
use crash_simulator.Checker.Calls.{opened}
use crash_simulator.Checker.Xattrs.{reading, writing, init, is_accepting}
use crash_simulator.Checker.Xattrs.Correct.{
  run, one, sets_any, at_state, struck, collected, step_writing, step_reading, opened-First,
}

-- How many calls set an attribute.
unfoldable pub set_calls : List Syscall → ℕ
set_calls [] = 0
set_calls (c ∷ t) = one (sets_any c) + set_calls t

writing_sets :
    (file : Text) (fd : Option ℤ) (l : List Value) (t : List Syscall)
    → (run (at_state file writing fd l) t).0 ≡ ok tt
    → is_accepting (run (at_state file writing fd l) t).1 ≡ true
    → 1 ≤ set_calls t
unfolding for_each is_accepting set_calls
writing_sets file fd l [] h a = cc
writing_sets file fd l (c ∷ t) h a =
    ground (arith, step_writing file fd l c, writing_sets file fd (struck l c) t)

reading_sets :
    (file : Text) (fd : ℤ) (l : List Value) (t : List Syscall)
    → (run (at_state file reading (some fd) l) t).0 ≡ ok tt
    → is_accepting (run (at_state file reading (some fd) l) t).1 ≡ true
    → 2 ≤ set_calls t
unfolding for_each is_accepting set_calls
reading_sets file fd l [] h a = cc
reading_sets file fd l (c ∷ t) h a = ground (
  arith,
  step_reading file fd l c,
  reading_sets file fd (struck (collected fd l c) c) t,
  writing_sets file (some fd) (struck (collected fd l c) c) t,
)

set_calls-append : (s t : List Syscall) → set_calls (s ++ t) ≡ set_calls s + set_calls t
unfolding set_calls
set_calls-append [] t = omega arith
set_calls-append (c ∷ s) t = omega (arith, set_calls-append s t)

-- A run with no exception over a trace with fewer than two calls that set an attribute never accepts,
-- so the copy of a file with one attribute, by one call, is rejected.
pub one_set_rejected :
    (file : Text) (t : List Syscall)
    → (run (init file) t).0 ≡ ok tt
    → set_calls t < 2
    → is_accepting (run (init file) t).1 ≡ false
one_set_rejected file t h few = elim (Bool-cases (is_accepting (run (init file) t).1)) [
  | inr e ↦ e
  | inl e ↦
      let (fd, rest, f, k, b) = opened-First file t h e in
      absurd (too_few f (reading_sets file fd [] rest k b))
]
  where
    too_few :
        {fd : ℤ} {rest : List Syscall} → First (opened file) t fd rest → 2 ≤ set_calls rest → ⊥
    too_few {fd} {rest} f two =
        let e : set_calls t ≡ set_calls f.before + set_calls (f.hit ∷ rest) =
          ap set_calls f.split ∙ set_calls-append f.before (f.hit ∷ rest) in
        unfold set_calls in omega arith
