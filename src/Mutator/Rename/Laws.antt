-- ===== src/Mutator/Rename/Laws.antt =====
-- Which calls the cross-disk rename mutator changes, and what the checker for it then says.
use crash_simulator.Base.{
  ◌≡◌, refl, ap, Bool, true, false, Option, some, List, [], ◌∷◌, map, arith, if◌then◌else◌, ◌&&◌,
  &&-cases,
}
use crash_simulator.Py.{
  Text, text, same, is_in_refl, Value, str, value_eq, value_eq_iff, value_eq_refl, contains, Result,
  ok, raised,
}
use crash_simulator.Syscall.{Syscall, arg, arg_has}
use crash_simulator.Checker.Trace.{Has, any, any_iff}
use crash_simulator.Checker.Calls.{called_with}
use crash_simulator.Checker.Rename
use crash_simulator.Checker.Rename.Correct.{run, failed_with_exdev, rename_accepts_iff}
use crash_simulator.Mutator.Each.{mutate_each-eq_map, is_given}
use crash_simulator.Mutator.Rename.{fail_exdev, rename_call, mutate}

-- Without a name, or with an empty one, no call is changed, though every rename is an opportunity
-- that `identify_lines` would report.
pub mutate_unnamed :
    (name : Option Text) (t : List Syscall) → is_given name ≡ false → mutate name t ≡ (ok tt, t)
unfolding mutate
mutate_unnamed name [] h = refl
mutate_unnamed name (c ∷ t) h = ground (arith, mutate_unnamed name t h)

has_path : Text → Result Value → Bool
has_path s (ok v) = value_eq v (str s)
has_path s (raised e) = false

-- The calls that a name selects: the renames of exactly this path.
unfoldable pub selects : Text → Syscall → Bool
unfolding has_path
selects s c = same c.name (text "rename") && has_path s (arg c 0)

-- What a name does to one call.
unfoldable pub fail_selected : Text → Syscall → Syscall
fail_selected s c = if selects s c then fail_exdev c else c

rename_call_named :
    (s : Text) (c c' : Syscall)
    → is_given (some s) ≡ true
    → rename_call (some s) c ≡ ok c'
    → c' ≡ fail_selected s c
unfolding rename_call fail_selected selects has_path
rename_call_named s c c' g q = ground arith

-- With a name that is not empty, a mutation that raises nothing gives each rename of exactly this
-- path the return tuple (-1, 'EXDEV'), and leaves every other call as it was.
pub mutate_named :
    (s : Text) (t : List Syscall)
    → is_given (some s) ≡ true
    → (mutate (some s) t).0 ≡ ok tt
    → (mutate (some s) t).1 ≡ map (fail_selected s) t
unfolding mutate
mutate_named s t g h =
    mutate_each-eq_map (rename_call (some s)) (fail_selected s)
      (λ c c' q. rename_call_named s c c' g q) t h

has_path_iff : (s : Text) (r : Result Value) → has_path s r ≡ true → r ≡ ok (str s)
unfolding has_path
has_path_iff s (ok v) h = ap ok ((value_eq_iff v (str s)).0 h)
has_path_iff s (raised e) h = cc

failed_selected :
    (s : Text) (c : Syscall) → selects s c ≡ true → failed_with_exdev s (fail_exdev c) ≡ true
unfolding selects fail_exdev failed_with_exdev called_with arg_has contains
failed_selected s c h =
    let (n, p) = &&-cases (same c.name (text "rename")) (has_path s (arg c 0)) h in
    rw (n, has_path_iff s (arg c 0) p, is_in_refl s, value_eq_refl (str (text "EXDEV"))) refl

selected_fails :
    (s : Text) (c : Syscall) → selects s c ≡ true → failed_with_exdev s (fail_selected s c) ≡ true
unfolding fail_selected
selected_fails s c h = rw h (failed_selected s c h)

any_failed :
    (s : Text) (t : List Syscall)
    → any (selects s) t ≡ true
    → any (failed_with_exdev s) (map (fail_selected s) t) ≡ true
unfolding any
any_failed s [] h = cc
any_failed s (c ∷ t) h = ground (arith, selected_fails s c, any_failed s t)

-- The anomaly and its checker agree: after a mutation that raises nothing, of a trace with a rename
-- of the named path, a run of RenameEXDEVAutomaton for that path that raises nothing accepts.
pub mutated_rename_accepted :
    (s : Text) (t : List Syscall)
    → is_given (some s) ≡ true
    → (mutate (some s) t).0 ≡ ok tt
    → Has (selects s) t
    → (run (Rename.init s) (mutate (some s) t).1).0 ≡ ok tt
    → Rename.is_accepting (run (Rename.init s) (mutate (some s) t).1).1 ≡ true
mutated_rename_accepted s t g h k r = (rename_accepts_iff s (mutate (some s) t).1 r).1 (
    (any_iff (failed_with_exdev s) (mutate (some s) t).1).0
      (rw (mutate_named s t g h) (any_failed s t ((any_iff (selects s) t).1 k))))
