-- ===== src/Tests/Mutators.antt =====
-- Runs of the mutators of src/mutator/, and of the checkers that combine automata.
use crash_simulator.Base.{◌≡◌, refl, ◌↔◌, true, not, ◌&&◌, none, some, List, [], ◌∷◌, pos, eq_ℤ}
use crash_simulator.Py.{
  text, same, is_in, starts_with, contains, int, parse_int, value_eq, register_is, for_each,
}
use crash_simulator.Syscall.{Syscall, arg, arg_has, arg_int, ret_int}
use crash_simulator.Checker.Trace.{Has, any}
use crash_simulator.Checker.AtLeastOnce
use crash_simulator.Checker.AtLeastOnce.Correct.{calls_with}
use crash_simulator.Checker.Modify
use crash_simulator.Checker.Modify.Correct.{modifies}
use crash_simulator.Checker.OpenThen
use crash_simulator.Checker.OpenThen.Correct.{OpenedThen}
use crash_simulator.Checker.Rename as RenameChecker
use crash_simulator.Checker.Classes.{copy_symlink_over_target, copy_timestamps_during_copy, analyze}
use crash_simulator.Checker.Classes.Correct.{copy_symlink_verdict, copy_timestamps_verdict}
use crash_simulator.Mutator.Each.{mutate_each}
use crash_simulator.Mutator.Rename
use crash_simulator.Mutator.Rename.{rename_call, fail_exdev}
use crash_simulator.Mutator.Rename.Laws.{selects, mutated_rename_accepted}
use crash_simulator.Tests.Data.{call, s, file, open_a, fstat_3, read_3, rename_a}

abbrev linked : List Syscall
linked = call "lstat64" (s "a" ∷ []) (pos 0) ∷ []

-- The source is examined, and the destination is left alone.
copy_symlink_verdict_example : true ≡ (
    any (calls_with (text "lstat64") file 0) linked
    && not (modifies (text "b") none linked)
    && not (any (calls_with (text "unlink") (text "b") 0) linked))
unfolding copy_symlink_over_target analyze AtLeastOnce.init AtLeastOnce.transition
    AtLeastOnce.is_accepting Modify.init Modify.transition Modify.is_accepting for_each arg arg_has
    contains is_in starts_with text
copy_symlink_verdict_example = copy_symlink_verdict file (text "b") linked refl

abbrev stamped : List Syscall
stamped =
    open_a ∷ fstat_3 ∷ call "open" (s "b" ∷ []) (pos 4) ∷ call "utimensat" (s "4" ∷ []) (pos 0) ∷ []

copy_timestamps_verdict_example :
    (true ≡ true)
    ↔ (OpenedThen (text "fstat64") file stamped × OpenedThen (text "utimensat") (text "b") stamped)
unfolding copy_timestamps_during_copy analyze OpenThen.init OpenThen.transition
    OpenThen.fstat_transition OpenThen.utimensat_transition OpenThen.is_accepting for_each arg
    arg_has arg_int ret_int contains is_in starts_with int parse_int register_is eq_ℤ same text
copy_timestamps_verdict_example = copy_timestamps_verdict file (text "b") stamped refl

abbrev renamed : List Syscall
renamed = rename_a ∷ read_3 ∷ []

selected : Has (selects file) renamed
unfolding selects arg value_eq same text
selected = record { before = []; hit = rename_a; after = read_3 ∷ []; split = refl; passes = refl }

mutated_rename_accepted_example :
    RenameChecker.is_accepting
      (RenameChecker.Correct.run (RenameChecker.init file) (Rename.mutate (some file) renamed).1).1
    ≡ true
unfolding Rename.mutate rename_call mutate_each fail_exdev RenameChecker.init
    RenameChecker.transition for_each arg arg_has contains is_in starts_with value_eq same text
mutated_rename_accepted_example = mutated_rename_accepted file renamed refl refl selected refl
