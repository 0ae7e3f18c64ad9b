-- ===== src/Test/Main.antt =====
-- src/rrtest.py: list_test, pack_test and main
use crash_simulator.Base.{
  ℤ, ℕ, zero, suc, Bool, Option, none, some, List, [], ◌∷◌, ◌++◌, if◌then◌else◌,
}
use crash_simulator.Py.{Text, text, Error, Result, ok, raised, then_try}
use crash_simulator.Test.Create.{Store, create_test}

-- The names that are printed: those of directories.
unfoldable pub list_tests : List (Text × Bool) → List Text
list_tests [] = []
list_tests ((test, is_dir) ∷ l) = let rest = list_tests l in if is_dir then test ∷ rest else rest

unfoldable pub list_test : List (Text × Bool) → ℕ × List Text
unfolding list_tests text
list_test entries =
    (1, [] ∷ text "Available Tests:" ∷ text "----------------" ∷ list_tests entries ++ [] ∷ [] ∷ [])

-- pack_test, whose calls of rr and of shutil are not checked.
abbrev pub pack_test : ℕ
pack_test = 1

-- analyze_test prints the verdict, and returns None.
unfoldable pub analyze_test : Result Bool → Result (Option ℕ) × Option Bool
analyze_test (ok verdict) = (ok none, some verdict)
analyze_test (raised e) = (raised e, none)

-- The commands: create with the arguments of create_test, configure with what configure_test returns
-- (None is `none`), list with the entries of the directory, and analyze with the analysis.
pub data Command : Type 0 where
  create : Text → Bool → ℤ → List Text → Command
  configure : Result (Option ℕ) → Command
  list : List (Text × Bool) → Command
  pack : Command
  analyze : Result Bool → Command

pub data Ending : Type 0 where
  exits : ℕ → Ending
  fails : Error → Ending

-- if not (...): sys.exit(1). The program ends with status 0 otherwise.
unfoldable pub ended : Result (Option ℕ) → Ending
ended (raised e) = fails e
ended (ok none) = exits 1
ended (ok (some zero)) = exits 1
ended (ok (some (suc n))) = exits 0

unfoldable pub main : Command → Store → Ending × Store
unfolding ended create_test list_test analyze_test
main (create test_dir force status recorded) s =
    let (r, t) = create_test test_dir force status recorded s in
    (ended (then_try r (λ x. ok (some x.0))), t)
main (configure r) s = (ended r, s)
main (list entries) s = (ended (ok (some (list_test entries).0)), s)
main pack s = (ended (ok (some pack_test)), s)
main (analyze r) s = (ended (analyze_test r).0, s)
