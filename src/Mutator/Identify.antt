-- ===== src/Mutator/Identify.antt =====
-- src/mutator/*.py: identify_lines, and next_syscall of GenericMutator
pub mod Opportunities
use crash_simulator.Base.{
  Bool, true, false, ◌||◌, Option, none, some, List, [], ◌∷◌, ◌++◌, if◌then◌else◌, ℕ,
}
use crash_simulator.Py.{
  Text, text, same, starts_with, Result, ok, raised, attribute_error, type_error, then_try, Py,
  ◌>>=◌, ◌>>◌, self, put, lift, return, for_each,
}
use crash_simulator.Syscall.{Syscall}
use crash_simulator.TraceManager.{Manager, Package, get_next_syscall_trace_package}

-- What next_syscall gives for one request: a package, another request after a wait, or the end.
pub data Answer : Type 0 where
  got : Package → Answer
  again ended : Answer

-- `producer_listed` tells if the second thread in the list of threads is the producer's.
abbrev pub answer : Bool → Option Package → Answer
answer producer_listed (some p) = got p
answer true none = again
answer false none = ended

unfoldable pub next_syscall : Text → Bool → Py Manager Answer
next_syscall id producer_listed = do
  package' ← get_next_syscall_trace_package id 5
  return (answer producer_listed package')

-- An item of the queue of opportunities.
pub record Opportunity : Type 0 where
  pub found : Package
  pub mutator_name : Text

-- opportunity_identified, on the queue
abbrev pub opportunity_identified : Package → Text → Py (List Opportunity) (Unit {0})
opportunity_identified p name q = (ok tt, q ++ record { found = p; mutator_name = name } ∷ [])

-- syscall_trace['syscall'].name, which raises for a line with no call
unfoldable pub call_name : Package → Result Text
call_name p = elim p.syscall [ none ↦ raised attribute_error | some c ↦ ok c.name ]

-- FutureTimeMutator and ReverseTimeMutator: a round of identify_lines for a package.
unfoldable pub examine_time : Text → Package → Py (List Opportunity) (Unit {0})
unfolding call_name
examine_time mutator_name p = do
  name ← lift (call_name p)
  if same name (text "time") then opportunity_identified p mutator_name else return tt

-- ASAPMutator and DelayMutator
unfoldable pub examine_nothing : Package → Py (List Opportunity) (Unit {0})
examine_nothing p = return tt

-- Whether an attribute that is given counts as true, as the tests on `name` and `file_descriptor` ask.
-- The package is a dict, and `syscall_trace.args` raises.
abbrev unless_given : Bool → Py (List Opportunity) (Unit {0}) → Py (List Opportunity) (Unit {0})
unless_given true m = lift (raised attribute_error)
unless_given false m = m

-- UnusualFiletypeMutator
unfoldable pub examine_filetype : Bool → Bool → Package → Py (List Opportunity) (Unit {0})
unfolding call_name
examine_filetype has_name has_descriptor p = do
  name ← lift (call_name p)
  if starts_with name (text "fstat")
      then unless_given has_descriptor (opportunity_identified p (text "UnusualFiletypeMutator"))
      else return tt
  if starts_with name (text "stat") || starts_with name (text "lstat")
      then unless_given has_name (opportunity_identified p (text "UnusualFiletypeMutator"))
      else return tt

-- identify_lines, on the packages that its requests bring until the end.
unfoldable pub identify_lines :
    (Package → Py (List Opportunity) (Unit {0})) → List Package → Py (List Opportunity) (Unit {0})
unfolding for_each
identify_lines examine packages = for_each examine packages

-- CrossdiskRenameMutator: next_syscall is called with an argument too many.
unfoldable pub identify_renames : List Package → Py (List Opportunity) (Unit {0})
identify_renames packages = lift (raised type_error)

-- FsyncNoSpaceMutator: the thread calls the method with an argument too many.
unfoldable pub identify_fsyncs : List Package → Py (List Opportunity) (Unit {0})
identify_fsyncs packages = lift (raised type_error)
