-- ===== src/Checker/Classes/Correct.antt =====
-- What the checkers that combine several automata accept.
use crash_simulator.Base.{◌≡◌, refl, ◌↔◌, Bool, true, not, ◌&&◌, none, List, [], ◌∷◌, arith}
use crash_simulator.Py.{Text, text, ok, for_each}
use crash_simulator.Syscall.{Syscall}
use crash_simulator.Checker.Trace.{any}
use crash_simulator.Checker.AtLeastOnce
use crash_simulator.Checker.AtLeastOnce.Correct.{calls_with}
use crash_simulator.Checker.Modify
use crash_simulator.Checker.Modify.Correct.{modifies}
use crash_simulator.Checker.OpenThen
use crash_simulator.Checker.OpenThen.Correct.{OpenedThen, open_then_accepts_iff}
use crash_simulator.Checker.Classes.{
  CopySymlink, copy_symlink_transition, copy_symlink_over_target, CopyTimestamps,
  copy_timestamps_transition, copy_timestamps_during_copy, analyze,
}

-- A run of three automata side by side is a run of each.
symlink_parts :
    (s : CopySymlink) (t : List Syscall)
    → (for_each copy_symlink_transition t s).0 ≡ ok tt
    → ((for_each AtLeastOnce.transition t s.src_checker).0 ≡ ok tt)
      × ((for_each Modify.transition t s.dst_write_checker).0 ≡ ok tt)
      × ((for_each AtLeastOnce.transition t s.dst_unlink_checker).0 ≡ ok tt)
      × ((for_each copy_symlink_transition t s).1 ≡ record {
        src_checker = (for_each AtLeastOnce.transition t s.src_checker).1;
        dst_write_checker = (for_each Modify.transition t s.dst_write_checker).1;
        dst_unlink_checker = (for_each AtLeastOnce.transition t s.dst_unlink_checker).1;
      })
unfolding for_each copy_symlink_transition
symlink_parts s [] h = (refl, refl, refl, refl)
symlink_parts s (c ∷ t) h = ground (arith, symlink_parts (copy_symlink_transition c s).1 t)

abbrev symlink_start : Text → Text → CopySymlink
symlink_start src dst = record {
  src_checker = AtLeastOnce.init (text "lstat64") src 0;
  dst_write_checker = Modify.init dst;
  dst_unlink_checker = AtLeastOnce.init (text "unlink") dst 0;
}

-- Whenever the analysis of a trace returns a verdict, it is that the source is in the first argument of
-- an lstat64 call; that the destination is neither opened without O_APPEND nor in a write whose first
-- argument is, as a number, what the latest `open` of it returned (None before any; a descriptor that is
-- a text is never taken for it); and that it is not in the first argument of an unlink call.
pub copy_symlink_verdict :
    (src dst : Text) (t : List Syscall) {b : Bool}
    → (let k = copy_symlink_over_target src dst in (analyze k t k.start).0) ≡ ok b
    → b ≡ (
        any (calls_with (text "lstat64") src 0) t
        && not (modifies dst none t)
        && not (any (calls_with (text "unlink") dst 0) t))
unfolding copy_symlink_over_target analyze
copy_symlink_verdict src dst t h = ground (
  arith,
  symlink_parts (symlink_start src dst) t,
  AtLeastOnce.Correct.at_least_once_accepts_eq (text "lstat64") src 0 t,
  Modify.Correct.modify_accepts_eq dst t,
  AtLeastOnce.Correct.at_least_once_accepts_eq (text "unlink") dst 0 t,
)

-- A run of two automata side by side is a run of each.
timestamps_parts :
    (s : CopyTimestamps) (t : List Syscall)
    → (for_each copy_timestamps_transition t s).0 ≡ ok tt
    → ((for_each OpenThen.fstat_transition t s.fstat_src_automaton).0 ≡ ok tt)
      × ((for_each OpenThen.utimensat_transition t s.update_dst_automaton).0 ≡ ok tt)
      × ((for_each copy_timestamps_transition t s).1 ≡ record {
        fstat_src_automaton = (for_each OpenThen.fstat_transition t s.fstat_src_automaton).1;
        update_dst_automaton = (for_each OpenThen.utimensat_transition t s.update_dst_automaton).1;
      })
unfolding for_each copy_timestamps_transition
timestamps_parts s [] h = (refl, refl, refl)
timestamps_parts s (c ∷ t) h = ground (arith, timestamps_parts (copy_timestamps_transition c s).1 t)

abbrev timestamps_start : Text → Text → CopyTimestamps
timestamps_start src dst = record {
  fstat_src_automaton = OpenThen.init src;
  update_dst_automaton = OpenThen.init dst;
}

-- Whenever the analysis of a trace returns a verdict, it is true exactly if fstat64 follows the first
-- `open` of the source, and utimensat that of the destination, each on the number that this `open`
-- returned. A source that is only given to a stat call is not enough.
pub copy_timestamps_verdict :
    (src dst : Text) (t : List Syscall) {b : Bool}
    → (let k = copy_timestamps_during_copy src dst in (analyze k t k.start).0) ≡ ok b
    → (b ≡ true) ↔ (OpenedThen (text "fstat64") src t × OpenedThen (text "utimensat") dst t)
unfolding copy_timestamps_during_copy analyze OpenThen.fstat_transition
    OpenThen.utimensat_transition
copy_timestamps_verdict src dst t h = ground (
  arith,
  timestamps_parts (timestamps_start src dst) t,
  open_then_accepts_iff (text "fstat64") src t,
  open_then_accepts_iff (text "utimensat") dst t,
)
