-- ===== src/Checker/Classes.antt =====
-- src/checker/checker.py: the checkers that are built from the automata. What a caller uses of a
-- checker is an interface; the checkers are its values.
pub mod Correct
use crash_simulator.Base.{Bool, true, not, ◌&&◌, zero, ℤ, List}
use crash_simulator.Py.{
  Text, text, Value, Result, raised, not_implemented, Py, ◌>>=◌, ◌>>◌, skip, self, return, zoom,
  for_each,
}
use crash_simulator.Syscall.{Syscall}
use crash_simulator.Checker.AtLeastOnce
use crash_simulator.Checker.Modify
use crash_simulator.Checker.OpenThen
use crash_simulator.Checker.StatOpenFstat
use crash_simulator.Checker.Urandom
use crash_simulator.Checker.Xattrs
use crash_simulator.Checker.Socket
use crash_simulator.Checker.DontRead

pub record Checker : Type 1 where
  pub Object : Type 0
  pub start : Object
  pub transition : Syscall → Py Object (Unit {0})
  pub is_accepting : Object → Bool

-- NullChecker
unfoldable pub null_checker : Checker
null_checker = record {
  Object = Unit {0};
  start = tt;
  transition = λ c. skip;
  is_accepting = λ a. true;
}

-- DontReadFifoChecker
unfoldable pub dont_read_fifo : Text → Checker
dont_read_fifo filename = record {
  Object = DontRead.Automaton;
  start = DontRead.init filename;
  transition = DontRead.transition;
  is_accepting = DontRead.is_accepting;
}

-- MTUIssueChecker. `show` is as for the automaton.
unfoldable pub mtu_issue : (Value → Text) → Text → Value → ℤ → Checker
mtu_issue show addr port data_length = record {
  Object = Socket.Automaton;
  start = Socket.init addr port data_length;
  transition = Socket.transition show;
  is_accepting = Socket.is_accepting;
}

-- CopyUrandomIncorrectlyChecker
unfoldable pub copy_urandom_incorrectly : Checker
copy_urandom_incorrectly = record {
  Object = Urandom.Automaton;
  start = Urandom.init;
  transition = Urandom.transition;
  is_accepting = Urandom.is_accepting;
}

-- FileReplacedDuringCopyChecker
unfoldable pub file_replaced_during_copy : Text → Checker
file_replaced_during_copy filename = record {
  Object = StatOpenFstat.Automaton;
  start = StatOpenFstat.init filename;
  transition = StatOpenFstat.transition;
  is_accepting = StatOpenFstat.is_accepting;
}

-- XattrsCopiedDuringCopyChecker
unfoldable pub xattrs_copied_during_copy : Text → Checker
xattrs_copied_during_copy filename = record {
  Object = Xattrs.Automaton;
  start = Xattrs.init filename;
  transition = Xattrs.transition;
  is_accepting = Xattrs.is_accepting;
}

-- The attributes of a CopySymlinkOverTargetChecker.
pub record CopySymlink : Type 0 where
  pub src_checker : AtLeastOnce.Automaton
  pub dst_write_checker : Modify.Automaton
  pub dst_unlink_checker : AtLeastOnce.Automaton

unfoldable pub copy_symlink_transition : Syscall → Py CopySymlink (Unit {0})
copy_symlink_transition c = do
  zoom (λ a. a.src_checker) (λ a x. record a { src_checker = x }) (AtLeastOnce.transition c)
  zoom (λ a. a.dst_write_checker) (λ a x. record a { dst_write_checker = x }) (Modify.transition c)
  zoom (λ a. a.dst_unlink_checker) (λ a x. record a { dst_unlink_checker = x })
      (AtLeastOnce.transition c)

-- CopySymlinkOverTargetChecker
unfoldable pub copy_symlink_over_target : Text → Text → Checker
unfolding copy_symlink_transition
copy_symlink_over_target src dst = record {
  Object = CopySymlink;
  start = record {
    src_checker = AtLeastOnce.init (text "lstat64") src 0;
    dst_write_checker = Modify.init dst;
    dst_unlink_checker = AtLeastOnce.init (text "unlink") dst 0;
  };
  transition = copy_symlink_transition;
  is_accepting = λ a.
      AtLeastOnce.is_accepting a.src_checker
      && Modify.is_accepting a.dst_write_checker
      && not (AtLeastOnce.is_accepting a.dst_unlink_checker);
}

-- The attributes of a CopyTimestampsDuringCopyChecker.
pub record CopyTimestamps : Type 0 where
  pub fstat_src_automaton : OpenThen.Automaton
  pub update_dst_automaton : OpenThen.Automaton

unfoldable pub copy_timestamps_transition : Syscall → Py CopyTimestamps (Unit {0})
copy_timestamps_transition c = do
  zoom (λ a. a.fstat_src_automaton) (λ a x. record a { fstat_src_automaton = x })
      (OpenThen.fstat_transition c)
  zoom (λ a. a.update_dst_automaton) (λ a x. record a { update_dst_automaton = x })
      (OpenThen.utimensat_transition c)

-- CopyTimestampsDuringCopyChecker
unfoldable pub copy_timestamps_during_copy : Text → Text → Checker
unfolding copy_timestamps_transition
copy_timestamps_during_copy src dst = record {
  Object = CopyTimestamps;
  start = record {
    fstat_src_automaton = OpenThen.init src;
    update_dst_automaton = OpenThen.init dst;
  };
  transition = copy_timestamps_transition;
  is_accepting = λ a.
      OpenThen.is_accepting a.fstat_src_automaton && OpenThen.is_accepting a.update_dst_automaton;
}

-- MoveDirectoryIntoItselfChecker: the constructor raises.
unfoldable pub move_directory_into_itself : {C : Type 1} → Result C
move_directory_into_itself = raised not_implemented

-- The loop of `analyze_test` (src/rrtest.py), and the verdict that it prints.
unfoldable pub analyze : (k : Checker) → List Syscall → Py k.Object Bool
analyze k trace = do for_each k.transition trace; a ← self; return (k.is_accepting a)
