-- ===== src/Tests/Automata.antt =====
-- Runs of the automata of src/checker/checker.py.
use crash_simulator.Base.{
  ◌≡◌, refl, ◌↔◌, true, false, not, none, List, [], ◌∷◌, ℤ, pos, eq_ℤ, ◌+ℤ◌, ◌≤◌,
}
use crash_simulator.Py.{
  Text, text, same, is_in, starts_with, Value, str, num, obj, list, item, end, contains, is_item,
  int, parse_int, value_eq, register_is, register_eq, for_each,
}
use crash_simulator.Syscall.{Syscall, arg, arg_has, arg_int, ret_int}
use crash_simulator.Checker.Trace.{Has, First}
use crash_simulator.Checker.Calls.{opened}
use crash_simulator.Checker.OpenThen
use crash_simulator.Checker.OpenThen.Correct.{OpenedThen, open_then_accepts_iff}
use crash_simulator.Checker.StatOpenFstat
use crash_simulator.Checker.StatOpenFstat.Correct.{
  OpenedAndFstated, stated, stat_open_fstat_accepts_iff,
}
use crash_simulator.Checker.Modify
use crash_simulator.Checker.Modify.Correct.{
  modify_accepts_eq, modifies, opens, appends, open_without_append_rejected,
}
use crash_simulator.Checker.Rename
use crash_simulator.Checker.Rename.Correct.{failed_with_exdev, rename_accepts_iff}
use crash_simulator.Checker.Urandom
use crash_simulator.Checker.Urandom.Correct.{
  ReadAndLeaked, opened_by, urandom_rejects_iff, accepts_text,
}
use crash_simulator.Checker.Xattrs
use crash_simulator.Checker.Xattrs.Correct.{xattrs_accepts_sound, bulk_reads, writes}
use crash_simulator.Checker.DontRead
use crash_simulator.Checker.DontRead.Correct.{dont_read_rejects_iff}
use crash_simulator.Checker.Socket
use crash_simulator.Checker.Socket.Correct.{Filled, socket_accepts_iff}
use crash_simulator.Tests.Data.{
  call, s, file, stat_a, open_a, fstat_3, read_3, write_4, open_urandom, set_x, set_y, get_x, get_y,
  rename_failed,
}

abbrev fstated : List Syscall
fstated = open_a ∷ fstat_3 ∷ []

open_then_accepts_iff_example :
    (OpenThen.is_accepting (OpenThen.Correct.run (text "fstat64") (OpenThen.init file) fstated).1
      ≡ true)
    ↔ OpenedThen (text "fstat64") file fstated
unfolding OpenThen.init OpenThen.transition for_each arg arg_has arg_int ret_int contains is_item
    is_in starts_with int parse_int register_is register_eq value_eq eq_ℤ same text
open_then_accepts_iff_example = open_then_accepts_iff (text "fstat64") file fstated refl

fstated_accepted :
    OpenThen.is_accepting (OpenThen.Correct.run (text "fstat64") (OpenThen.init file) fstated).1
    ≡ true
unfolding OpenThen.init OpenThen.transition OpenThen.is_accepting for_each arg arg_has arg_int
    ret_int contains is_item is_in starts_with int parse_int register_is register_eq value_eq eq_ℤ
    same text
fstated_accepted = refl

abbrev replaced : List Syscall
replaced = stat_a ∷ open_a ∷ fstat_3 ∷ []

stat_open_fstat_accepts_iff_example :
    (StatOpenFstat.is_accepting (StatOpenFstat.Correct.run (StatOpenFstat.init file) replaced).1
      ≡ true)
    ↔ ((u : Unit {0}) × (rest : List Syscall) × First (stated file) replaced u rest
        × OpenedAndFstated file rest)
unfolding StatOpenFstat.init StatOpenFstat.transition for_each arg arg_has arg_int ret_int contains
    is_item is_in starts_with int parse_int register_is register_eq value_eq eq_ℤ same text
stat_open_fstat_accepts_iff_example = stat_open_fstat_accepts_iff file replaced refl

modify_accepts_eq_example :
    Modify.is_accepting (Modify.Correct.run (Modify.init file) fstated).1
    ≡ not (modifies file none fstated)
unfolding Modify.init Modify.transition for_each arg arg_has arg_int ret_int contains is_item is_in
    starts_with int parse_int register_is register_eq value_eq eq_ℤ same text
modify_accepts_eq_example = modify_accepts_eq file fstated refl

abbrev crossed : List Syscall
crossed = rename_failed ∷ []

rename_accepts_iff_example :
    (Rename.is_accepting (Rename.Correct.run (Rename.init file) crossed).1 ≡ true)
    ↔ Has (failed_with_exdev file) crossed
unfolding Rename.init Rename.transition for_each arg arg_has arg_int ret_int contains is_item is_in
    starts_with int parse_int register_is register_eq value_eq eq_ℤ same text
rename_accepts_iff_example = rename_accepts_iff file crossed refl

abbrev copied : List Syscall
copied = open_urandom ∷ read_3 ∷ write_4 ∷ []

urandom_rejects_iff_example :
    (not (Urandom.is_accepting (Urandom.Correct.run Urandom.init copied).1) ≡ true) ↔ (
      (p : ℤ × Syscall) × (rest : List Syscall) × First opened_by copied p rest
      × ReadAndLeaked p.0 (p.1 ∷ rest))
unfolding Urandom.init Urandom.transition for_each arg arg_has arg_int ret_int contains is_item
    is_in starts_with int parse_int register_is register_eq value_eq eq_ℤ same text
urandom_rejects_iff_example = urandom_rejects_iff copied refl

copied_rejected : Urandom.is_accepting (Urandom.Correct.run Urandom.init copied).1 ≡ false
unfolding Urandom.init Urandom.transition Urandom.is_accepting for_each arg arg_has arg_int ret_int
    contains is_item is_in starts_with int parse_int register_is register_eq value_eq eq_ℤ same text
copied_rejected = refl

abbrev attributes : List Syscall
attributes = open_a ∷ get_x ∷ get_y ∷ set_x ∷ set_y ∷ []

xattrs_accepts_sound_example :
    (fd : ℤ) × (rest : List Syscall) × First (opened file) attributes fd rest
    × ((v : Value) → bulk_reads fd v rest ≤ writes v rest)
unfolding Xattrs.init Xattrs.transition Xattrs.is_accepting Xattrs.has_attr Xattrs.remove for_each
    arg arg_has arg_int ret_int contains is_item is_in starts_with int parse_int register_is
    register_eq value_eq eq_ℤ same text
xattrs_accepts_sound_example = xattrs_accepts_sound file attributes refl refl

abbrev stat_and_read : List Syscall
stat_and_read = stat_a ∷ open_a ∷ read_3 ∷ []

dont_read_rejects_iff_example :
    (not (DontRead.is_accepting (DontRead.Correct.run (DontRead.init file) stat_and_read).1) ≡ true)
    ↔ ((c : Syscall) × (rest : List Syscall) × First
          (DontRead.Correct.stated file)
          stat_and_read
          c
          rest
        × DontRead.Correct.OpenedAndRead file (c ∷ rest))
unfolding DontRead.init DontRead.transition for_each arg arg_has arg_int ret_int contains is_item
    is_in starts_with int parse_int register_is register_eq value_eq eq_ℤ same text
dont_read_rejects_iff_example = dont_read_rejects_iff file stat_and_read refl

-- The text of a value of the parser's address classes.
abbrev show : Value → Text
show (str t) = t
show (obj v) = show v
show v = []

abbrev connect_4 : Syscall
connect_4 =
    call "connect"
      (s "4"
        ∷ list
            (item (obj (s "AF_INET")) (item (obj (num (pos 80))) (item (obj (s "10.0.2.3")) end)))
        ∷ [])
      (pos 0)

abbrev received_8 : List Syscall
received_8 = connect_4 ∷ call "read" (s "4" ∷ s "data" ∷ []) (pos 8) ∷ []

socket_accepts_iff_example :
    (Socket.is_accepting
        (Socket.Correct.run show
          (text "10.0.2.3")
          (num (pos 80))
          (pos 8)
          (Socket.init (text "10.0.2.3") (num (pos 80)) (pos 8))
          received_8).1
      ≡ true)
    ↔ ((p : ℤ × Syscall) × (rest : List Syscall) × First
          (Socket.Correct.connected show (text "10.0.2.3") (num (pos 80)))
          received_8
          p
          rest
        × Filled (pos 8) p.0 (pos 0) (p.1 ∷ rest))
unfolding Socket.init Socket.transition Socket.index Socket.attribute Socket.member ◌+ℤ◌ for_each
    arg arg_has arg_int ret_int contains is_item is_in starts_with int parse_int register_is
    register_eq value_eq eq_ℤ same text
socket_accepts_iff_example =
    socket_accepts_iff show (text "10.0.2.3") (num (pos 80)) (pos 8) received_8 refl
