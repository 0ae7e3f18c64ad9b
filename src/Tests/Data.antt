-- ===== src/Tests/Data.antt =====
-- Traces for the tests.
use crash_simulator.Base.{List, [], ◌∷◌, ℤ, pos, negsuc, String}
use crash_simulator.Py.{Text, text, Value, nil, num, str, list, end, item}
use crash_simulator.Syscall.{Syscall}

-- A call that succeeded.
abbrev pub call : String → List Value → ℤ → Syscall
call name args ret = record { name = text name; args = args; ret_value = num ret; ret_label = nil }

abbrev pub s : String → Value
s t = str (text t)

abbrev pub file : Text
file = text "a"

abbrev pub stat_a : Syscall
stat_a = call "stat64" (s "a" ∷ []) (pos 0)

abbrev pub open_a : Syscall
open_a = call "open" (s "a" ∷ list (item (s "O_RDONLY") end) ∷ []) (pos 3)

abbrev pub fstat_3 : Syscall
fstat_3 = call "fstat64" (s "3" ∷ []) (pos 0)

abbrev pub read_3 : Syscall
read_3 = call "read" (num (pos 3) ∷ s "data" ∷ []) (pos 4)

abbrev pub write_4 : Syscall
write_4 = call "write" (num (pos 4) ∷ s "data" ∷ []) (pos 4)

abbrev pub open_urandom : Syscall
open_urandom = call "open" (s "/dev/urandom" ∷ []) (pos 3)

abbrev pub set_x : Syscall
set_x = call "fsetxattr" (s "4" ∷ s "x" ∷ s "0x1" ∷ []) (pos 0)

abbrev pub get_x : Syscall
get_x = call "fgetxattr" (s "3" ∷ s "x" ∷ s "0x1" ∷ []) (pos 1)

abbrev pub get_y : Syscall
get_y = call "fgetxattr" (s "3" ∷ s "y" ∷ s "0x1" ∷ []) (pos 1)

abbrev pub set_y : Syscall
set_y = call "fsetxattr" (s "4" ∷ s "y" ∷ s "0x1" ∷ []) (pos 0)

abbrev pub rename_a : Syscall
rename_a = call "rename" (s "a" ∷ s "b" ∷ []) (pos 0)

abbrev pub rename_failed : Syscall
rename_failed = record {
  name = text "rename";
  args = s "a" ∷ s "b" ∷ [];
  ret_value = num (negsuc 0);
  ret_label = s "EXDEV";
}

abbrev pub time_call : Syscall
time_call = call "time" (s "NULL" ∷ []) (pos 1500)

abbrev pub fsync_3 : Syscall
fsync_3 = call "fsync" (s "3" ∷ []) (pos 0)
