-- ===== src/Mutator/Simple.antt =====
-- src/mutator/Null.py, and the operations of src/mutator/Delay.py, src/mutator/ASAP.py and
-- src/mutator/UnusualFiletype.py that only raise, or test their arguments
use crash_simulator.Base.{ℕ, ◌&&◌, Option, List, [], ◌∷◌, is_some, if◌then◌else◌}
use crash_simulator.Py.{Text, text, Result, ok, raised, not_implemented, mutation_error}
use crash_simulator.Syscall.{Syscall}

-- NullMutator(index)
unfoldable pub null_mutate : List Syscall → Result (Unit {0}) × List Syscall
null_mutate syscalls = (ok tt, syscalls)

unfoldable pub null_identify : ℕ → List Syscall → Result (List ℕ)
null_identify index syscalls = ok (index ∷ [])

-- Of DelayMutator and of ASAPMutator, which cannot rewrite a recording.
unfoldable pub delay_mutate : List Syscall → Result (Unit {0}) × List Syscall
delay_mutate syscalls = (raised not_implemented, syscalls)

unfoldable pub asap_mutate : List Syscall → Result (Unit {0}) × List Syscall
asap_mutate syscalls = (raised not_implemented, syscalls)

-- A mutator of src/mutator/UnusualFiletype.py.
pub record Filetype : Type 0 where
  pub filetype : Text
  pub name : Option Text
  pub file_descriptor : Option Text
  pub mutator_name : Text

unfoldable pub filetype_init : Text → Option Text → Option Text → Result Filetype
unfolding text
filetype_init filetype name file_descriptor =
    if is_some name && is_some file_descriptor
    then raised mutation_error
    else ok (record {
      filetype = filetype;
      name = name;
      file_descriptor = file_descriptor;
      mutator_name = text "UnusualFiletypeMutator";
    })
