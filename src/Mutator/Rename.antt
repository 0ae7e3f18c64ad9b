-- ===== src/Mutator/Rename.antt =====
-- src/mutator/CrossdiskRename.py
pub mod Laws
use crash_simulator.Base.{Bool, true, false, Option, none, some, List, [], negsuc, if◌then◌else◌}
use crash_simulator.Py.{
  Text, text, same, Value, nil, num, str, value_eq, Result, ok, raised, then_try,
}
use crash_simulator.Syscall.{Syscall, arg}
use crash_simulator.Mutator.Each.{mutate_each, is_given}

-- syscalls[k].ret = (-1, 'EXDEV')
unfoldable pub fail_exdev : Syscall → Syscall
fail_exdev c = record c { ret_value = num (negsuc 0); ret_label = str (text "EXDEV") }

-- The name as a value to compare with; only asked where the name is given.
abbrev pub name_value : Option Text → Value
name_value none = nil
name_value (some s) = str s

-- The assignment stands under the test on the name, so without a name nothing is assigned.
unfoldable pub rename_call : Option Text → Syscall → Result Syscall
unfolding fail_exdev
rename_call name c =
    if same c.name (text "rename")
    then (if is_given name
        then then_try (arg c 0) (λ v. ok (if value_eq v (name_value name) then fail_exdev c else c))
        else ok c)
    else ok c

-- CrossdiskRenameMutator.mutate_syscalls
unfoldable pub mutate : Option Text → List Syscall → Result (Unit {0}) × List Syscall
unfolding rename_call mutate_each
mutate name = mutate_each (rename_call name)
