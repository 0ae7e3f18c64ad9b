-- ===== src/Mutator/Fsync.antt =====
-- src/mutator/FsyncNoSpace.py
use crash_simulator.Base.{false, Option, List, negsuc, if◌then◌else◌, ◌≡◌, arith, map}
use crash_simulator.Py.{Text, text, same, num, str, value_eq, Result, ok, then_try}
use crash_simulator.Syscall.{Syscall, arg}
use crash_simulator.Mutator.Each.{mutate_each, mutate_each_total, is_given}
use crash_simulator.Mutator.Rename.{name_value}

-- syscalls[k].ret = (-1, 'ENOSPACE')
unfoldable pub fail_no_space : Syscall → Syscall
fail_no_space c = record c { ret_value = num (negsuc 0); ret_label = str (text "ENOSPACE") }

unfoldable pub fsync_call : Option Text → Syscall → Result Syscall
unfolding fail_no_space
fsync_call name c =
    if same c.name (text "fsync")
    then (if is_given name
        then then_try (arg c 0)
            (λ v. ok (if value_eq v (name_value name) then fail_no_space c else c))
        else ok (fail_no_space c))
    else ok c

-- FsyncNoSpaceMutator.mutate_syscalls
unfoldable pub mutate : Option Text → List Syscall → Result (Unit {0}) × List Syscall
unfolding fsync_call mutate_each
mutate name = mutate_each (fsync_call name)

-- What the mutation does to one call when no name is given.
abbrev pub fails_each : Syscall → Syscall
fails_each c = if same c.name (text "fsync") then fail_no_space c else c

-- Without a name, or with an empty one, the mutation raises nothing: every fsync gets the return
-- tuple (-1, 'ENOSPACE'), and the other calls stay as they were.
pub fsync_unnamed :
    (name : Option Text) (t : List Syscall)
    → is_given name ≡ false
    → mutate name t ≡ (ok tt, map fails_each t)
unfolding mutate
fsync_unnamed name t h = mutate_each_total (fsync_call name) fails_each (every name h) t
  where
    every :
        (n : Option Text) → is_given n ≡ false → (c : Syscall) → fsync_call n c ≡ ok (fails_each c)
    every n q c = rw (fsync_call, q) (ground arith)
