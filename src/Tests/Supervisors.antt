-- ===== src/Tests/Supervisors.antt =====
-- Runs of main of src/inject.py.
use crash_simulator.Base.{◌≡◌, refl, false, none, some, List, [], ◌∷◌, ◌*◌, ◌-◌, pos, arith}
use crash_simulator.Py.{Text, text, str, ok}
use crash_simulator.Inject.Setup.{Config, Prepared, prepare}
use crash_simulator.Inject.Main.{Finish, main}
use crash_simulator.Inject.Main.Settled.{Settled, main_settles}
use crash_simulator.Tests.Loops.{tracer, recorder, calls, state-Unmoved}

abbrev config : Config
config = record {
  brks = [];
  pid = str (text "42");
  mmap_backing_files = none;
  trace_start = str (text "0");
  trace_end = str (text "1");
}

abbrev prepared : Prepared
prepared = record {
  brks = [];
  pid = pos 42;
  mmap_backing_files = none;
  syscall_index = pos 0;
  syscall_index_end = pos 1;
  syscalls = calls;
}

abbrev status : List Text
status = text "Name:\tcat\n" ∷ text "Tgid:\t41\n" ∷ []

main_settles_example :
    (f : Finish) × (main tracer recorder
        (λ pid w. (ok false, w))
        status
        (text "NullMutator" ∷ [])
        (text "120")
        (2 * (1 - 0))
        (some [])
        config
        none
        calls
        tt
      ≡ some f)
    × Settled tracer recorder calls 0 1 [] (text "NullMutator") (text "120") (pos 41) (pos 120) tt f
unfolding prepare crash_simulator.Py.int crash_simulator.Py.parse_int text
    crash_simulator.Inject.Exit.tgid_of crash_simulator.Py.same
main_settles_example =
    main_settles tracer recorder (λ pid w. (ok false, w)) status (text "NullMutator") []
      (text "120") [] config none calls tt tt prepared 0 1 (pos 41) (pos 120) refl refl refl
      (omega arith) refl refl refl (λ v steps. state-Unmoved 1 v)
