-- ===== src/Test/Configure/Null.antt =====
-- A test that configure_test of src/rrtest.py sets up with the mutator of src/mutator/Null.py.
use crash_simulator.Base.{◌≡◌, refl, ℕ, none, some, List, [], ◌∷◌, ◌++◌, ℤ}
use crash_simulator.Py.{Text, text, same, show_ℕ, show_int, Result}
use crash_simulator.Syscall.{Syscall}
use crash_simulator.Mutator.Simple.{null_identify}
use crash_simulator.Replay.Config.{Subject}
use crash_simulator.Py.ConfigParser.{stored}
use crash_simulator.Test.Ini.{Part, Ini, option, put_option, as_section}
use crash_simulator.Test.Ini.Laws.{put_options}
use crash_simulator.Test.Snip.{write_lines}
use crash_simulator.Test.Opportunities.{Setup, section_name, snip_name, first_options, last_options}
use crash_simulator.Test.Opportunities.Readback.{recorded}
use crash_simulator.Test.Configure.{configure_mutator}
use crash_simulator.Test.Configure.Traceline.{created}

module _ (test_dir pid : Text) (trace_lines : List Text) (sniplen : ℕ) (rr_dir mutator : Text) where
  -- A NullMutator with an index.
  abbrev pub with_null : ℕ → List Syscall → Result ℕ × Setup
  with_null index syscalls =
      configure_mutator test_dir pid trace_lines sniplen mutator (null_identify index) syscalls
        (created rr_dir)

  -- The subject for the line `at`, with its event.
  unfoldable pub null_subject : ℤ → ℕ → Subject
  null_subject n at = record {
    event = show_int n;
    rec_pid = pid;
    trace_file = snip_name test_dir 0;
    trace_start = text "0";
    trace_end = show_ℕ (write_lines sniplen at 2 trace_lines).1;
    mutator = mutator;
    injected_state_file = show_int n ++ text "_" ++ mutator ++ text "_state.json";
    other_procs = [];
    mmap_backing_files = none;
    checker = none;
    handle = none;
  }

  abbrev options_of : ℤ → ℕ → List (Text × Text)
  options_of n at =
      put_options
        (last_options (snip_name test_dir 0) n pid (write_lines sniplen at 2 trace_lines).1)
        (put_options ((text "mutator", mutator) ∷ []) (put_options (first_options test_dir) []))

  abbrev part_of : ℤ → ℕ → Part
  part_of n at = record { name = section_name 0; options = options_of n at }

  abbrev saved_ini : ℤ → ℕ → Ini
  saved_ini n at = recorded rr_dir ++ part_of n at ∷ []

  -- The options of the section, as they are read.
  reads :
      (n : ℤ) (at : ℕ)
      → let i = as_section (part_of n at) in
        (i (text "event") ≡ some (stored (show_int n)))
        × (i (text "pid") ≡ some (stored pid))
        × (i (text "trace_file") ≡ some (stored (snip_name test_dir 0)))
        × (i (text "trace_start") ≡ some (stored (text "0")))
        × (i (text "trace_end") ≡ some (stored (show_ℕ (write_lines sniplen at 2 trace_lines).1)))
        × (i (text "mutator") ≡ some (stored mutator))
        × (i (text "mmap_backing_files") ≡ none)
        × (i (text "checker") ≡ none)
  unfolding as_section first_options last_options put_options put_option option same text
  reads n at = (refl, refl, refl, refl, refl, refl, refl, refl)
