-- ===== src/Test/Configure/Traceline.antt =====
-- A test that configure_test of src/rrtest.py sets up by a line of the trace.
use crash_simulator.Base.{
  ◌≡◌, refl, ℕ, ◌-◌, true, none, some, List, [], ◌∷◌, ◌++◌, map, ℤ, get_elem?, arith, Bool-cases,
  inl, inr,
}
use crash_simulator.Py.{
  Text, text, same, show_ℕ, show_int, Result, ok, raised, no_option, Result-cases,
}
use crash_simulator.Replay.Config.{get_configuration, configuration_of, subjects_of, subject_of}
use crash_simulator.Py.ConfigParser.{stored}
use crash_simulator.Py.ConfigParser.Plain.{
  is_plain, is_plain-append, is_plain-show_ℕ, is_plain-show_int, get-plain, get-missing,
}
use crash_simulator.Test.Ini.Laws.{put_options}
use crash_simulator.Test.Ini.{
  Part, as_section, option, put_option, add_section, has_section, set, set_all,
}
use crash_simulator.Test.Snip.{event_number, or_index_error, write_lines}
use crash_simulator.Test.Opportunities.{Setup, first_options, last_options}
use crash_simulator.Test.Opportunities.Readback.{recorded, get-recorded}
use crash_simulator.Test.Configure.{line_before, is_event_line, describe_line, configure_line}

-- The state before, with the file that create_test leaves.
abbrev pub created : Text → Setup
created rr_dir = record { ini = recorded rr_dir; saved = recorded rr_dir; snips = [] }

module _ (test_dir pid : Text) (trace_lines : List Text) (sniplen trace_line : ℕ)
    (rr_dir : Text) where
  abbrev pub outcome : Result ℕ × Setup
  outcome = configure_line test_dir pid trace_lines sniplen trace_line (created rr_dir)

  abbrev part_of : ℤ → Part
  part_of n = record {
    name = text "request_handling_process";
    options =
        put_options
          (last_options (test_dir ++ text "trace_snip.strace") n pid
            (write_lines sniplen (trace_line - 1) 2 trace_lines).1)
          (put_options (first_options test_dir) []);
  }

  -- The options of the section, as they are read.
  reads :
      (n : ℤ)
      → let i = as_section (part_of n) in
        (i (text "event") ≡ some (stored (show_int n)))
        × (i (text "pid") ≡ some (stored pid))
        × (i (text "trace_file") ≡ some (stored (test_dir ++ text "trace_snip.strace")))
        × (i (text "trace_start") ≡ some (stored (text "0")))
        × (i (text "trace_end")
            ≡ some (stored (show_ℕ (write_lines sniplen (trace_line - 1) 2 trace_lines).1)))
        × (i (text "mutator") ≡ none)
  unfolding as_section first_options last_options put_options put_option option same text
  reads n = (refl, refl, refl, refl, refl, refl)

  module _ (rr_dir_plain : is_plain rr_dir ≡ true) (dir_plain : is_plain test_dir ≡ true)
      (pid_plain : is_plain pid ≡ true) where
    subject_of-part : (n : ℤ) → subject_of (as_section (part_of n)) ≡ raised no_option
    unfolding subject_of is_plain text
    subject_of-part n =
        let i = as_section (part_of n) in
        let (event, number, file, start, end, mutator) = reads n in
        rw
          (
            get-plain i (text "event") (show_int n) event (is_plain-show_int n),
            get-plain i (text "pid") pid number pid_plain,
            get-plain i (text "trace_file") (test_dir ++ text "trace_snip.strace") file
                (is_plain-append test_dir (text "trace_snip.strace") dir_plain refl),
            get-plain i (text "trace_start") (text "0") start refl,
            get-plain i (text "trace_end")
                (show_ℕ (write_lines sniplen (trace_line - 1) 2 trace_lines).1) end
                (is_plain-show_ℕ (write_lines sniplen (trace_line - 1) 2 trace_lines).1),
            get-missing i (text "mutator") mutator,
          )
          refl

    get_configuration-saved :
        (n : ℤ)
        → get_configuration (some (map as_section (recorded rr_dir ++ part_of n ∷ [])))
          ≡ raised no_option
    unfolding get_configuration recorded subjects_of
    get_configuration-saved n =
        rw (configuration_of, get-recorded rr_dir rr_dir_plain, subject_of-part n) refl

  -- Where the two directories and the pid have no space, percent sign, semicolon or quote: a test that
  -- is configured by a line of its trace, and for which configure_test returns 1, cannot be replayed:
  -- its section names no mutator, and reading the configuration is a NoOptionError.
  pub traceline_not_replayable :
      is_plain rr_dir ≡ true
      → is_plain test_dir ≡ true
      → is_plain pid ≡ true
      → outcome.0 ≡ ok 1
      → get_configuration (some (map as_section outcome.1.saved)) ≡ raised no_option
  unfolding configure_line describe_line add_section has_section set_all set put_options recorded
      same text
  traceline_not_replayable r d t h =
      elim (Result-cases (or_index_error (get_elem? trace_lines (trace_line - 1)))) [
        | inl (e, q) ↦ ground (arith, q)
        | inr (line, q) ↦ elim (Bool-cases (is_event_line line)) [
          | inl b ↦ ground (arith, q, b)
          | inr b ↦ elim (Result-cases (line_before trace_lines (trace_line - 1))) [
            | inl (e, p) ↦ ground (arith, q, b, p)
            | inr (event_line, p) ↦ elim (Result-cases (event_number event_line)) [
              | inl (e, n) ↦ ground (arith, q, b, p, n)
              | inr (user_event, n) ↦ rw (q, b, p, n) (get_configuration-saved r d t user_event)
            ]
          ]
        ]
      ]
