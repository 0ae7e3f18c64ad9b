-- ===== src/Tests/Setups.antt =====
-- Runs of src/rrtest.py, src/identify_opportunities.py and src/crashsim.py.
use mathlib.Core.List.{Perm}
use crash_simulator.Base.{
  ◌≡◌, refl, ◌↔◌, ◌<◌, ℕ, ◌+◌, ◌*◌, true, false, not, ◌||◌, ◌&&◌, none, some, List, [], ◌∷◌, ◌++◌,
  map, length, get_elem?, leb, pos, eq_ℤ,
}
use crash_simulator.Py.{Text, text, ok, raised, no_option}
use crash_simulator.Mutator.Identify.{Opportunity}
use crash_simulator.Replay.Config.{Subject, get_configuration, events_str}
use crash_simulator.Replay.Config.Laws.{SortedByEvent}
use crash_simulator.Replay.Session.{Session}
use crash_simulator.Test.Snip.{write_lines, write_lines_lem}
use crash_simulator.Test.Opportunities.Readback.{recorded, subjects_for}
use crash_simulator.Test.Ini.{as_section}
use crash_simulator.Syscall.{Syscall}
use crash_simulator.Inject.Setup.{prepare}
use crash_simulator.Mutator.Time.{future_mutate}
use crash_simulator.Replay.Config.{Statefile}
use crash_simulator.Replay.Messages.{Message, Run, read_file, supervise}
use crash_simulator.Replay.Messages.Supervisor.{config_of, ready, supervisor_prepared}
use crash_simulator.Test.Opportunities.Readback.{subject_for}
use crash_simulator.Py.{num, str}
use crash_simulator.Test.Configure.Traceline.{outcome, traceline_not_replayable}
use crash_simulator.Test.Create.{Store, create_test}
use crash_simulator.Test.Create.Trimmed.{is_created, created_iff}
use crash_simulator.Crashsim.{World, main}
use crash_simulator.Crashsim.Runs.{rr_gets_opportunities}
use crash_simulator.Tests.Data.{time_call, rename_a}

abbrev pub dir : Text
dir = text "/t/"

-- The snippet of a call, and the event line before it.
abbrev first_found : Opportunity
first_found = record {
  found = record {
    syscall = some time_call;
    event = text "8 +++ 120 +++";
    trace = text "8 time(NULL) = 5" ∷ text "8 exit(0)" ∷ [];
  };
  mutator_name = text "FutureTimeMutator";
}

abbrev second_found : Opportunity
second_found = record {
  found = record {
    syscall = some rename_a;
    event = text "8 +++ 38 +++";
    trace = text "8 rename(a, b) = 0" ∷ [];
  };
  mutator_name = text "CrossdiskRenameMutator";
}

abbrev trace : List Text
trace =
    text "8 +++ 120 +++" ∷ text "8 time(NULL) = 5" ∷ text "8 +++ 121 +++" ∷ text "8 exit(0)" ∷ []

write_lines_lem_example :
    ((write_lines 3 1 2 trace).1 ≡ length (write_lines 3 1 2 trace).0)
    × ((i : ℕ) (l : Text)
        → (get_elem? (write_lines 3 1 2 trace).0 i ≡ some l)
          ↔ ((i < 3) × (get_elem? trace (1 + i * 2) ≡ some l)))
write_lines_lem_example = write_lines_lem 3 1 2 trace

traceline_not_replayable_example :
    get_configuration (some (map as_section (outcome dir (text "8") trace 2 2 dir).1.saved))
    ≡ raised no_option
unfolding crash_simulator.Py.ConfigParser.Plain.is_plain
    crash_simulator.Test.Configure.configure_line recorded crash_simulator.Py.same
    crash_simulator.Py.starts_digit crash_simulator.Py.is_space crash_simulator.Py.starts_with
    crash_simulator.Py.split_on crash_simulator.Py.int crash_simulator.Py.parse_int
traceline_not_replayable_example =
    traceline_not_replayable dir (text "8") trace 2 2 dir refl refl refl refl

abbrev empty : Store
empty = record { is_there = false; trace = none; saved = none }

created_iff_example :
    is_created (create_test dir false (pos 0) trace empty).0
    ≡ ((not empty.is_there || false) && eq_ℤ (pos 0) (pos 0) && leb 3 (length trace))
created_iff_example = created_iff dir false (pos 0) trace empty

abbrev session : Session
session = record {
  proc_file = false;
  pipe = true;
  files = [];
  outcome = record { killed = []; reported = [] };
  replayed = none;
}

abbrev pub world : World
world = record { store = empty; snips = []; session = session }

rr_gets_opportunities_example :
    (m : List Subject) × ((main dir
        (pos 0)
        (text "8 +++ 120 +++\n"
          ∷ text "8 time(NULL) = 5\n"
          ∷ text "8 exit(0)\n"
          ∷ text "8 +++ 121 +++\n"
          ∷ [])
        (λ l. first_found ∷ [])
        true
        []
        (λ s. pos 0)
        false
        false
        world).1.session.replayed
      ≡ some (events_str m, dir))
    × SortedByEvent m
    × Perm m (subjects_for dir (text "8") 5 0 (first_found ∷ []))
unfolding crash_simulator.Py.ConfigParser.Plain.is_plain
    crash_simulator.Test.Opportunities.recorded_pid crash_simulator.Py.word_of text
    crash_simulator.Test.Snip.event_number crash_simulator.Py.split_on
    crash_simulator.Py.starts_with crash_simulator.Py.int crash_simulator.Py.parse_int
rr_gets_opportunities_example =
    rr_gets_opportunities dir (λ l. first_found ∷ []) true [] (λ s. pos 0) false world
      (text "8 +++ 120 +++\n" ∷ []) (text "8 time(NULL) = 5") (text "8 exit(0)\n")
      (text "8 +++ 121 +++\n") (text "8") first_found [] refl refl refl (refl, tt) refl refl
      (refl, tt)

-- The marker, and a call behind it, with the event line of the call.
abbrev marked : List Syscall
marked = record time_call { name = text "syscall_983042" } ∷ time_call ∷ []

abbrev marked_lines : List Text
marked_lines =
    text "8 syscall_983042() = 0\n" ∷ text "8 +++ 120 +++\n" ∷ text "8 time(NULL) = 5" ∷ []

abbrev subject : Subject
subject = subject_for dir (text "8") 5 0 first_found

-- rr has made a process for the event.
abbrev ready_message : Message
ready_message = record {
  inject = some (text "true");
  event = some (text "120");
  pid = some (text "41");
  brks = some (text "[]");
}

abbrev stored : Statefile
stored = record { subject = subject; pid = none; brks = none }

abbrev waiting : Run
waiting = record {
  subjects = subject ∷ [];
  sub_idx = 0;
  files = (subject.injected_state_file, stored) ∷ [];
}

abbrev later : List Syscall
later = record time_call { ret_value = num (pos 1600); ret_label = str [] } ∷ []

supervisor_prepared_example :
    ((supervise ready_message (text "41") waiting).0 ≡ ok tt)
    × ((f : Statefile) × (read_file
            (text "41" ++ text "_" ++ subject.injected_state_file)
            (supervise ready_message (text "41") waiting).1.files
          ≡ ok f)
        × (prepare (config_of (λ t. []) f) (some (future_mutate (pos 100))) (time_call ∷ [])
            ≡ ok (ready 5 first_found [] (pos 41) later)))
unfolding crash_simulator.Replay.Messages.read_file crash_simulator.Py.same
    crash_simulator.Inject.Setup.consume_brks crash_simulator.Py.int crash_simulator.Py.parse_int
    future_mutate crash_simulator.Py.show_int subject_for crash_simulator.Test.Snip.event_number
    crash_simulator.Py.split_on crash_simulator.Py.starts_with crash_simulator.Base.◌+ℤ◌
supervisor_prepared_example =
    supervisor_prepared (λ t. []) dir (text "8") 5 0 first_found ready_message (text "[]")
      (text "41") waiting [] (pos 41) (future_mutate (pos 100)) (time_call ∷ []) later stored refl
      refl refl refl refl refl refl
