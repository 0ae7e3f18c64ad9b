-- ===== src/Tests/Whole.antt =====
-- A whole run of src/crashsim.py with a time mutator.
use crash_simulator.Base.{
  ◌≡◌, refl, ℕ, true, false, Option, none, some, List, [], ◌∷◌, ◌++◌, map, pos, if◌then◌else◌,
}
use crash_simulator.Py.{Text, text, same, ok}
use crash_simulator.Syscall.{Syscall}
use crash_simulator.TraceManager.{Entry, find_entry}
use crash_simulator.Producer.{filling}
use crash_simulator.Producer.Stream.{pairs, view}
use crash_simulator.Producer.Schedule.{start, produces, reads}
use crash_simulator.Producer.Schedule.Drain.{Ended}
use crash_simulator.Mutator.Identify.Opportunities.{time_calls}
use crash_simulator.Crashsim.Whole.{Turn, produce, read, after, found, Served, time_calls_replayed}
use crash_simulator.Tests.Data.{time_call}
use crash_simulator.Tests.Setups.{dir, world}

abbrev header : Text
header = text "8 syscall_983042"

abbrev parse_as_time : Text → Option Syscall
parse_as_time l =
    some (record time_call { name = if same l header then text "syscall_983042" else text "time" })

abbrev rest : List Text
rest = text "8 +++ 120 +++\n" ∷ text "8 time(NULL) = 5" ∷ []

abbrev entries : List Entry
entries = record { id = text "id"; index = pos 0 } ∷ []

abbrev turns : List Turn
turns = produce ∷ read (text "id") 1 ∷ produce ∷ []

turns-Ended :
    Ended parse_as_time 1 0
      (text "id")
      1
      (after parse_as_time 1 0 turns (start parse_as_time 1 0 (filling 3) entries rest))
unfolding find_entry same text produces crash_simulator.Producer.produce_step reads start after
    crash_simulator.Crashsim.Whole.take_turn
    crash_simulator.TraceManager.get_next_syscall_trace_package crash_simulator.Base.◌-ℤ◌
    crash_simulator.Base.◌+ℤ◌ crash_simulator.TraceManager.producer_done
turns-Ended = record { registered = refl; done = refl; file_read = refl }

time_calls_replayed_example :
    (k : ℕ) × Served dir true []
      (λ s. pos 0)
      false
      world
      (header ∷ text "8 +++ 120 +++\n" ∷ [])
      (text "8 time(NULL) = 5")
      (text "8 exit(0)\n")
      (text "8 +++ 121 +++\n")
      (found parse_as_time 1 0 (text "id") 1 (text "FutureTimeMutator") (filling 3) entries turns k)
      (time_calls (map (view parse_as_time) (pairs rest)))
unfolding crash_simulator.Py.ConfigParser.Plain.is_plain
    crash_simulator.Test.Opportunities.recorded_pid crash_simulator.Py.word_of text same
    crash_simulator.Test.Snip.event_number crash_simulator.Py.split_on
    crash_simulator.Py.starts_with crash_simulator.Py.int crash_simulator.Py.parse_int
    crash_simulator.Producer.skip_header time_calls crash_simulator.Py.is_in
time_calls_replayed_example =
    time_calls_replayed parse_as_time 1 0 (text "id") 1 (text "FutureTimeMutator") (filling 3)
      entries turns dir true [] (λ s. pos 0) false world (header ∷ text "8 +++ 120 +++\n" ∷ [])
      (text "8 time(NULL) = 5") (text "8 exit(0)\n") (text "8 +++ 121 +++\n") (text "8") rest
      (text "8 +++ 120 +++\n", some (record time_call { name = text "time" })) [] refl refl refl
      (refl, tt) refl turns-Ended (refl, tt) refl (refl, tt) refl refl refl
