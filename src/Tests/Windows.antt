-- ===== src/Tests/Windows.antt =====
-- Runs of src/TraceManager.py and src/Producer.py.
use crash_simulator.Base.{
  ◌≡◌, refl, ℕ, zero, suc, ◌⊎◌, inr, true, false, Option, none, some, List, [], ◌∷◌, ◌++◌, map, pos,
}
use crash_simulator.Py.{Text, text, same, ok}
use crash_simulator.Syscall.{Syscall}
use crash_simulator.TraceManager.{
  Manager, Line, Entry, find_entry, advance, get_next_syscall_trace_package, get_backlog,
}
use crash_simulator.TraceManager.Reads.{At, get_next_delivers}
use crash_simulator.Producer.{filling}
use crash_simulator.Producer.Stream.{pairs, view, seen}
use crash_simulator.Producer.Schedule.Drain.{polls, Ended, every_call_delivered}
use crash_simulator.Producer.Schedule.{
  World, produce, read, Reach, here, next, produces, reads, start, delivered_in_order,
}
use crash_simulator.Mutator.Identify.{examine_time, identify_lines}
use crash_simulator.Mutator.Identify.Opportunities.{offered, time_calls, every_time_call_offered}
use crash_simulator.Tests.Data.{time_call, stat_a, open_a, fstat_3}

abbrev line : Text → Text → Line
line e t = record { event_line = e; trace_line = t }

abbrev reader : Entry
reader = record { id = text "id"; index = pos 1 }

-- Two calls, the second of which is next, and the producer has ended.
abbrev window : Manager
window = record {
  producer_running = false;
  syscall_objects = some stat_a ∷ some open_a ∷ [];
  trace = line (text "1") (text "stat64") ∷ line (text "2") (text "open") ∷ [];
  mutators = reader ∷ [];
}

reader-At : At window (text "id") 0 1
unfolding find_entry same text
reader-At = record { entry = reader; found = refl; stored = refl; index = refl }

get_next_delivers_example : get_next_syscall_trace_package (text "id") 5 window ≡ (
  ok (some (record { syscall = some open_a; event = text "2"; trace = text "open" ∷ [] })),
  record window { mutators = advance 0 (reader ∷ []) },
)
get_next_delivers_example =
    get_next_delivers window (text "id") 5 0 1 (some open_a) (line (text "2") (text "open"))
      reader-At refl refl refl

-- A parser that reads every line as the same call.
abbrev parse : Text → Option Syscall
parse l = some fstat_3

abbrev entries : List Entry
entries = record { id = text "id"; index = pos 0 } ∷ []

abbrev lines : List Text
lines = text "1" ∷ text "fstat64" ∷ text "2" ∷ text "fstat64" ∷ []

abbrev world : World
world = start parse 1 0 (filling 2) entries lines

-- The producer reads a pair, the mutator asks, and the producer goes on.
abbrev schedule :
    Reach parse 1 0 world
      (produces parse 1 0 (reads parse 1 0 (text "id") 1 (produces parse 1 0 world)))
schedule =
    next (next (next here (produce world)) (read (text "id") 1 (produces parse 1 0 world)))
      (produce (reads parse 1 0 (text "id") 1 (produces parse 1 0 world)))

delivered_in_order_example :
    (later : List (Text × Option Syscall)) × (map
          (seen parse)
          (produces parse 1 0 (reads parse 1 0 (text "id") 1 (produces parse 1 0 world))).delivered
        ++ later
      ≡ map (view parse) (pairs lines))
delivered_in_order_example =
    delivered_in_order parse 1 0 (filling 2) entries lines (refl, tt) refl schedule

-- A parser that reads every line as a call of time.
abbrev clock : Text → Option Syscall
clock l = some time_call

-- The file ends while the window is filled.
abbrev filled : World
filled = start clock 1 0 (filling 3) entries lines

abbrev turns : ℕ → World
turns zero = reads clock 1 0 (text "id") 1 (produces clock 1 0 filled)
turns (suc n) = produces clock 1 0 (turns n)

turns_reached : (n : ℕ) → Reach clock 1 0 filled (turns n)
turns_reached zero =
    next (next here (produce filled)) (read (text "id") 1 (produces clock 1 0 filled))
turns_reached (suc n) = next (turns_reached n) (produce (turns n))

turns-Ended : Ended clock 1 0 (text "id") 1 (turns 2)
unfolding find_entry same text produces crash_simulator.Producer.produce_step reads start
    get_next_syscall_trace_package crash_simulator.Base.◌-ℤ◌ crash_simulator.Base.◌+ℤ◌
    crash_simulator.TraceManager.producer_done
turns-Ended = record { registered = refl; done = refl; file_read = refl }

every_call_delivered_example :
    (k : ℕ) × (map (seen clock) (polls clock 1 0 (text "id") 1 k (turns 2)).delivered
      ≡ map (view clock) (pairs lines))
every_call_delivered_example =
    every_call_delivered clock 1 0 (text "id") 1 (filling 3) entries lines (refl, tt) refl
      (turns_reached 2) turns-Ended

every_time_call_offered_example :
    (k : ℕ) × (let (r, q) =
        identify_lines
          (examine_time (text "FutureTimeMutator"))
          (polls clock 1 0 (text "id") 1 k (turns 2)).delivered
          [] in
      (r ≡ ok tt) × (offered q ≡ time_calls (map (view clock) (pairs lines))))
every_time_call_offered_example =
    every_time_call_offered clock 1 0 (text "id") 1 (text "FutureTimeMutator") (filling 3) entries
      lines (refl, tt) refl (turns_reached 2) turns-Ended (refl, (refl, tt))
