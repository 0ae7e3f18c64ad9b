-- ===== src/Crashsim/Runs.antt =====
-- src/crashsim.py: a whole run, from the recording to the replay
use mathlib.Core.List.{Perm}
use crash_simulator.Base.{
  ◌≡◌, refl, Bool, true, false, not, ◌||◌, Option, some, List, [], ◌∷◌, ◌++◌, map, ℤ, pos, All,
}
use crash_simulator.Py.{Text, Result, ok}
use crash_simulator.Mutator.Identify.{Opportunity}
use crash_simulator.Replay.Config.{Subject, get_configuration, events_str}
use crash_simulator.Replay.Config.Laws.{SortedByEvent}
use crash_simulator.Replay.Messages.{Message}
use crash_simulator.Replay.Session.{cleanup, replay-replayed}
use crash_simulator.Test.Opportunities.{
  Setup, recorded_pid, add_opportunities, identify_opportunities,
}
use crash_simulator.Test.Opportunities.Readback.{
  HasEvent, IsPlain, recorded, read-recorded, subjects_for, configuration_read_back,
}
use crash_simulator.Test.Ini.{as_section}
use crash_simulator.Py.ConfigParser.Plain.{is_plain}
use crash_simulator.Test.Create.Trimmed.{create_test_state}
use crash_simulator.Crashsim.{World, create, identify, call_replay, main}

module _ (test_dir : Text) (recorded_trace : List Text) (queue : List Text → List Opportunity)
    (piped : Bool) (messages : List (Option Message)) (wait : Text → ℤ) where
  -- The directory of the test, as create_test leaves it.
  abbrev created : World → List Text → World
  created w lines = record w {
    store = record { is_there = true; trace = some lines; saved = some (recorded test_dir) };
  }

  abbrev added : World → Text → List Opportunity → Result (Unit {0}) × Setup
  added w pid os =
      add_opportunities test_dir pid 5 0 os
        (record { ini = recorded test_dir; saved = recorded test_dir; snips = w.snips })

  abbrev identified : World → List Text → Setup → World
  identified w lines s = record w {
    store = record { is_there = true; trace = some lines; saved = some s.saved };
    snips = s.snips;
  }

  identify_created :
      (w : World) (lines : List Text) (pid : Text) (os : List Opportunity)
      → recorded_pid lines ≡ ok pid
      → queue lines ≡ os
      → is_plain test_dir ≡ true
      → identify test_dir (pos 0) recorded_trace queue piped messages wait (created w lines)
        ≡ ((added w pid os).0, identified w lines (added w pid os).1)
  unfolding identify identify_opportunities
  identify_created w lines pid os p q d =
      rw (identify, identify_opportunities, read-recorded test_dir d, p, q) refl

  call_replay-identified :
      (w : World) (lines : List Text) (s : Setup) (rr_dir : Text) (m : List Subject)
      → get_configuration (some (map as_section s.saved)) ≡ ok (rr_dir, m)
      → (call_replay test_dir
          (pos 0)
          recorded_trace
          queue
          piped
          messages
          wait
          (identified w lines s)).1.session.replayed
        ≡ some (events_str m, rr_dir)
  unfolding call_replay
  call_replay-identified w lines s rr_dir m h =
      replay-replayed piped (some (map as_section s.saved)) messages wait rr_dir m
        (cleanup w.session).1 h

-- A run that may write the directory of the test, whose recording ends well with a trace whose last two
-- lines are the exit call and its counter, and whose threads find an opportunity or more in the rest,
-- each with an rr event, where the directory, the pid and the names of the mutators have no space,
-- percent sign, semicolon or quote: rr is started with the directory of the test, and with the events of exactly
-- one subject for each opportunity, sorted by event.
pub rr_gets_opportunities :
    (test_dir : Text) (queue : List Text → List Opportunity) (piped : Bool)
    (messages : List (Option Message)) (wait : Text → ℤ) (force : Bool) (w : World)
    (body : List Text) (last exit counter pid : Text) (o : Opportunity) (os : List Opportunity)
    → not w.store.is_there || force ≡ true
    → recorded_pid (body ++ last ∷ []) ≡ ok pid
    → queue (body ++ last ∷ []) ≡ o ∷ os
    → All HasEvent (o ∷ os)
    → is_plain test_dir ≡ true
    → is_plain pid ≡ true
    → All IsPlain (o ∷ os)
    → (m : List Subject) × ((main test_dir
          (pos 0)
          (body ++ (last ++ 10 ∷ []) ∷ exit ∷ counter ∷ [])
          queue
          piped
          messages
          wait
          force
          false
          w).1.session.replayed
        ≡ some (events_str m, test_dir))
      × SortedByEvent m
      × Perm m (subjects_for test_dir pid 5 0 (o ∷ os))
unfolding main create
rr_gets_opportunities test_dir queue piped messages wait force w body last exit counter pid o os h p
      q a d t n =
    let lines = body ++ last ∷ [] in
    let trace = body ++ (last ++ 10 ∷ []) ∷ exit ∷ counter ∷ [] in
    let (ended, (m, read, sorted, perm)) =
      configuration_read_back test_dir pid 5 test_dir w.snips o os a d d t n in
    (
      m,
      rw
          (
            main,
            create,
            create_test_state test_dir force body last exit counter w.store h,
            create_test_state test_dir force body last exit counter w.store h,
            identify_created test_dir trace queue piped messages wait w lines pid (o ∷ os) p q d,
            ended,
          )
          (call_replay-identified test_dir trace queue piped messages wait w lines
            (added test_dir trace queue piped messages wait w pid (o ∷ os)).1 test_dir m read),
      sorted,
      perm,
    )
