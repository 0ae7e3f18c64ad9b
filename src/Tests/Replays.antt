-- ===== src/Tests/Replays.antt =====
-- Runs of src/inject.py and src/rreplay.py.
use crash_simulator.Base.{◌≡◌, refl, Option, none, some, List, [], ◌∷◌, map, ◌++◌}
use crash_simulator.Py.{Text, text, same, ok, raised, index_error}
use crash_simulator.Inject.Backing.{parse_backing_files}
use crash_simulator.Inject.Backing.Laws.{avoids, show_pairs, store_all, parse-show}
use crash_simulator.Replay.Config.{Files, Statefile, Subject}
use crash_simulator.Replay.Messages.{Message, Run, less, process_message, process_messages}
use crash_simulator.Replay.Messages.Laws.{past_last_subject_raises}
use crash_simulator.Replay.Messages.Sync.{is_stored}
use crash_simulator.Replay.Messages.Complete.{Step, supervised, subjects_of, every_subject_served}

abbrev two_pairs : List (Text × Text)
two_pairs = (text "1", text "/tmp/a") ∷ (text "2", text "/tmp/b") ∷ []

parse-show_example : parse_backing_files (show_pairs two_pairs) ≡ ok (store_all two_pairs [])
unfolding avoids text
parse-show_example =
    parse-show (text "1", text "/tmp/a") ((text "2", text "/tmp/b") ∷ [])
      ((refl, refl, refl), ((refl, refl, refl), tt))

abbrev subject : Text → Option Text → List Text → Subject
subject event handle other_procs = record {
  event = event;
  rec_pid = text "1100";
  trace_file = text "trace_snip0.strace";
  trace_start = text "0";
  trace_end = text "5";
  mutator = text "NullMutator(70)";
  injected_state_file = event ++ text "_NullMutator(70)_state.json";
  other_procs = other_procs;
  mmap_backing_files = none;
  checker = none;
  handle = handle;
}

abbrev sub_38 : Subject
sub_38 = subject (text "38") none []

abbrev sub_140 : Subject
sub_140 = subject (text "140") none []

abbrev message : Text → Message
message event = record {
  inject = some (text "true");
  event = some event;
  pid = some (text "120");
  brks = some [];
}

abbrev waiting : Subject → Run
waiting s = record { subjects = s ∷ []; sub_idx = 0; files = [] }

past_last_subject_raises_example :
    process_message (message (text "178")) (waiting sub_140) ≡ (raised index_error, waiting sub_140)
unfolding less text
past_last_subject_raises_example =
    past_last_subject_raises (message (text "178")) (text "178") (text "120") (waiting sub_140)
      sub_140 (refl, refl, refl) refl refl (refl, tt)

abbrev state_140 : Statefile
state_140 = record { subject = sub_140; pid = none; brks = none }

abbrev state_38 : Statefile
state_38 = record { subject = sub_38; pid = none; brks = none }

abbrev step : Subject → Step
step s = record { subject = s; message = message s.event; pid = text "120"; brks = [] }

-- The last two use the same event configuration.
abbrev steps : List Step
steps = step sub_38 ∷ step sub_140 ∷ step sub_140 ∷ []

abbrev stored : Files
stored = (sub_38.injected_state_file, state_38) ∷ (sub_140.injected_state_file, state_140) ∷ []

every_subject_served_example :
    (process_messages
        (map (λ x. some x.message) steps)
        (record { subjects = subjects_of steps; sub_idx = 0; files = stored })).0
      ≡ ok tt
    × ((process_messages
          (map (λ x. some x.message) steps)
          (record { subjects = subjects_of steps; sub_idx = 0; files = stored })).1.subjects
        ≡ map supervised steps)
unfolding is_stored same text
every_subject_served_example =
    every_subject_served steps stored
      (((refl, refl, refl), refl), (((refl, refl, refl), refl), (((refl, refl, refl), refl), tt)))
      (refl, (refl, (refl, tt)))
