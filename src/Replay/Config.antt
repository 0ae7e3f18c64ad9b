-- ===== src/Replay/Config.antt =====
-- src/rreplay.py: get_configuration, create_event_configuration_files and the event string of
-- execute_rr
pub mod Laws
use crash_simulator.Base.{
  Bool, true, false, Option, none, some, List, [], ◌∷◌, ◌++◌, map, if◌then◌else◌, ℤ, leb_ℤ,
}
use crash_simulator.Py.{
  Text, text, same, str, int, Result, ok, raised, io_error, index_error, no_option, no_section,
  then_try, is_no_option,
}
use crash_simulator.Py.ConfigParser.{Section, get}

-- The dict of a test subject. `handle` is the supervisor process, by the name of the configuration it
-- was started with.
pub record Subject : Type 0 where
  pub event : Text
  pub rec_pid : Text
  pub trace_file : Text
  pub trace_start : Text
  pub trace_end : Text
  pub mutator : Text
  pub injected_state_file : Text
  pub other_procs : List Text
  pub mmap_backing_files : Option Text
  pub checker : Option Text
  pub handle : Option Text

-- except ConfigParser.NoOptionError
abbrev pub unless_missing : Result Text → Result (Option Text)
unless_missing (ok v) = ok (some v)
unless_missing (raised e) = if is_no_option e then ok none else raised e

-- An option that may be missing
abbrev pub get_optional : Section → Text → Result (Option Text)
get_optional i name = unless_missing (get i name)

unfoldable pub subject_of : Section → Result Subject
unfolding text get
subject_of i = then_try (get i (text "event")) λ event. then_try (get i (text "pid")) λ pid.
    then_try (get i (text "trace_file")) λ trace_file.
      then_try (get i (text "trace_start")) λ trace_start.
        then_try (get i (text "trace_end")) λ trace_end.
          then_try (get i (text "mutator")) λ mutator.
            then_try (get_optional i (text "mmap_backing_files")) λ mmap_backing_files.
              then_try (get_optional i (text "checker")) λ checker. ok (record {
                event = event;
                rec_pid = pid;
                trace_file = trace_file;
                trace_start = trace_start;
                trace_end = trace_end;
                mutator = mutator;
                injected_state_file = event ++ text "_" ++ mutator ++ text "_state.json";
                other_procs = [];
                mmap_backing_files = mmap_backing_files;
                checker = checker;
                handle = none;
              })

unfoldable pub subjects_of : List Section → Result (List Subject)
unfolding subject_of
subjects_of [] = ok []
subjects_of (i ∷ l) = then_try (subject_of i) λ s. then_try (subjects_of l) λ rest. ok (s ∷ rest)

-- subjects.sort(key=_sort_by_event): every key is computed first, and equal keys keep their order.
unfoldable pub keyed : List Subject → Result (List (ℤ × Subject))
keyed [] = ok []
keyed (s ∷ l) = then_try (int (str s.event)) λ k. then_try (keyed l) λ rest. ok ((k, s) ∷ rest)

unfoldable pub insert : ℤ × Subject → List (ℤ × Subject) → List (ℤ × Subject)
insert x [] = x ∷ []
insert x (y ∷ l) = let rest = insert x l in if leb_ℤ x.0 y.0 then x ∷ y ∷ l else y ∷ rest

unfoldable pub sort_keyed : List (ℤ × Subject) → List (ℤ × Subject)
unfolding insert
sort_keyed [] = []
sort_keyed (x ∷ l) = insert x (sort_keyed l)

unfoldable pub sort_by_event : List Subject → Result (List Subject)
unfolding keyed sort_keyed
sort_by_event l = then_try (keyed l) λ k. ok (map (λ x. x.1) (sort_keyed k))

unfoldable pub configuration_of : List Section → Result (Text × List Subject)
unfolding subjects_of sort_by_event text get
configuration_of [] = raised index_error
configuration_of (first ∷ sections) = then_try (get first (text "rr_dir")) λ rr_dir.
    then_try (some_section sections) λ l.
      then_try (subjects_of l)
        λ subjects. then_try (sort_by_event subjects) λ sorted. ok (rr_dir, sorted)
  where
    some_section : List Section → Result (List Section)
    some_section [] = raised no_section
    some_section (s ∷ l) = ok (s ∷ l)

-- `none` is an INI file that could not be read.
unfoldable pub get_configuration : Option (List Section) → Result (Text × List Subject)
unfolding configuration_of
get_configuration none = raised io_error
get_configuration (some sections) = configuration_of sections

-- The JSON files: a subject's dict, and the fields that process_messages adds.
pub record Statefile : Type 0 where
  pub subject : Subject
  pub pid : Option Text
  pub brks : Option Text

abbrev pub Files : Type 0
Files = List (Text × Statefile)

unfoldable pub write_file : Text → Statefile → Files → Files
write_file name f [] = (name, f) ∷ []
write_file name f ((n, g) ∷ d) =
    let rest = write_file name f d in if same name n then (n, f) ∷ d else (n, g) ∷ rest

unfoldable pub create_event_configuration_files : List Subject → Files → Files
unfolding write_file
create_event_configuration_files [] d = d
create_event_configuration_files (s ∷ l) d =
    create_event_configuration_files l
      (write_file s.injected_state_file (record { subject = s; pid = none; brks = none }) d)

-- events_str
unfoldable pub events_str : List Subject → Text
unfolding text
events_str [] = []
events_str (i ∷ l) = (i.rec_pid ++ text ":" ++ i.event ++ text ",") ++ events_str l
