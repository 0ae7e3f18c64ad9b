-- ===== src/Tests/Commands.antt =====
-- Runs of src/rreplay.py, src/inject.py, src/parse_syscall_definitions.py and src/mutator/UnusualFiletype.py.
use crash_simulator.Base.{
  ◌≡◌, refl, ◌↔◌, ℕ, true, false, ◌||◌, none, some, is_some, List, [], ◌∷◌, map, pos, inr,
}
use crash_simulator.Py.{Text, text, Value, str, ok, raised, type_error}
use crash_simulator.Syscall.{Syscall}
use crash_simulator.Replay.Pipe.{get_message}
use crash_simulator.Replay.Pipe.Messages.{is_empty, has_line, get_message_returns_iff}
use crash_simulator.Replay.Session.Interrupt.{
  processing, interrupted, session_at, status, interrupt_removes_files,
}
use crash_simulator.Replay.Session.{Session, main, main_removes_files}
use crash_simulator.Definitions.{parse_syscall_names_list}
use crash_simulator.Definitions.Names.{Entry, output_of, parse_syscall_names_list_lem}
use crash_simulator.Mutator.Filetype.{mutate_syscalls}
use crash_simulator.Mutator.Filetype.First.{first_stat_mutated}
use crash_simulator.Mutator.Filetype.Words.{AllWritten}
use crash_simulator.Tests.Data.{open_a}

get_message_returns_iff_example :
    ((fuel : ℕ) × (is_some (get_message fuel (text "{}\n")) ≡ true))
    ↔ ((is_empty (text "{}\n") || has_line (text "{}\n")) ≡ true)
get_message_returns_iff_example = get_message_returns_iff (text "{}\n")

abbrev session : Session
session = record {
  proc_file = true;
  pipe = true;
  files = [];
  outcome = record { killed = []; reported = [] };
  replayed = none;
}

main_removes_files_example :
    ((main true none [] (λ s. pos 0) true session).1.proc_file ≡ false)
    × ((main true none [] (λ s. pos 0) true session).1.pipe ≡ false)
main_removes_files_example = main_removes_files true none [] (λ s. pos 0) true session

interrupt_removes_files_example :
    let (e, t) =
      interrupted (session_at true [] (λ s. pos 0) (text "/rr/") [] (processing 0) session) in
    (e ≡ status true [] (λ s. pos 0) (text "/rr/") [] (processing 0))
    × (t.proc_file ≡ false)
    × (t.pipe ≡ false)
interrupt_removes_files_example =
    interrupt_removes_files true [] (λ s. pos 0) (text "/rr/") [] (processing 0) session

abbrev manuals : List Entry
manuals =
    record { name = text "dup"; description = text "(2)" }
    ∷ record { name = text "dup2"; description = text "-" }
    ∷ []

parse_syscall_names_list_lem_example :
    parse_syscall_names_list (output_of manuals) ≡ map (λ e. e.name) manuals
unfolding text
parse_syscall_names_list_lem_example = parse_syscall_names_list_lem manuals (
  ((refl, (refl, (refl, tt))), (refl, (refl, (refl, tt)))),
  (((refl, (refl, (refl, (refl, tt)))), (refl, tt)), tt),
)

abbrev stat_mode : Syscall
stat_mode = record open_a {
  name = text "stat64";
  args = map str (text "a" ∷ text "st_mode=S_IFREG|0664" ∷ []);
}

first_stat_mutated_example :
    ((written : List Text) × AllWritten
        (text "S_IFCHR")
        (text "a" ∷ text "st_mode=S_IFREG|0664" ∷ [])
        written
      × (mutate_syscalls
            (text "S_IFCHR")
            (λ v. false)
            (some (text "a"))
            none
            (open_a ∷ stat_mode ∷ [])
          ≡ (ok tt, open_a ∷ record stat_mode { args = map str written } ∷ [])))
    × (mutate_syscalls (text "S_IFCHR") (λ v. false) (some (text "a")) none (open_a ∷ [])
        ≡ (raised type_error, open_a ∷ []))
unfolding crash_simulator.Mutator.Filetype.is_at crash_simulator.Py.starts_with
    crash_simulator.Syscall.arg crash_simulator.Py.value_eq crash_simulator.Py.same
    crash_simulator.Py.is_in text
first_stat_mutated_example =
    first_stat_mutated (text "S_IFCHR") (λ v. false) (some (text "a")) none (open_a ∷ []) []
      stat_mode (text "a" ∷ text "st_mode=S_IFREG|0664" ∷ []) refl (inr (inr (refl, refl)), tt)
      (inr (refl, refl, refl)) refl
