-- ===== src/Tests/Dumps.antt =====
-- Runs of rrdump.py.
use crash_simulator.Base.{
  ◌≡◌, ◌≢◌, refl, ℕ, true, false, Option, none, some, List, [], ◌∷◌, map, length, All, ℤ, pos, eq_ℤ,
  arith,
}
use crash_simulator.Py.{Text, text, ok, for_each}
use crash_simulator.Rrdump.{
  Call, State, imported, Dump, dump, dump_name, process_syscall, process_time, write_to_pipe,
  missing,
}
use crash_simulator.Rrdump.Tables.{recording, tables_stay_standard}
use crash_simulator.Rrdump.Sharing.{Inherits, clone_shares_iff}
use crash_simulator.Rrdump.Family.{is_ok, is_family, family_recorded}
use crash_simulator.Rrdump.Messages.{before, stream, receive, as_line, messages_received}
use crash_simulator.Rrdump.Dumps.{read_file, dump_states, last_dump, dumps_read_back}

abbrev clone : ℕ → ℤ → ℤ → Call
clone flags parent child = record {
  rec_tid = parent;
  name = text "clone";
  entering = false;
  arg1_unsigned = flags;
  result = child;
}

abbrev opening : Call
opening = record {
  rec_tid = pos 8;
  name = text "open";
  entering = false;
  arg1_unsigned = 0;
  result = pos 3;
}

-- A thread with a file opened makes a thread, which makes a process.
abbrev calls : List Call
calls = clone 3840 (pos 8) (pos 9) ∷ clone 17 (pos 9) (pos 10) ∷ []

tables_stay_standard_example :
    All {A = ℤ × List ℕ}
      (λ x. x.1 ≡ 0 ∷ 1 ∷ 2 ∷ [])
      (dump (recording (opening ∷ calls) imported)).fds
tables_stay_standard_example = tables_stay_standard (opening ∷ calls)

family_recorded_example :
    (is_ok (for_each process_syscall (opening ∷ calls) imported).0
      ≡ is_family (pos 8 ∷ []) (opening ∷ calls))
    × ((for_each process_syscall (opening ∷ calls) imported).0 ≡ ok tt
        → (for_each process_syscall (opening ∷ calls) imported).1.syscalls_made ≡ opening ∷ calls)
family_recorded_example = family_recorded opening calls (λ e. not_zero e)
  where
    not_zero : pos 8 ≢ pos 0
    not_zero e = ground (arith, e)

-- Two threads that share a list.
abbrev shared : State
shared = record imported {
  initial_tid = some (pos 8);
  open_fds = (pos 8, 0) ∷ (pos 9, 0) ∷ [];
  lists = (0 ∷ 1 ∷ 2 ∷ []) ∷ [];
}

clone_shares_iff_example :
    ((process_syscall (clone 17 (pos 9) (pos 10)) shared).0 ≡ ok tt)
    × ((r' : ℕ) × Inherits
          (clone 17 (pos 9) (pos 10))
          shared
          0
          (process_syscall (clone 17 (pos 9) (pos 10)) shared).1
          r')
unfolding crash_simulator.Rrdump.is_unset crash_simulator.Rrdump.is_clone_exit
    crash_simulator.Rrdump.get_key crash_simulator.Py.same text crash_simulator.Base.eq_ℤ
clone_shares_iff_example =
    clone_shares_iff (clone 17 (pos 9) (pos 10)) shared 0 (omega arith) refl refl refl

messages_received_example :
    let p =
      (for_each write_to_pipe (map as_line (text "ready" ∷ text "done" ∷ [])) (before missing)).1 in
    receive 10 2 (missing ∷ missing ∷ p.node ∷ []) [] (stream p.sent)
    ≡ some (map as_line (text "ready" ∷ text "done" ∷ []), [])
unfolding crash_simulator.Replay.Pipe.Messages.has_line text
messages_received_example =
    messages_received (missing ∷ missing ∷ []) [] 10 (text "ready") (text "done" ∷ [])
      (refl, (refl, tt)) ((refl, omega arith), ((refl, omega arith), tt))

dumps_read_back_example :
    read_file
      (dump_name (pos 120))
      (dump_states ((pos 120, shared) ∷ (pos 121, process_time (pos 5) shared) ∷ []) [])
    ≡ last_dump
        (pos 120)
        ((pos 120, shared) ∷ (pos 121, process_time (pos 5) shared) ∷ [])
        (read_file (dump_name (pos 120)) [])
dumps_read_back_example =
    dumps_read_back (pos 120) ((pos 120, shared) ∷ (pos 121, process_time (pos 5) shared) ∷ []) []

-- The clone with CLONE_FILES shares the list, the other one does not.
dumped_keys :
    (recording (opening ∷ calls) imported).open_fds ≡ (pos 8, 0) ∷ (pos 9, 0) ∷ (pos 10, 1) ∷ []
unfolding recording process_syscall crash_simulator.Rrdump.is_unset
    crash_simulator.Rrdump.is_clone_exit crash_simulator.Rrdump.get_key
    crash_simulator.Rrdump.clone_files crash_simulator.Py.same text crash_simulator.Base.eq_ℤ
    crash_simulator.Rrdump.put_key
dumped_keys = refl
