-- ===== src/Lib.antt =====
-- CrashSimulator: the recording, the trace window, the mutators, the replay and the checkers.
--
-- CrashSimulator records a program with rr, rewrites the recorded system calls with mutators, replays
-- the program against the rewritten trace, and has checkers judge what the program did. The library
-- models the parts that decide: how a test is created and configured, how a trace is streamed to the
-- mutators, how they find opportunities in it and rewrite it, how calls are dispatched and process
-- sets assigned in a replay, and what each checker accepts.
--
-- Parts and files:
--   Base, Py        shared names; numbers, lists; texts, values and exceptions of Python 2. A method
--                   is a function from the object to a result beside the object afterwards, so what
--                   is written before a raise stays written. Py.Regex is the search of `re`, with
--                   backtracking, for the constructs that src/mutator/interrupted_close.py uses;
--                   Py.ConfigParser is how a value of config.ini is read and interpolated.
--   Syscall         a parsed call. The parser, posix_omni_parser, is not in the repository: what the
--                   code reads of its objects is a record.
--   Checker         src/checker/checker.py: one module per automaton, its `self.states` as a data
--                   type and `transition`, `is_accepting` as functions; a child Correct with the
--                   verdict. Classes has the checkers made of the automata, and analyze_test of
--                   src/rrtest.py. Trace and Calls hold the descriptions of traces that the verdicts
--                   are stated with.
--   TraceManager    src/TraceManager.py: the window of parsed calls and the index of each mutator.
--   Producer        src/Producer.py: produce, one step for each section under the lock. Schedule
--                   interleaves it with the mutators as a step relation.
--   Mutator         src/mutator/: mutate_syscalls of FutureTime, ReverseTime, CrossdiskRename,
--                   FsyncNoSpace and UnusualFiletype (Filetype); Identify has next_syscall and the
--                   identify_lines of every mutator; Between, Stat64, Connect and Close are
--                   find_syscall_between_indexes and the mutators of lines; Simple has what Null,
--                   Delay and ASAP do to a recording, and the constructor of UnusualFiletype.
--   Inject          src/inject.py: handle_syscall, handle_socketcall and debug_handle_syscall with
--                   their tables, parse_backing_files, and the loop of main. The handlers are
--                   syscallreplay's, and are fields of a record that the functions take. Setup is
--                   main before it attaches, Exit is exit_with_status and _kill_parent_process, and
--                   Main is main from the configuration to its end.
--   Replay          src/rreplay.py: get_configuration, create_event_configuration_files, the event
--                   string, process_messages and wait_on_handles; Messages.Supervisor goes on to the
--                   main of src/inject.py. Pipe is get_message, Session is cleanup, execute_rr,
--                   call_replay and main, and its child Interrupt the end by SIGINT.
--   Test            src/rrtest.py and src/identify_opportunities.py: Create is create_test, Copy is
--                   rr_copy, on trees of files, Configure is configure_test, Opportunities is the
--                   loop from the queue of opportunities to config.ini, Main is the dispatch of the
--                   commands. Ini is what they use of ConfigParser, and Snip the writing of a
--                   snippet of the trace. Readback, Null and Traceline go on to the
--                   get_configuration of src/rreplay.py.
--   Definitions     src/parse_syscall_definitions.py; the class SyscallManual is not in the
--                   repository, and is a record that the functions take.
--   Init            src/rrinit.py: the checks of main.
--   Crashsim        src/crashsim.py: main, which composes create_test, identify_opportunities and
--                   call_replay, each as it stands in the modules above. Whole puts the threads of
--                   Producer, TraceManager and Mutator before it.
--   Rrdump          rrdump/build/lib.linux-i686-2.7/rrdump/rrdump.py, which rr calls: Tables and
--                   Sharing are about the lists of open files, which threads share by reference,
--                   Family about the calls that are recorded, Dumps about the files, and Messages
--                   about the pipe that get_message of src/rreplay.py reads.
--   Tests           runs on small inputs.
--
-- Bounds: only get_message of Replay.Pipe, the loop of Inject.Main, the digits of a number in
-- Py.Search and the interpolation of a value in Py.ConfigParser have fuel. The rounds of
-- get_message are a parameter, and a line needs one round for each of its characters and one more.
-- Those of the loop are a parameter too, and two for each call of the snippet are enough in a run
-- whose handlers leave the index as it is; a forger may move it. A number has fewer digits than
-- its value and one, which is the fuel that it gets. The interpolation goes down ten levels, which
-- is ConfigParser's own bound. Every other loop of the source that is modelled goes over a list,
-- or a range of known length, and is structural recursion. The second loop of produce does not end
-- by itself and is one step per round, and process_messages recurses on the messages that arrive,
-- whose end is the ValueError of an empty message. Python's integers have no bound, and neither
-- has ℤ here.
--
-- Not modelled: logging; argument parsing; the files themselves, where only their contents matter to
-- the code (the JSON files, config.ini, the trace and its snippets are modelled, as values); ptrace,
-- rr and other processes, whose exit statuses and outputs are parameters; the threads as such, beside
-- the interleaving of Producer.Schedule; the installation.
pub mod Base
pub mod Py
pub mod Syscall
pub mod Checker
pub mod TraceManager
pub mod Producer
pub mod Rrdump
pub mod Mutator
pub mod Inject
pub mod Replay
pub mod Tests
pub mod Test
pub mod Init
pub mod Definitions
pub mod Crashsim
