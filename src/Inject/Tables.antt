-- ===== src/Inject/Tables.antt =====
-- src/inject.py: the tables of `handle_syscall` and `handle_socketcall`. The handlers themselves are
-- functions of the syscallreplay package; a table holds their names.
use crash_simulator.Base.{ℕ, Bool, true, false, List, [], ◌∷◌}
use crash_simulator.Py.{Text, text}

pub data Handler : Type 0 where
  read_entry_handler write_entry_handler open_entry_handler close_entry_handler : Handler
  unlink_entry_handler time_entry_handler syscall_return_success_handler rename_entry_handler :
      Handler
  times_entry_handler brk_entry_handler brk_exit_handler ioctl_entry_handler : Handler
  gettimeofday_entry_handler readlink_entry_handler check_return_value_entry_handler : Handler
  check_return_value_exit_handler fchmod_entry_handler uname_entry_handler llseek_entry_handler :
      Handler
  llseek_exit_handler select_entry_handler writev_entry_handler poll_entry_handler : Handler
  rt_sigaction_entry_handler getcwd_entry_handler sendfile_entry_handler mmap2_entry_handler :
      Handler
  mmap2_exit_handler stat64_entry_handler lstat64_entry_handler fstat64_entry_handler : Handler
  fchown_entry_handler getdents64_entry_handler fcntl64_entry_handler : Handler
  epoll_create_entry_handler epoll_ctl_entry_handler epoll_wait_entry_handler : Handler
  clock_gettime_entry_handler openat_entry_handler fstatat64_entry_handler : Handler
  fchmodat_entry_handler utimensat_entry_handler eventfd2_entry_handler socket_entry_handler :
      Handler
  accept_subcall_entry_handler bind_entry_handler listen_entry_handler : Handler
  recv_subcall_entry_handler setsockopt_entry_handler send_entry_handler connect_entry_handler :
      Handler
  getsockopt_entry_handler shutdown_subcall_entry_handler getsockname_entry_handler : Handler
  getpeername_entry_handler : Handler

pub data Forger : Type 0 where
  time_forger gettimeofday_forger clock_gettime_forger : Forger

-- The names of debug printers.
pub data Printer : Type 0 where
  write_entry_debug_printer open_entry_debug_printer : Printer
  fstat64_entry_debug_printer writev_entry_debug_printer : Printer

-- The keys of `handlers`: a system call's id, and whether it is being entered.
pub record Entry : Type 0 where
  pub id : ℕ
  pub entering : Bool
  pub handler : Handler

abbrev pub entry : ℕ → Bool → Handler → Entry
entry id entering handler = record { id = id; entering = entering; handler = handler }

unfoldable pub handlers : List Entry
handlers =
    entry 3 true read_entry_handler
    ∷ entry 4 true write_entry_handler
    ∷ entry 5 true open_entry_handler
    ∷ entry 6 true close_entry_handler
    ∷ entry 10 true unlink_entry_handler
    ∷ entry 13 true time_entry_handler
    ∷ entry 15 true syscall_return_success_handler
    ∷ entry 24 true syscall_return_success_handler
    ∷ entry 27 true syscall_return_success_handler
    ∷ entry 33 true syscall_return_success_handler
    ∷ entry 38 true rename_entry_handler
    ∷ entry 41 true syscall_return_success_handler
    ∷ entry 43 true times_entry_handler
    ∷ entry 45 true brk_entry_handler
    ∷ entry 45 false brk_exit_handler
    ∷ entry 49 true syscall_return_success_handler
    ∷ entry 54 true ioctl_entry_handler
    ∷ entry 60 true syscall_return_success_handler
    ∷ entry 63 true syscall_return_success_handler
    ∷ entry 78 true gettimeofday_entry_handler
    ∷ entry 85 true readlink_entry_handler
    ∷ entry 91 true check_return_value_entry_handler
    ∷ entry 91 false check_return_value_exit_handler
    ∷ entry 94 true fchmod_entry_handler
    ∷ entry 122 true uname_entry_handler
    ∷ entry 140 true llseek_entry_handler
    ∷ entry 140 false llseek_exit_handler
    ∷ entry 142 true select_entry_handler
    ∷ entry 146 true writev_entry_handler
    ∷ entry 168 true poll_entry_handler
    ∷ entry 174 true rt_sigaction_entry_handler
    ∷ entry 183 true getcwd_entry_handler
    ∷ entry 187 true sendfile_entry_handler
    ∷ entry 192 true mmap2_entry_handler
    ∷ entry 192 false mmap2_exit_handler
    ∷ entry 195 true stat64_entry_handler
    ∷ entry 196 true lstat64_entry_handler
    ∷ entry 197 true fstat64_entry_handler
    ∷ entry 199 true syscall_return_success_handler
    ∷ entry 200 true syscall_return_success_handler
    ∷ entry 201 true syscall_return_success_handler
    ∷ entry 202 true syscall_return_success_handler
    ∷ entry 207 true fchown_entry_handler
    ∷ entry 219 true syscall_return_success_handler
    ∷ entry 220 true getdents64_entry_handler
    ∷ entry 221 true fcntl64_entry_handler
    ∷ entry 250 true syscall_return_success_handler
    ∷ entry 254 true epoll_create_entry_handler
    ∷ entry 255 true epoll_ctl_entry_handler
    ∷ entry 256 true epoll_wait_entry_handler
    ∷ entry 265 true clock_gettime_entry_handler
    ∷ entry 272 true syscall_return_success_handler
    ∷ entry 330 true syscall_return_success_handler
    ∷ entry 295 true openat_entry_handler
    ∷ entry 300 true fstatat64_entry_handler
    ∷ entry 306 true fchmodat_entry_handler
    ∷ entry 307 true syscall_return_success_handler
    ∷ entry 320 true utimensat_entry_handler
    ∷ entry 328 true eventfd2_entry_handler
    ∷ []

-- forgers
unfoldable pub forgers : List (ℕ × Forger)
forgers = (13, time_forger) ∷ (78, gettimeofday_forger) ∷ (265, clock_gettime_forger) ∷ []

unfoldable pub ignore_list : List ℕ
ignore_list =
    77 ∷ 162 ∷ 125 ∷ 175 ∷ 116 ∷ 119 ∷ 126 ∷ 186 ∷ 252 ∷ 266 ∷ 240 ∷ 242 ∷ 243 ∷ 311 ∷ 340 ∷ 191
    ∷ []

-- subcall_handlers, whose keys all have True for `entering`
unfoldable pub subcall_handlers : List (Text × Handler)
unfolding text
subcall_handlers =
    (text "socket", socket_entry_handler)
    ∷ (text "accept", accept_subcall_entry_handler)
    ∷ (text "accept4", accept_subcall_entry_handler)
    ∷ (text "bind", bind_entry_handler)
    ∷ (text "listen", listen_entry_handler)
    ∷ (text "recv", recv_subcall_entry_handler)
    ∷ (text "setsockopt", setsockopt_entry_handler)
    ∷ (text "send", send_entry_handler)
    ∷ (text "connect", connect_entry_handler)
    ∷ (text "getsockopt", getsockopt_entry_handler)
    ∷ (text "shutdown", shutdown_subcall_entry_handler)
    ∷ (text "getsockname", getsockname_entry_handler)
    ∷ (text "getpeername", getpeername_entry_handler)
    ∷ []

-- debug_printers
unfoldable pub debug_printers : List (ℕ × Printer)
debug_printers =
    (4, write_entry_debug_printer)
    ∷ (5, open_entry_debug_printer)
    ∷ (197, fstat64_entry_debug_printer)
    ∷ (146, writev_entry_debug_printer)
    ∷ []
