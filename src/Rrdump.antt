-- ===== src/Rrdump.antt =====
-- src/rrdump/build/lib.linux-i686-2.7/rrdump/rrdump.py: the state that rr collects of a recording while
-- it replays it, the dump of that state, and the pipe to src/rreplay.py
pub mod Tables
pub mod Sharing
pub mod Family
pub mod Messages
pub mod Dumps
use Prim.Native.Nat.{bit_and}
use crash_simulator.Base.{
  ℕ, Bool, true, false, not, ◌&&◌, Option, none, some, List, [], ◌∷◌, ◌++◌, map, if◌then◌else◌, ℤ,
  pos, eq_ℤ, ◌==◌, length, get_elem?,
}
use crash_simulator.Py.{
  Text, text, same, show_int, Result, ok, raised, key_error, value_error, attribute_error, os_error,
  Py, ◌>>=◌, ◌>>◌, self, put, lift, return, raise, when,
}

-- What process_syscall reads of a call. The dict that rr passes has the registers too.
pub record Call : Type 0 where
  pub rec_tid : ℤ
  pub name : Text
  pub entering : Bool
  pub arg1_unsigned : ℕ
  pub result : ℤ

pub record Brk : Type 0 where
  pub flags : ℤ
  pub start : ℕ
  pub size : ℕ
  pub prot : ℤ

-- Of gettimeofday, and of clock_gettime with the clock's number.
pub record Clock : Type 0 where
  pub clock_id : Option ℤ
  pub seconds : ℤ
  pub parts : ℤ

-- `open_fds` maps a thread to a list by reference, and `lists` are the list objects, in the order in
-- which they were made; the other fields are the keys of state_dict, and initial_tid.
pub record State : Type 0 where
  pub initial_tid : Option ℤ
  pub open_fds : List (ℤ × ℕ)
  pub lists : List (List ℕ)
  pub syscalls_made : List Call
  pub times : List ℤ
  pub brks : List Brk
  pub gettimeofdays : List Clock
  pub clock_gettimes : List Clock

-- The module as it is imported.
abbrev pub imported : State
imported = record {
  initial_tid = none;
  open_fds = [];
  lists = [];
  syscalls_made = [];
  times = [];
  brks = [];
  gettimeofdays = [];
  clock_gettimes = [];
}

-- A dict of references.
unfoldable pub get_key : ℤ → List (ℤ × ℕ) → Option ℕ
get_key k [] = none
get_key k ((k', r) ∷ d) = let rest = get_key k d in if eq_ℤ k' k then some r else rest

unfoldable pub put_key : ℤ → ℕ → List (ℤ × ℕ) → List (ℤ × ℕ)
put_key k r [] = (k, r) ∷ []
put_key k r ((k', r') ∷ d) =
    let rest = put_key k r d in if eq_ℤ k' k then (k', r) ∷ d else (k', r') ∷ rest

-- not initial_tid
unfoldable pub is_unset : Option ℤ → Bool
is_unset none = true
is_unset (some t) = eq_ℤ t (pos 0)

abbrev pub or_key_error : Option ℕ → Result ℕ
or_key_error none = raised key_error
or_key_error (some r) = ok r

-- The list that a reference names.
abbrev pub deref : List (List ℕ) → ℕ → List ℕ
deref lists r = elim (get_elem? lists r) [ none ↦ [] | some l ↦ l ]

-- open_fds[tid] = l, for a new list
unfoldable pub put_new : ℤ → List ℕ → State → State
put_new tid l s = record s {
  open_fds = put_key tid (length s.lists) s.open_fds;
  lists = s.lists ++ l ∷ [];
}

-- open_fds[tid] = the list of a reference
unfoldable pub put_shared : ℤ → ℕ → State → State
put_shared tid r s = record s { open_fds = put_key tid r s.open_fds }

-- The first call tells which thread the recording starts with.
unfoldable pub begin : Call → State → State
unfolding put_new
begin c s =
    if is_unset s.initial_tid
    then put_new c.rec_tid (0 ∷ 1 ∷ 2 ∷ []) (record s { initial_tid = some c.rec_tid })
    else s

-- (clone_flags & 0x00000400) == 0x00000400
unfoldable pub clone_files : Call → Bool
clone_files c = bit_and c.arg1_unsigned 1024 == 1024

unfoldable pub is_clone_exit : Call → Bool
unfolding text
is_clone_exit c = same c.name (text "clone") && not c.entering

-- The new thread has the list of its parent, or a copy of it.
unfoldable pub bind_result : Call → ℕ → State → State
unfolding clone_files put_new put_shared
bind_result c r s =
    if clone_files c then put_shared c.result r s else put_new c.result (deref s.lists r) s

-- The body of the `if` for clone.
unfoldable pub handle_clone : Call → Py State (Unit {0})
unfolding bind_result
handle_clone c = do
  s ← self
  r ← lift (or_key_error (get_key c.rec_tid s.open_fds))
  put (bind_result c r s)

abbrev pub made : Call → State → State
made c s = record s { syscalls_made = s.syscalls_made ++ c ∷ [] }

unfoldable pub process_syscall : Call → Py State (Unit {0})
unfolding begin is_clone_exit handle_clone
process_syscall c = do
  s ← self
  put (begin c s)
  when (is_clone_exit c) (handle_clone c)
  s ← self
  put (made c s)

unfoldable pub process_brk : ℤ → ℕ → ℕ → ℤ → State → State
process_brk flags start size prot s = record s {
  brks = s.brks ++ record { flags = flags; start = start; size = size; prot = prot } ∷ [];
}

unfoldable pub process_gettimeofday : ℤ → ℤ → State → State
process_gettimeofday seconds microseconds s = record s {
  gettimeofdays =
      s.gettimeofdays ++ record { clock_id = none; seconds = seconds; parts = microseconds } ∷ [];
}

unfoldable pub process_clock_gettime : ℤ → ℤ → ℤ → State → State
process_clock_gettime clock_id seconds nanoseconds s = record s {
  clock_gettimes =
      s.clock_gettimes
      ++ record { clock_id = some clock_id; seconds = seconds; parts = nanoseconds } ∷ [];
}

unfoldable pub process_time : ℤ → State → State
process_time time s = record s { times = s.times ++ time ∷ [] }

-- What json.dump writes of state_dict: each thread with the list itself.
pub record Dump : Type 0 where
  pub fds : List (ℤ × List ℕ)
  pub calls : List Call
  pub times : List ℤ
  pub brks : List Brk
  pub gettimeofdays : List Clock
  pub clock_gettimes : List Clock

unfoldable pub dump : State → Dump
dump s = record {
  fds = map (λ x. (x.0, deref s.lists x.1)) s.open_fds;
  calls = s.syscalls_made;
  times = s.times;
  brks = s.brks;
  gettimeofdays = s.gettimeofdays;
  clock_gettimes = s.clock_gettimes;
}

-- str(event) + '_state.json'
unfoldable pub dump_name : ℤ → Text
unfolding text
dump_name event = show_int event ++ text "_state.json"

-- The files of the directory, by name. A file that is there is written anew.
unfoldable pub write_file : Text → Dump → List (Text × Dump) → List (Text × Dump)
write_file n d [] = (n, d) ∷ []
write_file n d ((n', d') ∷ files) =
    let rest = write_file n d files in if same n' n then (n', d) ∷ files else (n', d') ∷ rest

unfoldable pub dump_state : ℤ → State → List (Text × Dump) → List (Text × Dump)
unfolding dump_name write_file dump
dump_state event s files = write_file (dump_name event) (dump s) files

-- What is in the directory under the name of the pipe.
pub data Node : Type 0 where
  missing stale fifo : Node

-- proc_pipe, which a file that is closed stays in.
pub data Handle : Type 0 where
  unset opened closed : Handle

-- not proc_pipe
abbrev is_none : Handle → Bool
is_none unset = true
is_none opened = false
is_none closed = false

-- `sent` is what went into the pipe.
pub record Pipe : Type 0 where
  pub node : Node
  pub proc_pipe : Handle
  pub sent : List Text

abbrev exists : Node → Bool
exists missing = false
exists stale = true
exists fifo = true

-- if os.path.exists(name): os.unlink(name)
clear_name : Node → Node
clear_name n = if exists n then missing else n

-- os.mkfifo raises where there is something under the name.
abbrev mkfifo : Node → Result Node
mkfifo n = if exists n then raised os_error else ok fifo

-- The body of the `if`; `open` returns once src/rreplay.py reads.
make_pipe : Py Pipe (Unit {0})
unfolding clear_name
make_pipe = do
  p ← self
  put (record p { node = clear_name p.node })
  n ← lift (mkfifo (clear_name p.node))
  put (record p { node = n; proc_pipe = opened })

-- A write to a file that is closed is a ValueError.
write_opened : Text → Py Pipe (Unit {0})
write_opened t p = elim p.proc_pipe [
  | unset ↦ (raised attribute_error, p)
  | opened ↦ (ok tt, record p { sent = p.sent ++ t ∷ [] })
  | closed ↦ (raised value_error, p)
]

unfoldable pub write_to_pipe : Text → Py Pipe (Unit {0})
unfolding make_pipe write_opened
write_to_pipe t = do p ← self; when (is_none p.proc_pipe) make_pipe; write_opened t

-- None has no method `close`; a file that is closed can be closed again.
unfoldable pub close_pipe : Py Pipe (Unit {0})
close_pipe p = elim p.proc_pipe [
  | unset ↦ (raised attribute_error, p)
  | opened ↦ (ok tt, record p { proc_pipe = closed })
  | closed ↦ (ok tt, p)
]
