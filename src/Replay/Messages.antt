-- ===== src/Replay/Messages.antt =====
-- src/rreplay.py: process_messages
pub mod Laws
pub mod Sync
pub mod Complete
pub mod Supervisor
use crash_simulator.Base.{
  ℕ, zero, suc, ◌+◌, Bool, true, false, Option, none, some, List, [], ◌∷◌, ◌++◌, get_elem?, drop,
  length, ltb, leb, ◌==◌, if◌then◌else◌,
}
use crash_simulator.Py.{
  Text, text, same, Result, ok, raised, io_error, os_error, index_error, key_error, value_error, Py,
  ◌>>=◌, ◌>>◌, skip, self, put, lift, when, return,
}
use crash_simulator.Replay.Config.{Subject, Statefile, Files, write_file}

-- The dict that json.loads makes of a message, with what it holds for the keys that are read.
pub record Message : Type 0 where
  pub inject : Option Text
  pub event : Option Text
  pub pid : Option Text
  pub brks : Option Text

-- s < t
unfoldable pub less : Text → Text → Bool
less s [] = false
less [] (y ∷ t) = true
less (x ∷ s) (y ∷ t) = if ltb x y then true else if x == y then less s t else false

-- The variables of the function, and the files that it uses.
pub record Run : Type 0 where
  pub subjects : List Subject
  pub sub_idx : ℕ
  pub files : Files

-- message_dict[key]
abbrev pub field : Option Text → Result Text
field none = raised key_error
field (some v) = ok v

-- subjects[sub_idx]
unfoldable pub subject_at : List Subject → ℕ → Result Subject
subject_at l i = found (get_elem? l i)
  where
    found : Option Subject → Result Subject
    found none = raised index_error
    found (some s) = ok s

-- subjects[sub_idx] = s, of an index in range
unfoldable pub set_at : ℕ → Subject → List Subject → List Subject
set_at i s [] = []
set_at zero s (x ∷ l) = s ∷ l
set_at (suc i) s (x ∷ l) = x ∷ set_at i s l

-- while event > subjects[sub_idx]['event'] and sub_idx < len(subjects): sub_idx += 1
-- The argument is the subjects from the index on. The subscript comes first in the test.
unfoldable pub fast_forward : Text → ℕ → List Subject → Result ℕ
unfolding less
fast_forward event i [] = raised index_error
fast_forward event i (s ∷ l) =
    let rest = fast_forward event (suc i) l in if less s.event event then rest else ok i

-- json.load of an open file
unfoldable pub read_file : Text → Files → Result Statefile
read_file name [] = raised io_error
read_file name ((n, f) ∷ d) = let rest = read_file name d in if same name n then ok f else rest

-- os.unlink
unfoldable pub unlink : Text → Files → Result Files
unlink name [] = raised os_error
unlink name ((n, f) ∷ d) =
    let rest = unlink name d in
    if same name n then ok d else elim rest [ ok d' ↦ ok ((n, f) ∷ d') | raised e ↦ raised e ]

-- Some future subject uses the same event configuration.
unfoldable pub still_used : Text → List Subject → Bool
still_used name [] = false
still_used name (s ∷ l) =
    let rest = still_used name l in if same s.injected_state_file name then true else rest

-- From `eventwise_statefile = …` to the unlink: the supervisor of the current subject is started.
unfoldable pub supervise : Message → Text → Py Run (Unit {0})
unfolding subject_at read_file write_file set_at still_used unlink text
supervise message pid = do
  r ← self
  s ← lift (subject_at r.subjects r.sub_idx)
  tmp ← lift (read_file s.injected_state_file r.files)
  brks ← lift (field message.brks)
  put (record r {
    files =
        write_file (pid ++ text "_" ++ s.injected_state_file)
          (record tmp { pid = some pid; brks = some brks }) r.files;
  })
  w ← self
  put (record w {
    subjects =
        set_at w.sub_idx (record s { handle = some (pid ++ text "_" ++ s.injected_state_file) })
          w.subjects;
  })
  if still_used s.injected_state_file (drop (suc r.sub_idx) r.subjects) then skip else do
    u ← self
    files ← lift (unlink s.injected_state_file u.files)
    put (record u { files = files })

-- subjects[sub_idx]['other_procs'].append(pid)
unfoldable pub add_other : Text → Py Run (Unit {0})
unfolding subject_at set_at
add_other pid = do
  r ← self
  s ← lift (subject_at r.subjects r.sub_idx)
  put (record r {
    subjects = set_at r.sub_idx (record s { other_procs = s.other_procs ++ pid ∷ [] }) r.subjects;
  })

next_subject : Py Run (Unit {0})
next_subject = do r ← self; put (record r { sub_idx = suc r.sub_idx })

-- sub_idx catches up when rr is ahead.
unfoldable pub catch_up : Text → Py Run (Unit {0})
unfolding fast_forward less subject_at
catch_up event = do
  r ← self
  s ← lift (subject_at r.subjects r.sub_idx)
  when (less s.event event) do
    i ← lift (fast_forward event r.sub_idx (drop r.sub_idx r.subjects))
    put (record r { sub_idx = i })

unfoldable pub inject_message : Message → Text → Text → Py Run (Unit {0})
unfolding subject_at less catch_up supervise next_subject
inject_message message event pid = do
  r ← self
  s ← lift (subject_at r.subjects r.sub_idx)
  if less event s.event then skip else (do catch_up event; supervise message pid; next_subject)

-- One round of the loop, for a message that is a JSON object. The process is alive by now.
unfoldable pub process_message : Message → Py Run (Unit {0})
unfolding text inject_message add_other next_subject
process_message message = do
  inject ← lift (field message.inject)
  event ← lift (field message.event)
  pid ← lift (field message.pid)
  if same inject (text "true")
      then inject_message message event pid
      else if same inject (text "false")
      then (do add_other pid; next_subject)
      else next_subject

-- The whole loop, on the messages that rr sends; `none` is one that json.loads refuses, as it does
-- the empty text that is read at the end of the pipe.
unfoldable pub process_messages : List (Option Message) → Py Run (Unit {0})
unfolding process_message
process_messages [] r =
    if ltb r.sub_idx (length r.subjects) then (raised value_error, r) else (ok tt, r)
process_messages (none ∷ ms) r =
    if ltb r.sub_idx (length r.subjects) then (raised value_error, r) else (ok tt, r)
process_messages (some m ∷ ms) r =
    let more = (process_message m >> process_messages ms) r in
    if ltb r.sub_idx (length r.subjects) then more else (ok tt, r)
