-- ===== src/Replay/Messages/Sync.antt =====
-- A message of rr for the subject that process_messages of src/rreplay.py waits for.
use crash_simulator.Base.{
  ◌≡◌, refl, suc, Bool, true, false, some, List, [], ◌∷◌, ◌++◌, get_elem?, drop, if◌then◌else◌,
  arith, Bool-cases, inl, inr,
}
use crash_simulator.Py.{Text, text, same, ok}
use crash_simulator.Replay.Config.{Subject, Statefile, Files, write_file}
use crash_simulator.Replay.Messages.{
  Message, Run, less, set_at, read_file, unlink, still_used, supervise, catch_up, inject_message,
  process_message,
}
use crash_simulator.Replay.Messages.Laws.{Injects, process_message-inject, subject_at_lem}

pub less_irrefl : (s : Text) → less s s ≡ false
unfolding less
less_irrefl [] = refl
less_irrefl (x ∷ s) = ground (arith, less_irrefl s)

-- The name is in the store.
unfoldable pub is_stored : Text → Files → Bool
is_stored name [] = false
is_stored name ((n, f) ∷ d) = let rest = is_stored name d in if same name n then true else rest

pub read_file-stored :
    (name : Text) (d : Files) (f : Statefile) → read_file name d ≡ ok f → is_stored name d ≡ true
unfolding read_file is_stored
read_file-stored name [] f h = cc
read_file-stored name ((n, g) ∷ d) f h = elim (Bool-cases (same name n)) [
  | inl q ↦ rw q refl
  | inr q ↦ rw q (read_file-stored name d f (ground arith))
]

pub write_file-stored :
    (name n : Text) (f : Statefile) (d : Files)
    → is_stored name d ≡ true
    → is_stored name (write_file n f d) ≡ true
unfolding write_file is_stored
write_file-stored name n f [] h = cc
write_file-stored name n f ((m, g) ∷ d) h = elim (Bool-cases (same n m)) [
  | inl q ↦ rw q h
  | inr q ↦ ground (arith, q, write_file-stored name n f d)
]

pub unlink-stored :
    (name : Text) (d : Files) → is_stored name d ≡ true → (d' : Files) × (unlink name d ≡ ok d')
unfolding unlink is_stored
unlink-stored name [] h = cc
unlink-stored name ((n, g) ∷ d) h = elim (Bool-cases (same name n)) [
  | inl q ↦ (d, rw q refl)
  | inr q ↦ let (d', e) = unlink-stored name d (ground arith) in ((n, g) ∷ d', rw (q, e) refl)
]

-- The state behind a message for the subject `s`, but for the files.
abbrev pub assigned : Text → Subject → Run → List Subject
assigned pid s r =
    set_at r.sub_idx (record s { handle = some (pid ++ text "_" ++ s.injected_state_file) })
      r.subjects

pub supervise_lem :
    (m : Message) (pid brks : Text) (r : Run) (s : Subject) (tmp : Statefile)
    → m.brks ≡ some brks
    → get_elem? r.subjects r.sub_idx ≡ some s
    → read_file s.injected_state_file r.files ≡ ok tmp
    → let p = supervise m pid r in
      (p.0 ≡ ok tt) × (p.1.sub_idx ≡ r.sub_idx) × (p.1.subjects ≡ assigned pid s r)
unfolding supervise
supervise_lem m pid brks r s tmp b g f =
    elim (Bool-cases (still_used s.injected_state_file (drop (suc r.sub_idx) r.subjects))) [
      | inl u ↦ rw (subject_at_lem r.subjects r.sub_idx g, f, b, u) (refl, refl, refl)
      | inr u ↦
          let (d, e) =
            unlink-stored s.injected_state_file
              (write_file (pid ++ text "_" ++ s.injected_state_file)
                (record tmp { pid = some pid; brks = some brks }) r.files)
              (write_file-stored s.injected_state_file (pid ++ text "_" ++ s.injected_state_file)
                (record tmp { pid = some pid; brks = some brks }) r.files
                (read_file-stored s.injected_state_file r.files tmp f)) in
          rw (subject_at_lem r.subjects r.sub_idx g, f, b, u, e) (refl, refl, refl)
    ]

pub catch_up_same :
    (event : Text) (r : Run) (s : Subject)
    → get_elem? r.subjects r.sub_idx ≡ some s
    → event ≡ s.event
    → catch_up event r ≡ (ok tt, r)
unfolding catch_up
catch_up_same event r s g e =
    rw (subject_at_lem r.subjects r.sub_idx g, e, less_irrefl s.event) refl

-- A message that asks for an injection at the event of the subject waited for, with its kernel
-- mappings, raises nothing where the subject's event configuration is there: the subject's handle is
-- the supervisor of the process, no other subject changes, and the loop goes on to the next one.
pub in_step_assigns :
    (m : Message) (event pid brks : Text) (r : Run) (s : Subject) (tmp : Statefile)
    → Injects m event pid
    → m.brks ≡ some brks
    → get_elem? r.subjects r.sub_idx ≡ some s
    → event ≡ s.event
    → read_file s.injected_state_file r.files ≡ ok tmp
    → ((process_message m r).0 ≡ ok tt)
      × ((process_message m r).1.sub_idx ≡ suc r.sub_idx)
      × ((process_message m r).1.subjects ≡ assigned pid s r)
unfolding inject_message
in_step_assigns m event pid brks r s tmp i b g e f =
    let (x, y, z) = supervise_lem m pid brks r s tmp b g f in
    ground (
      arith,
      process_message-inject m event pid r i,
      subject_at_lem r.subjects r.sub_idx g,
      catch_up_same event r s g e,
      less_irrefl s.event,
      x,
      y,
      z,
      e,
    )
