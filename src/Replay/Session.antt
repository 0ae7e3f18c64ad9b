-- ===== src/Replay/Session.antt =====
-- src/rreplay.py: cleanup, call_replay and main
pub mod Interrupt
use crash_simulator.Base.{
  ◌≡◌, refl, ◌∙◌, ℕ, ℤ, Bool, true, false, ◌||◌, Option, some, List, if◌then◌else◌, arith, inl, inr,
  Bool-cases,
}
use crash_simulator.Py.{
  Text, Error, Result, ok, raised, Result-cases, Py, ◌>>=◌, ◌>>◌, self, put, lift, when, then_try,
}
use crash_simulator.Replay.Config.{
  Subject, Files, get_configuration, create_event_configuration_files, events_str,
}
use crash_simulator.Py.ConfigParser.{Section}
use crash_simulator.Replay.Messages.{Message, process_messages}
use crash_simulator.Replay.Handles.{Outcome, wait_on_handles}

-- The files proc.out and rrdump_proc.pipe, if they are there, the JSON files, what was done to
-- processes, and the arguments that rr was started with.
pub record Session : Type 0 where
  pub proc_file : Bool
  pub pipe : Bool
  pub files : Files
  pub outcome : Outcome
  pub replayed : Option (Text × Text)

-- How the program ends.
pub data Ending : Type 0 where
  exits : ℕ → Ending
  fails : Error → Ending

-- Both files are unlinked if they exist.
unfoldable pub cleanup : Py Session (Unit {0})
cleanup = do
  s ← self
  when s.proc_file (put (record s { proc_file = false }))
  t ← self
  when t.pipe (put (record t { pipe = false }))

-- open(consts.PROC_FILE, 'w')
unfoldable pub open_proc_file : Py Session (Unit {0})
open_proc_file = do s ← self; put (record s { proc_file = true })

-- Popen of rr, which makes its pipe at some time behind it: `piped` tells if it has, and if it has not
-- nothing is changed.
unfoldable pub start_rr : Bool → Text → List Subject → Py Session (Unit {0})
unfolding events_str
start_rr piped rr_dir subjects = do
  s ← self
  put (record s { pipe = s.pipe || piped; replayed = some (events_str subjects, rr_dir) })

unfoldable pub execute_rr : Bool → Text → List Subject → Py Session (Unit {0})
unfolding open_proc_file start_rr
execute_rr piped rr_dir subjects = do open_proc_file; start_rr piped rr_dir subjects

-- `ini` is the parsed config.ini of the test, `messages` what get_message and json.loads make of the
-- pipe, `wait` the exit status of a supervisor, and `piped` whether rr makes its pipe.
module _ (piped : Bool) (ini : Option (List Section)) (messages : List (Option Message))
    (wait : Text → ℤ) where
  unfoldable pub write_configurations : List Subject → Py Session (Unit {0})
  write_configurations subjects = do
    s ← self
    put (record s { files = create_event_configuration_files subjects s.files })

  unfoldable pub process : List Subject → Py Session (List Subject)
  process subjects s =
      let (r, run) =
        process_messages messages (record { subjects = subjects; sub_idx = 0; files = s.files }) in
      (then_try r (λ u. ok run.subjects), record s { files = run.files })

  wait_for : List Subject → Py Session (Unit {0})
  wait_for subjects s =
      let (r, o) = wait_on_handles wait subjects s.outcome in (r, record s { outcome = o })

  -- The part of call_replay behind the test for the directory.
  unfoldable pub replay : Py Session (Unit {0})
  unfolding write_configurations process wait_for execute_rr cleanup
  replay = do
    configuration ← lift (get_configuration ini)
    write_configurations configuration.1
    execute_rr piped configuration.0 configuration.1
    subjects ← process configuration.1
    wait_for subjects
    cleanup

  abbrev ended : Result (Unit {0}) → Ending
  ended (ok u) = exits 0
  ended (raised e) = fails e

  -- `exists`: the directory of the test is there. except Exception as e: cleanup(); raise e. An exit of
  -- the program is no Exception. An interrupt is in Session.Interrupt.
  unfoldable pub main : Bool → Session → Ending × Session
  unfolding cleanup replay
  main exists s =
      let clean = (cleanup s).1 in
      let (r, t) = replay clean in
      if exists
      then elim r [ ok u ↦ (exits 0, t) | raised e ↦ (fails e, (cleanup t).1) ]
      else (exits 1, clean)

  pub cleanup-removes :
      (s : Session) → ((cleanup s).1.proc_file ≡ false) × ((cleanup s).1.pipe ≡ false)
  unfolding cleanup
  cleanup-removes s = ground arith

  -- A step removes both files when no exception ends it.
  Removes : Py Session (Unit {0}) → Type 0
  Removes m = (s : Session) → (m s).0 ≡ ok tt → ((m s).1.proc_file ≡ false) × ((m s).1.pipe ≡ false)

  bind-Removes :
      {A : Type 0}
      → (m : Py Session A) (k : A → Py Session (Unit {0})) → ((a : A) → Removes (k a))
      → Removes (m >>= k)
  unfolding Removes
  bind-Removes m k removes s = elim (Result-cases (m s).0) [
    | inl (e, failed) ↦ λ h. ground arith
    | inr (a, returned) ↦ λ h. ground (arith, removes a (m s).1)
  ]

  cleanup-Removes : Removes cleanup
  unfolding Removes
  cleanup-Removes s h = cleanup-removes s

  replay-Removes : Removes replay
  unfolding replay
  replay-Removes = bind-Removes (lift (get_configuration ini)) _ (λ configuration.
      bind-Removes (write_configurations configuration.1) _ (λ u.
        bind-Removes (execute_rr piped configuration.0 configuration.1) _ (λ v.
          bind-Removes (process configuration.1) _
            (λ subjects. bind-Removes (wait_for subjects) _ (λ w. cleanup-Removes)))))

  cleanup-replayed : (s : Session) → (cleanup s).1.replayed ≡ s.replayed
  unfolding cleanup
  cleanup-replayed s = ground arith

  -- A step keeps the arguments of rr.
  Keeps : {A : Type 0} → Py Session A → Type 0
  Keeps m = (s : Session) → (m s).1.replayed ≡ s.replayed

  bind-Keeps :
      {A : Type 0}
      → (m : Py Session A) (k : A → Py Session (Unit {0})) → Keeps m
      → ((a : A) → Keeps (k a))
      → Keeps (m >>= k)
  unfolding Keeps
  bind-Keeps m k first later s = elim (Result-cases (m s).0) [
    | inl (e, failed) ↦ rw (failed) (first s)
    | inr (a, returned) ↦ rw (returned) (later a (m s).1 ∙ first s)
  ]

  rest-Keeps : (subjects : List Subject) → Keeps (process subjects >>= λ l. wait_for l >> cleanup)
  unfolding Keeps process wait_for
  rest-Keeps subjects =
      bind-Keeps (process subjects) _ (λ s. refl)
        (λ l. bind-Keeps (wait_for l) _ (λ s. refl) (λ u. cleanup-replayed))

  pub replay-replayed :
      (rr_dir : Text) (subjects : List Subject) (s : Session)
      → get_configuration ini ≡ ok (rr_dir, subjects)
      → (replay s).1.replayed ≡ some (events_str subjects, rr_dir)
  unfolding replay write_configurations execute_rr Keeps
  replay-replayed rr_dir subjects s h = rw (h) (rest-Keeps subjects _)

  -- Whatever happens (a test that does not exist, an exception of any part, or a replay that is run to
  -- its end) the output file of rr and its pipe are gone when the program ends.
  pub main_removes_files :
      (exists : Bool) (s : Session)
      → ((main exists s).1.proc_file ≡ false) × ((main exists s).1.pipe ≡ false)
  unfolding main Removes
  main_removes_files exists s = elim (Bool-cases exists) [
    | inl there ↦ elim (Result-cases (replay (cleanup s).1).0) [
      | inr (u, returned) ↦ ground (arith, replay-Removes (cleanup s).1)
      | inl (e, failed) ↦ ground (arith, cleanup-removes (replay (cleanup s).1).1)
    ]
    | inr missing ↦ ground (arith, cleanup-removes s)
  ]
