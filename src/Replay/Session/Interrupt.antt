-- ===== src/Replay/Session/Interrupt.antt =====
-- src/rreplay.py: a run that the user ends with SIGINT
use crash_simulator.Base.{
  ◌≡◌, refl, ℕ, ℤ, Bool, true, false, Option, none, List, take, if◌then◌else◌, arith, Bool-cases,
  inl, inr,
}
use crash_simulator.Py.{Text, io_error}
use crash_simulator.Replay.Config.{Subject}
use crash_simulator.Replay.Messages.{Message}
use crash_simulator.Replay.Session.{
  Session, Ending, exits, fails, cleanup, open_proc_file, execute_rr, write_configurations, process,
  cleanup-removes,
}

-- How far call_replay is: behind the first cleanup, behind the configuration files, behind the opening
-- of proc.out, behind the start of rr, or behind a number of messages.
pub data Point : Type 0 where
  cleaned written opened started : Point
  processing : ℕ → Point

-- except KeyboardInterrupt: proc.out is read, which is an IOError if it is not there.
unfoldable pub interrupted : Session → Ending × Session
unfolding cleanup
interrupted s = if s.proc_file then (exits 0, (cleanup s).1) else (fails io_error, s)

-- `piped` tells if rr has made its pipe by the time of the interrupt.
module _ (piped : Bool) (messages : List (Option Message)) (wait : Text → ℤ) (rr_dir : Text)
    (subjects : List Subject) where
  abbrev with_files : Session → Session
  with_files s = (write_configurations piped none messages wait subjects (cleanup s).1).1

  abbrev with_output : Session → Session
  with_output s = (open_proc_file (with_files s)).1

  abbrev with_rr : Session → Session
  with_rr s = (execute_rr piped rr_dir subjects (with_files s)).1

  -- The session at a point of a run whose configuration is read.
  unfoldable pub session_at : Point → Session → Session
  unfolding cleanup write_configurations open_proc_file execute_rr process
  session_at cleaned s = (cleanup s).1
  session_at written s = with_files s
  session_at opened s = with_output s
  session_at started s = with_rr s
  session_at (processing n) s = (process piped none (take n messages) wait subjects (with_rr s)).1

  -- proc.out is there: execute_rr has opened it.
  abbrev pub has_output : Point → Bool
  has_output cleaned = false
  has_output written = false
  has_output opened = true
  has_output started = true
  has_output (processing n) = true

  proc_file_at : (p : Point) (s : Session) → (session_at p s).proc_file ≡ has_output p
  unfolding session_at write_configurations open_proc_file execute_rr process
  proc_file_at cleaned s = (cleanup-removes piped none messages wait s).0
  proc_file_at written s = (cleanup-removes piped none messages wait s).0
  proc_file_at opened s = refl
  proc_file_at started s = refl
  proc_file_at (processing n) s = refl

  pipe_at : (p : Point) (s : Session) → has_output p ≡ false → (session_at p s).pipe ≡ false
  unfolding session_at write_configurations
  pipe_at cleaned s h = (cleanup-removes piped none messages wait s).1
  pipe_at written s h = (cleanup-removes piped none messages wait s).1
  pipe_at opened s h = cc
  pipe_at started s h = cc
  pipe_at (processing n) s h = cc

  abbrev pub status : Point → Ending
  status p = if has_output p then exits 0 else fails io_error

  -- In a run whose configuration is read, and that is interrupted behind the first cleanup, the
  -- configuration files, the opening of proc.out, the start of rr or any number of messages, whether or
  -- not rr has made its pipe by then: what is there of proc.out and the pipe is gone when the program
  -- ends; the exit status is 0 if proc.out was opened, and else it ends in an IOError.
  pub interrupt_removes_files :
      (p : Point) (s : Session)
      → let (e, t) = interrupted (session_at p s) in
        (e ≡ status p) × (t.proc_file ≡ false) × (t.pipe ≡ false)
  unfolding interrupted
  interrupt_removes_files p s = elim (Bool-cases (has_output p)) [
    | inl q ↦
        let c = cleanup-removes piped none messages wait (session_at p s) in
        ground (arith, q, proc_file_at p s, c.0, c.1)
    | inr q ↦ ground (arith, q, proc_file_at p s, pipe_at p s q)
  ]
