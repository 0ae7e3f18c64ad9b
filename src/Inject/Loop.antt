-- ===== src/Inject/Loop.antt =====
-- src/inject.py: the system call handling loop of `main`
pub mod Feeds
pub mod Verdict
use crash_simulator.Base.{
  ℕ, zero, suc, Bool, true, false, not, Option, none, some, List, [], ◌∷◌, get_elem?, ◌≡◌, ◌==◌,
  if◌then◌else◌, ℤ,
}
use crash_simulator.Py.{Result, ok, raised, Error, index_error, Py, ◌>>=◌, self}
use crash_simulator.Syscall.{Syscall}
use crash_simulator.Checker.Classes.{Checker}
use crash_simulator.Inject.Dispatch.{Replayer, debug_handle_syscall}

-- The variables of the syscallreplay package that its handlers share with the loop, and its world.
pub record Globals (W : Type 0) : Type 0 where
  pub syscall_index : ℕ
  pub entering_syscall : Bool
  pub world : W

-- The calls of syscallreplay and of the kernel. `resume` goes on to the next stop of the process, and
-- returns whether the process has exited.
pub record Tracer (W : Type 0) : Type 0 where
  pub replayer : Replayer (Globals W)
  pub peek_orig_eax : Py (Globals W) ℤ
  pub resume : Py W Bool

-- What a round leads to: the next one, the end of the loop, an exit with status 0 (and the verdict
-- that is printed) or 1, or an exception.
pub data Outcome : Type 0 where
  goes_on exited failed : Outcome
  replayed : Option Bool → Outcome
  crashed : Error → Outcome

module _ {W : Type 0} (t : Tracer W) (k : Checker) (syscalls : List Syscall) (index_end : ℕ) where
  pub record Loop : Type 0 where
    pub globals : Globals W
    pub checker : Option k.Object

  -- The body of the `try`.
  unfoldable pub handle_call : Syscall → Py (Globals W) (Unit {0})
  unfolding debug_handle_syscall
  handle_call c = do
    id ← t.peek_orig_eax
    g ← self
    debug_handle_syscall t.replayer id c g.entering_syscall

  -- if checker: checker.transition(syscall_object)
  unfoldable pub feed : Syscall → Option k.Object → Result (Unit {0}) × Option k.Object
  feed c none = (ok tt, none)
  feed c (some o) = let (r, o') = k.transition c o in (r, some o')

  -- The index goes up behind the exit of a call.
  unfoldable pub turn : Globals W → Globals W
  turn g = record g {
    syscall_index = if g.entering_syscall then g.syscall_index else suc g.syscall_index;
    entering_syscall = not g.entering_syscall;
  }

  abbrev verdict : Option k.Object → Option Bool
  verdict none = none
  verdict (some o) = some (k.is_accepting o)

  -- Behind `waitpid`.
  unfoldable pub stopped : Result Bool → Loop → Outcome
  stopped (raised e) s = crashed e
  stopped (ok gone) s =
      if s.globals.syscall_index == index_end
      then replayed (verdict s.checker)
      else if gone
      then exited
      else goes_on

  unfoldable pub next_stop : Loop → Outcome × Loop
  unfolding stopped
  next_stop s =
      let (r, w) = t.resume s.globals.world in
      (stopped r s, record s { globals = record s.globals { world = w } })

  unfoldable pub fed : Result (Unit {0}) → Loop → Outcome × Loop
  unfolding next_stop turn
  fed (raised e) s = (crashed e, s)
  fed (ok u) s = next_stop (record s { globals = turn s.globals })

  unfoldable pub handled : Syscall → Result (Unit {0}) → Loop → Outcome × Loop
  unfolding feed fed
  handled c (raised e) s = (failed, s)
  handled c (ok u) s = let (r, o) = feed c s.checker in fed r (record s { checker = o })

  -- One round of the loop, where the process has not exited.
  unfoldable pub round : Loop → Outcome × Loop
  unfolding handle_call handled
  round s = elim (get_elem? syscalls s.globals.syscall_index) [
    | none ↦ (crashed index_error, s)
    | some c ↦ let (r, g) = handle_call c s.globals in handled c r (record s { globals = g })
  ]
