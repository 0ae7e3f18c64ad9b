-- ===== src/Producer.antt =====
-- src/Producer.py: the thread that parses the trace file into the window. Each section under the lock
-- `thread_condition` is one step; the notifications wake threads and have no other effect.
pub mod Limits
pub mod Stream
pub mod Schedule
use Prim.Native.Nat.{◌-◌}
use crash_simulator.Base.{
  ℕ, zero, suc, ◌+◌, ◌*◌, Bool, true, false, not, ◌&&◌, Option, none, some, List, [], ◌∷◌, ◌++◌,
  leb, if◌then◌else◌, ℤ, pos, negsuc, pos_part, ◌-ℤ◌, leb_ℤ,
}
use crash_simulator.Py.{
  Text, text, is_in, Result, ok, raised, attribute_error, index_error, then_try, Py, ◌>>=◌, ◌>>◌,
  self, put, lift, return, zoom, skip,
}
use crash_simulator.Syscall.{Syscall}
use crash_simulator.TraceManager.{Manager, Line, Entry, pop_front, producer_done}

-- The manager, and the lines of the trace file that are not read yet.
pub record System : Type 0 where
  pub manager : Manager
  pub rest : List Text

-- `filling n` has `n` rounds of the first loop left; `filling 0` is the second loop, which does not
-- end by itself.
pub data Phase : Type 0 where
  filling : ℕ → Phase
  finished : Phase

abbrev pub with_manager : {A : Type 0} → Py Manager A → Py System A
with_manager = zoom (λ s. s.manager) (λ s m. record s { manager = m })

take_pair : List Text → Py System (Option Line)
take_pair [] = return none
take_pair (event_line ∷ []) = do s ← self; put (record s { rest = [] }); return none
take_pair (event_line ∷ trace_line ∷ rest) = do
  s ← self
  put (record s { rest = rest })
  return (some (record { event_line = event_line; trace_line = trace_line }))

-- event_line = fh.next(); trace_line = fh.next(). `none` is the StopIteration.
unfoldable pub read_pair : Py System (Option Line)
unfolding take_pair
read_pair = do s ← self; take_pair s.rest

abbrev limit_of : ℕ → Entry → ℤ
limit_of backlog_size e = e.index -ℤ pos backlog_size

abbrev pub smaller : ℤ → ℤ → ℤ
smaller limit other = if leb_ℤ limit other then limit else other

-- The loop over the mutators: the limit is replaced by each smaller one.
unfoldable pub least_limit : ℕ → ℤ → List Entry → ℤ
least_limit backlog_size limit [] = limit
least_limit backlog_size limit (e ∷ es) =
    least_limit backlog_size (smaller limit (limit_of backlog_size e)) es

-- `mutators[0]` raises if no mutator is registered yet.
unfoldable pub backtrace_limit : ℕ → List Entry → Result ℤ
unfolding least_limit
backtrace_limit backlog_size [] = raised index_error
backtrace_limit backlog_size (e ∷ es) =
    ok (least_limit backlog_size (limit_of backlog_size e) (e ∷ es))

-- `parse_line` is the method of the parser, posix_omni_parser's StraceParser.
module _ (parse_line : Text → Option Syscall) where
  abbrev is_marker : Option Syscall → Bool
  is_marker none = false
  is_marker (some c) = is_in (text "syscall_") c.name

  -- The lines behind the first call with `syscall_` in its name. `exceptions.ProducerError` names
  -- nothing, as `exceptions.MutatorError` does.
  unfoldable pub skip_header : List Text → Result (List Text)
  skip_header [] = raised attribute_error
  skip_header (line ∷ rest) =
      let more = skip_header rest in if is_marker (parse_line line) then ok rest else more

  append_line : Line → Py Manager (Unit {0})
  append_line l = do
    m ← self
    put (record m {
      syscall_objects = m.syscall_objects ++ parse_line l.trace_line ∷ [];
      trace = m.trace ++ l ∷ [];
    })

  take_line : Option Line → Py System Bool
  unfolding append_line
  take_line none = do with_manager producer_done; return false
  take_line (some l) = do with_manager (append_line l); return true

  -- A round of the first loop. The result is false if the file has ended, which ends `produce`.
  unfoldable pub fill_round : Py System Bool
  unfolding read_pair take_line
  fill_round = do pair ← read_pair; take_line pair

  -- for i in range(backtrace_limit)
  unfoldable pub pop_rounds : ℕ → Py System Bool
  unfolding fill_round
  pop_rounds zero = return true
  pop_rounds (suc n) = do
    with_manager pop_front
    more ← fill_round
    elim more [ true ↦ pop_rounds n | false ↦ return false ]

  unfoldable pub window_round : ℕ → Py System Bool
  unfolding pop_rounds backtrace_limit
  window_round backlog_size = do
    s ← self
    limit ← lift (backtrace_limit backlog_size s.manager.mutators)
    pop_rounds (pos_part limit)

  abbrev go_on : Phase → Bool → Phase
  go_on p true = p
  go_on p false = finished

  -- The next section under the lock.
  unfoldable pub produce_step : ℕ → Phase → Py System Phase
  unfolding fill_round window_round
  produce_step backlog_size (filling zero) = do
    more ← window_round backlog_size
    return (go_on (filling zero) more)
  produce_step backlog_size (filling (suc n)) = do
    more ← fill_round
    return (go_on (filling n) more)
  produce_step backlog_size finished = return finished

  -- range(0, backlog_size * 4, 2) has twice `backlog_size` rounds.
  unfoldable pub produce_start : ℕ → Phase
  produce_start backlog_size = filling (2 * backlog_size)
