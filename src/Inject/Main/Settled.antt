-- ===== src/Inject/Main/Settled.antt =====
-- What a run of src/inject.py leaves behind
use crash_simulator.Base.{
  ◌≡◌, refl, ap, ℕ, ◌*◌, ◌-◌, ◌<◌, Bool, true, false, Option, none, some, List, [], ◌∷◌, ℤ, pos,
  ◌+ℤ◌, arith,
}
use crash_simulator.Py.{Text, Result, ok, Py, str, int, for_each}
use crash_simulator.Syscall.{Syscall}
use crash_simulator.Checker.Classes.{Checker}
use crash_simulator.Inject.Loop.{
  Tracer, Outcome, goes_on, exited, failed, replayed, crashed, Loop, round,
}
use crash_simulator.Inject.Loop.Feeds.{Seen, Steps, Unmoved, here}
use crash_simulator.Inject.Loop.Verdict.{verdict_on_calls}
use crash_simulator.Inject.Exit.{tgid_of, exits, exit_kills_group}
use crash_simulator.Inject.Setup.{Config, Prepared, prepare}
use crash_simulator.Inject.Main.{
  Finish, returned, raises, stops, leave, is_going, finish, attached, started, main,
}
use crash_simulator.Inject.Main.Ends.{loop_ends}

module _ {W : Type 0} (t : Tracer W) (k : Checker) (syscalls : List Syscall) (start index_end : ℕ)
    (o : k.Object) (name : Text) (event : Text) (tgid number : ℤ) (world : W) where
  -- The state in which the loop starts.
  abbrev pub begun : Loop t k syscalls index_end
  begun = record {
    globals = record { syscall_index = start; entering_syscall = true; world = world };
    checker = some o;
  }

  -- The verdict of the checker on the calls from the start to the end.
  abbrev pub Judged : Option Bool → Type 0
  Judged b =
      (entering : Bool) × (l : List Syscall) × (o' : k.Object) × Seen syscalls start index_end
        entering l
      × (for_each k.transition l o ≡ (ok tt, o'))
      × (b ≡ some (k.is_accepting o'))

  -- How main ends, by what its last round leads to.
  abbrev pub EndsBy : Outcome → Loop t k syscalls index_end → Finish → Type 0
  EndsBy goes_on s f = ⊥
  EndsBy exited s f = f ≡ returned
  EndsBy (crashed e) s f = f ≡ raises e
  EndsBy failed s f =
      f ≡ stops none (exits 1 name event (some (number +ℤ pos s.globals.syscall_index))) (tgid ∷ [])
  EndsBy (replayed b) s f = (f ≡ stops b (exits 0 name event none) (tgid ∷ [])) × Judged b

  -- Behind rounds that go on, a last one.
  abbrev pub Settled : Finish → Type 0
  Settled f =
      (v : Loop t k syscalls index_end) × (w : Loop t k syscalls index_end) × (x : Outcome) × Steps
        t k syscalls index_end begun v
      × (round t k syscalls index_end v ≡ (x, w))
      × EndsBy x w f

  module _ (attach : ℤ → Py W Bool) (proc_file names : List Text) (pid : ℤ)
      (group : tgid_of proc_file none ≡ ok (some tgid)) (numbered : int (str event) ≡ ok number)
      (keeps : (v : Loop t k syscalls index_end)
        → Steps t k syscalls index_end begun v
        → Unmoved t k syscalls index_end v) where
    finish-EndsBy :
        (v w : Loop t k syscalls index_end) (x : Outcome)
        → is_going t k attach proc_file (name ∷ names) event pid syscalls index_end x ≡ false
        → Steps t k syscalls index_end begun v
        → round t k syscalls index_end v ≡ (x, w)
        → EndsBy x w (finish t k attach proc_file (name ∷ names) event pid syscalls index_end x w)
    unfolding finish leave
    finish-EndsBy v w goes_on g runs h = cc
    finish-EndsBy v w exited g runs h = refl
    finish-EndsBy v w (crashed e) g runs h = refl
    finish-EndsBy v w failed g runs h =
        ap (λ x. stops none x.0 x.1)
          (exit_kills_group proc_file pid tgid number (pos w.globals.syscall_index) 1 (name ∷ names)
            event [] group numbered)
    finish-EndsBy v w (replayed b) g runs h =
        let (l, o', seen, run, verdict) =
          verdict_on_calls t k syscalls index_end start o begun v w b refl refl refl runs
            (keeps v runs) h in
        (
          ap (λ x. stops b x.0 x.1)
              (exit_kills_group proc_file pid tgid number (pos 0) 0 (name ∷ names) event [] group
                numbered),
          (w.globals.entering_syscall, l, o', seen, run, verdict),
        )

    attached-Settled :
        start < index_end
        → (f : Finish) × (attached t k attach proc_file
              (name ∷ names)
              event
              pid
              syscalls
              index_end
              (2 * (index_end - start))
              start
              (some o)
              (ok false)
              world
            ≡ some f)
          × Settled f
    unfolding attached
    attached-Settled l =
        let (v, u, x, runs, h, off, e) =
          loop_ends t k syscalls index_end attach proc_file (name ∷ names) event pid
            (2 * (index_end - start)) begun begun keeps here (l, omega arith) in
        (
          finish t k attach proc_file (name ∷ names) event pid syscalls index_end x u,
          e,
          (v, u, x, runs, h, finish-EndsBy v u x off runs h),
        )

-- Where the configuration is read and the trace is mutated without an exception, with a trace_start
-- below the trace_end, a checker and a mutator with a class name, the process is attached to and has
-- not exited, in each round of this run the handler leaves the index, and the flag at the exit of a
-- call, as it is, the status file of the process names a group and the event is a number: main ends
-- within twice as many rounds as there are calls from the start to the end. By its last round: if the
-- process has exited, main returns; an exception that is not caught is that of main; if the call cannot
-- be handled, the group is killed, once, and nothing else is, and the exit has status 1 and names the
-- event that is reached; and at the end index the group is killed in the same way, and the exit has
-- status 0, behind the verdict of the checker on the calls of the mutated trace from the start to the
-- end, in order, each once or twice.
pub main_settles :
    {W : Type 0} (t : Tracer W) (k : Checker) (attach : ℤ → Py W Bool) (proc_file : List Text)
    (name : Text) (names : List Text) (event : Text) (o : k.Object) (c : Config)
    (mutator : Option (List Syscall → Result (Unit {0}) × List Syscall)) (trace : List Syscall)
    (w w' : W) (p : Prepared) (start index_end : ℕ) (tgid number : ℤ)
    → prepare c mutator trace ≡ ok p
    → p.syscall_index ≡ pos start
    → p.syscall_index_end ≡ pos index_end
    → start < index_end
    → attach p.pid w ≡ (ok false, w')
    → tgid_of proc_file none ≡ ok (some tgid)
    → int (str event) ≡ ok number
    → ((v : Loop t k p.syscalls index_end)
        → Steps t k p.syscalls index_end
            (begun t k p.syscalls start index_end o name event tgid number w')
            v
        → Unmoved t k p.syscalls index_end v)
    → (f : Finish) × (main t k attach proc_file
          (name ∷ names)
          event
          (2 * (index_end - start))
          (some o)
          c
          mutator
          trace
          w
        ≡ some f)
      × Settled t k p.syscalls start index_end o name event tgid number w' f
unfolding main started
main_settles t k attach proc_file name names event o c mutator trace w w' p start index_end tgid
      number ready i e l there group numbered keeps =
    let (f, done, settled) =
      attached-Settled t k p.syscalls start index_end o name event tgid number w' attach proc_file
        names p.pid group numbered keeps l in
    (f, rw (main, ready, started, i, e, there) done, settled)
