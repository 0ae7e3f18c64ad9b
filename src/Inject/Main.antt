-- ===== src/Inject/Main.antt =====
-- src/inject.py: main, from the attach to the process to the end of the replay
pub mod Ends
pub mod Settled
use crash_simulator.Base.{
  ℕ, zero, suc, Bool, true, false, Option, none, some, List, [], ℤ, pos, negsuc,
}
use crash_simulator.Py.{Text, Result, ok, raised, Error, Py}
use crash_simulator.Syscall.{Syscall}
use crash_simulator.Checker.Classes.{Checker}
use crash_simulator.Inject.Loop.{
  Tracer, Outcome, goes_on, exited, failed, replayed, crashed, Loop, round,
}
use crash_simulator.Inject.Exit.{Ending, exit_with_status}
use crash_simulator.Inject.Setup.{Config, Prepared, prepare}

-- How main ends: the process has exited, an exception that is not caught, or exit_with_status, behind
-- the verdict of the checker if it is printed, with the processes that are killed.
pub data Finish : Type 0 where
  returned : Finish
  raises : Error → Finish
  stops : Option Bool → Ending → List ℤ → Finish

module _ {W : Type 0} (t : Tracer W) (k : Checker) (attach : ℤ → Py W Bool)
    (proc_file mut : List Text) (event : Text) where
  -- exit_with_status(pid, code, str(mutator), event_number, index)
  unfoldable pub leave : ℤ → ℕ → ℤ → Option Bool → Finish
  unfolding exit_with_status
  leave pid code index verdict =
      let (e, killed) = exit_with_status proc_file pid code mut event index [] in
      stops verdict e killed

  module _ (pid : ℤ) (syscalls : List Syscall) (index_end : ℕ) where
    -- What a round leads to, unless the loop goes on.
    unfoldable pub finish : Outcome → Loop t k syscalls index_end → Finish
    unfolding leave
    finish goes_on s = returned
    finish exited s = returned
    finish failed s = leave pid 1 (pos s.globals.syscall_index) none
    finish (replayed verdict) s = leave pid 0 (pos 0) verdict
    finish (crashed e) s = raises e

    abbrev pub is_going : Outcome → Bool
    is_going goes_on = true
    is_going exited = false
    is_going failed = false
    is_going (replayed verdict) = false
    is_going (crashed e) = false

    -- The loop, with the number of rounds as fuel.
    unfoldable pub loop : ℕ → Loop t k syscalls index_end → Option Finish
    unfolding round finish
    loop zero s = none
    loop (suc n) s =
        let (o, s') = round t k syscalls index_end s in
        let rest = loop n s' in elim (is_going o) [ true ↦ rest | false ↦ some (finish o s') ]

    -- Behind the attach: the process may have exited already.
    unfoldable pub attached : ℕ → ℕ → Option k.Object → Result Bool → W → Option Finish
    unfolding loop
    attached fuel start checker (raised e) w = some (raises e)
    attached fuel start checker (ok true) w = some returned
    attached fuel start checker (ok false) w = loop fuel (record {
      globals = record { syscall_index = start; entering_syscall = true; world = w };
      checker = checker;
    })

  -- The two indexes are not negative, as src/identify_opportunities.py writes them: the model has no
  -- result for one that is.
  unfoldable pub started : ℕ → Option k.Object → W → Prepared → Option Finish
  unfolding attached
  started fuel checker w p =
      let (r, w') = attach p.pid w in
      elim p.syscall_index [
        | pos start ↦ elim p.syscall_index_end [
          | pos index_end ↦ attached p.pid p.syscalls index_end fuel start checker r w'
          | negsuc n ↦ none
        ]
        | negsuc n ↦ none
      ]

  unfoldable pub main :
      ℕ
      → Option k.Object
      → Config
      → Option (List Syscall → Result (Unit {0}) × List Syscall)
      → List Syscall
      → W
      → Option Finish
  unfolding prepare started
  main fuel checker c mutator trace w = elim (prepare c mutator trace) [
    | raised e ↦ some (raises e)
    | ok p ↦ started fuel checker w p
  ]
