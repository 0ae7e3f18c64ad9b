-- ===== src/Tests/Loops.antt =====
-- Runs of the loop of src/inject.py.
use crash_simulator.Base.{◌≡◌, refl, Bool, true, false, some, List, [], ◌∷◌, pos, ℕ, eq_ℤ}
use crash_simulator.Py.{text, ok, for_each}
use crash_simulator.Syscall.{Syscall}
use crash_simulator.Checker.Classes.{Checker}
use crash_simulator.Inject.Tables.{forgers, ignore_list}
use crash_simulator.Inject.Dispatch.{
  by_id, in_ids, handle_traced, handle_syscall, reported, debug_handle_syscall,
}
use crash_simulator.Inject.Loop.{
  Globals, Tracer, Loop, handle_call, feed, turn, fed, handled, next_stop, stopped, round,
}
use crash_simulator.Inject.Loop.Feeds.{Seen, Steps, Unmoved, here, next, checker_sees_calls}
use crash_simulator.Tests.Data.{read_3, fstat_3}

-- A process that only calls getrusage, which is ignored, and never exits.
abbrev pub tracer : Tracer (Unit {0})
tracer = record {
  replayer = record {
    peek_ebx = λ g. (ok (pos 1), g);
    validate_subcall = λ id c g. (ok tt, g);
    validate_syscall = λ id c g. (ok tt, g);
    syscall_name = λ id. text "sys_getrusage";
    run_handler = λ h id c g. (ok tt, g);
    run_forger = λ f g. (ok tt, g);
    run_printer = λ p id c g. (ok tt, g);
    is_delta = λ e. false;
  };
  peek_orig_eax = λ g. (ok (pos 77), g);
  resume = λ w. (ok false, w);
}

abbrev at : ℕ → Bool → Globals (Unit {0})
at i entering = record { syscall_index = i; entering_syscall = entering; world = tt }

-- A checker that keeps the calls that it is given.
abbrev pub recorder : Checker
recorder = record {
  Object = List Syscall;
  start = [];
  transition = λ c l. (ok tt, c ∷ l);
  is_accepting = λ l. true;
}

abbrev pub calls : List Syscall
calls = read_3 ∷ fstat_3 ∷ []

module _ (index_end : ℕ) where
  abbrev loop : ℕ → Bool → List Syscall → Loop tracer recorder calls index_end
  loop i entering l = record { globals = at i entering; checker = some l }

  pub state-Unmoved :
      (s : Loop tracer recorder calls index_end) → Unmoved tracer recorder calls index_end s
  unfolding handle_call debug_handle_syscall handle_syscall handle_traced reported by_id forgers
      in_ids ignore_list eq_ℤ
  state-Unmoved s c h r = (refl, λ e. e)

-- The entry of the first call, and its exit.
first_round : Steps tracer recorder calls 2 (loop 2 0 true []) (loop 2 0 false (read_3 ∷ []))
unfolding round handle_call handled feed fed turn next_stop stopped debug_handle_syscall
    handle_syscall handle_traced reported by_id forgers in_ids ignore_list eq_ℤ
first_round = next here (state-Unmoved 2 (loop 2 0 true [])) refl

two_rounds : Steps tracer recorder calls 2 (loop 2 0 true []) (loop 2 1 true (read_3 ∷ read_3 ∷ []))
unfolding round handle_call handled feed fed turn next_stop stopped debug_handle_syscall
    handle_syscall handle_traced reported by_id forgers in_ids ignore_list eq_ℤ
two_rounds = next first_round (state-Unmoved 2 (loop 2 0 false (read_3 ∷ []))) refl

checker_sees_calls_example :
    (l : List Syscall) × (o' : List Syscall) × Seen calls 0 1 true l
    × (some (read_3 ∷ read_3 ∷ []) ≡ some o')
    × (for_each recorder.transition l [] ≡ (ok tt, o'))
checker_sees_calls_example =
    checker_sees_calls tracer recorder calls 2 0 [] (loop 2 0 true [])
      (loop 2 1 true (read_3 ∷ read_3 ∷ [])) refl refl refl two_rounds
