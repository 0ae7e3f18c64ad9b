-- ===== src/Inject/Loop/Verdict.antt =====
-- The verdict that the loop of src/inject.py prints at the end of a replay.
use crash_simulator.Base.{
  ◌≡◌, ◌≢◌, ap, sym, subst, ◌∙◌, ℕ, suc, Bool, true, not, Option, none, some, List, [], ◌∷◌, ◌++◌,
  get_elem?, if◌then◌else◌, arith, Option-cases, inl, inr,
}
use crash_simulator.Py.{Result, ok, raised, for_each, Result-cases}
use crash_simulator.Syscall.{Syscall}
use crash_simulator.Checker.Classes.{Checker}
use crash_simulator.Inject.Loop.{
  Tracer, replayed, Loop, handle_call, feed, turn, stopped, next_stop, fed, handled, round,
}
use crash_simulator.Inject.Loop.Feeds.{
  Seen, Steps, Unmoved, for_each-snoc, round_lem, Seen-turn, checker_sees_calls,
}

module _ {W : Type 0} (t : Tracer W) (k : Checker) (syscalls : List Syscall) (index_end : ℕ) where
  last_stop :
      (s v : Loop t k syscalls index_end) (o : k.Object) (b : Option Bool)
      → s.checker ≡ some o
      → next_stop t k syscalls index_end s ≡ (replayed b, v)
      → (b ≡ some (k.is_accepting o))
        × (s.globals.syscall_index ≡ index_end)
        × (v.globals.entering_syscall ≡ s.globals.entering_syscall)
  unfolding next_stop stopped
  last_stop s v o b q h = ground (arith, q, h)

  handled_last :
      (c : Syscall) (r : Result (Unit {0})) (s v : Loop t k syscalls index_end) (o : k.Object)
      (b : Option Bool)
      → s.checker ≡ some o
      → handled t k syscalls index_end c r s ≡ (replayed b, v)
      → (r ≡ ok tt)
        × ((k.transition c o).0 ≡ ok tt)
        × (b ≡ some (k.is_accepting (k.transition c o).1))
        × ((turn t k syscalls index_end s.globals).syscall_index ≡ index_end)
        × (v.globals.entering_syscall ≡ not s.globals.entering_syscall)
  unfolding handled feed fed turn
  handled_last c (raised e) s v o b q h = ground arith
  handled_last c (ok u) s v o b q h = elim (Result-cases (k.transition c o).0) [
    | inl (e, r) ↦ ground (arith, q, r)
    | inr (w, r) ↦ ground (
      arith,
      q,
      r,
      last_stop
          (record {
            globals = turn t k syscalls index_end s.globals;
            checker = some (k.transition c o).1;
          })
          v (k.transition c o).1 b,
    )
  ]

  round_no_end :
      (s v : Loop t k syscalls index_end) (b : Option Bool)
      → get_elem? syscalls s.globals.syscall_index ≡ none
      → round t k syscalls index_end s ≢ (replayed b, v)
  unfolding round
  round_no_end s v b e h = ground arith

  -- After rounds from a state that enters a call, in each of which, and in the one that ends the replay,
  -- the handler leaves the index, and the flag at the exit of a call, as it is: the verdict that is
  -- printed at the end is that of the checker on the calls of the trace from the start to the end index,
  -- in order, each once or twice.
  pub verdict_on_calls :
      (start : ℕ) (o : k.Object) (s v w : Loop t k syscalls index_end) (b : Option Bool)
      → s.globals.syscall_index ≡ start
      → s.globals.entering_syscall ≡ true
      → s.checker ≡ some o
      → Steps t k syscalls index_end s v
      → Unmoved t k syscalls index_end v
      → round t k syscalls index_end v ≡ (replayed b, w)
      → (l : List Syscall) × (o' : k.Object) × Seen syscalls start index_end
          w.globals.entering_syscall l
        × (for_each k.transition l o ≡ (ok tt, o'))
        × (b ≡ some (k.is_accepting o'))
  unfolding turn
  verdict_on_calls start o s v w b i e q runs keeps h =
      let (l, o', seen, q', run) =
        checker_sees_calls t k syscalls index_end start o s v i e q runs in
      elim (Option-cases (get_elem? syscalls v.globals.syscall_index)) [
        | inl n ↦ absurd (round_no_end v w b n h)
        | inr (c, g) ↦
            let (r, after) = handle_call t k syscalls index_end c v.globals in
            let a =
              handled_last c r (record v { globals = after }) w o' b q'
                (sym (round_lem t k syscalls index_end v c g) ∙ h) in
            let kept = keeps c g a.0 in
            let turned =
              Seen-turn t k syscalls index_end start v.globals.syscall_index
                v.globals.entering_syscall after.entering_syscall l c seen g kept.1 in
            let at_end : (if after.entering_syscall
                  then v.globals.syscall_index
                  else suc v.globals.syscall_index)
                ≡ index_end =
              ap (λ n. if after.entering_syscall then n else suc n) (sym kept.0) ∙ a.3 in
            (
              l ++ c ∷ [],
              (k.transition c o').1,
              subst (λ n. Seen syscalls start n w.globals.entering_syscall (l ++ c ∷ [])) at_end
                  (subst
                    (λ x.
                      Seen syscalls start
                        (if after.entering_syscall
                          then v.globals.syscall_index
                          else suc v.globals.syscall_index)
                        x (l ++ c ∷ []))
                    (sym a.4) turned),
              for_each-snoc k.transition l c o o' (k.transition c o').1 run
                  (ap (λ x. (x, (k.transition c o').1)) a.1),
              a.2,
            )
      ]
