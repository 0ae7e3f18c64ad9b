-- ===== src/Inject/Main/Ends.antt =====
-- How the loop of src/inject.py ends
use crash_simulator.Base.{
  ◌≡◌, ◌≢◌, refl, ap, sym, ◌∙◌, ℕ, zero, suc, ◌+◌, ◌*◌, ◌≤◌, ◌<◌, Bool, true, false, not, Option,
  none, some, List, ℤ, get_elem?, if◌then◌else◌, arith, Option-cases, inl, inr,
}
use crash_simulator.Py.{Text, Result, ok, raised, Py, Result-cases}
use crash_simulator.Syscall.{Syscall}
use crash_simulator.Checker.Classes.{Checker}
use crash_simulator.Inject.Loop.{
  Globals, Tracer, Outcome, goes_on, exited, failed, replayed, crashed, Loop, handle_call, feed,
  turn, stopped, next_stop, fed, handled, round,
}
use crash_simulator.Inject.Loop.Feeds.{Steps, Unmoved, next, round_lem}
use crash_simulator.Inject.Main.{Finish, is_going, finish, loop}

-- From the call i, a round leads to i', with the exit of the call to come or not.
ahead_round :
    (n i i' e : ℕ) (b b' : Bool)
    → i < e
    → 2 * e ≤ suc n + 2 * i + (if b then 0 else 1)
    → (b ≡ false → b' ≡ false)
    → i' ≡ (if b' then i else suc i)
    → i' ≢ e
    → (i' < e) × (2 * e ≤ n + 2 * i' + (if not b' then 0 else 1))
ahead_round n i i' e true true l m f q ne = (omega (arith, q), omega (arith, q))
ahead_round n i i' e true false l m f q ne = (omega (arith, q), omega (arith, q))
ahead_round n i i' e false false l m f q ne = (omega (arith, q), omega (arith, q))
ahead_round n i i' e false true l m f q ne = let w = f refl in cc

module _ {W : Type 0} (t : Tracer W) (k : Checker) (syscalls : List Syscall) (index_end : ℕ) where
  -- The end is ahead, and the rounds to it are at most `n`.
  abbrev Ahead : ℕ → Globals W → Type 0
  Ahead n g =
      (g.syscall_index < index_end)
      × (2 * index_end ≤ n + 2 * g.syscall_index + (if g.entering_syscall then 0 else 1))

  -- A round that goes on leaves another position than the end.
  next_stop-goes_on :
      (s v : Loop t k syscalls index_end)
      → next_stop t k syscalls index_end s ≡ (goes_on, v)
      → (v.globals.syscall_index ≡ s.globals.syscall_index)
        × (v.globals.entering_syscall ≡ s.globals.entering_syscall)
        × (s.globals.syscall_index ≢ index_end)
  unfolding next_stop stopped
  next_stop-goes_on s v h = ground arith

  handled-goes_on :
      (c : Syscall) (r : Result (Unit {0})) (s v : Loop t k syscalls index_end)
      → handled t k syscalls index_end c r s ≡ (goes_on, v)
      → (r ≡ ok tt)
        × (v.globals.syscall_index ≡ (turn t k syscalls index_end s.globals).syscall_index)
        × (v.globals.entering_syscall ≡ not s.globals.entering_syscall)
        × (v.globals.syscall_index ≢ index_end)
  unfolding handled feed fed turn
  handled-goes_on c (raised e) s v h = ground arith
  handled-goes_on c (ok u) s v h = elim (Result-cases (feed t k syscalls index_end c s.checker).0) [
    | inl (e, r) ↦ ground (arith, r)
    | inr (w, r) ↦ ground (
      arith,
      r,
      next_stop-goes_on
          (record {
            globals = turn t k syscalls index_end s.globals;
            checker = (feed t k syscalls index_end c s.checker).1;
          })
          v,
    )
  ]

  round_past :
      (s v : Loop t k syscalls index_end)
      → get_elem? syscalls s.globals.syscall_index ≡ none
      → round t k syscalls index_end s ≢ (goes_on, v)
  unfolding round
  round_past s v e h = ground arith

  nearer :
      (n : ℕ) (s v : Loop t k syscalls index_end)
      → Ahead (suc n) s.globals
      → Unmoved t k syscalls index_end s
      → round t k syscalls index_end s ≡ (goes_on, v)
      → Ahead n v.globals
  unfolding turn
  nearer n s v a kept h = elim (Option-cases (get_elem? syscalls s.globals.syscall_index)) [
    | inl e ↦ absurd (round_past s v e h)
    | inr (c, e) ↦
        let (r, g) = handle_call t k syscalls index_end c s.globals in
        let (done, at, entering, off) =
          handled-goes_on c r (record s { globals = g }) v
            (sym (round_lem t k syscalls index_end s c e) ∙ h) in
        let (same, leaving) = kept c e done in
        rw entering (
          ahead_round n s.globals.syscall_index v.globals.syscall_index index_end
            s.globals.entering_syscall g.entering_syscall a.0 a.1 leaving
            (at ∙ ap (λ i. if g.entering_syscall then i else suc i) same) off)
  ]

  module _ (attach : ℤ → Py W Bool) (proc_file mut : List Text) (event : Text) (pid : ℤ) where
    -- The loop ends with a round that does not go on, behind rounds from `s` on that do.
    abbrev pub EndsAfter : Loop t k syscalls index_end → Option Finish → Type 0
    EndsAfter s f =
        (v : Loop t k syscalls index_end) × (w : Loop t k syscalls index_end) × (o : Outcome)
        × Steps t k syscalls index_end s v
        × (round t k syscalls index_end v ≡ (o, w))
        × (is_going t k attach proc_file mut event pid syscalls index_end o ≡ false)
        × (f ≡ some (finish t k attach proc_file mut event pid syscalls index_end o w))

    abbrev looped : ℕ → Loop t k syscalls index_end → Option Finish
    looped n s = loop t k attach proc_file mut event pid syscalls index_end n s

    no_rounds : (g : Globals W) → Ahead 0 g → ⊥
    no_rounds g a = ground (arith, a.0, a.1)

    abbrev goes : Outcome → Bool
    goes o = is_going t k attach proc_file mut event pid syscalls index_end o

    loop_next :
        (n : ℕ) (u v : Loop t k syscalls index_end)
        → round t k syscalls index_end u ≡ (goes_on, v)
        → looped (suc n) u ≡ looped n v
    unfolding loop
    loop_next n u v h = ground (arith, ap (λ x. x.0) h, ap (λ x. looped n x.1) h)

    loop_stop :
        (n : ℕ) (u v : Loop t k syscalls index_end) (o : Outcome)
        → round t k syscalls index_end u ≡ (o, v)
        → is_going t k attach proc_file mut event pid syscalls index_end o ≡ false
        → looped (suc n) u ≡ some (finish t k attach proc_file mut event pid syscalls index_end o v)
    unfolding loop
    loop_stop n u v o h q =
        rw (loop, ap (λ x. goes x.0) h ∙ q)
          (ap (λ x. some (finish t k attach proc_file mut event pid syscalls index_end x.0 x.1)) h)

    pub loop_ends :
        (n : ℕ) (s u : Loop t k syscalls index_end)
        → ((v : Loop t k syscalls index_end)
            → Steps t k syscalls index_end s v
            → Unmoved t k syscalls index_end v)
        → Steps t k syscalls index_end s u
        → Ahead n u.globals
        → EndsAfter s (looped n u)
    loop_ends zero s u keeps runs a = absurd (no_rounds u.globals a)
    loop_ends (suc n) s u keeps runs a =
        by_outcome (round t k syscalls index_end u).0 (round t k syscalls index_end u).1 refl
          (λ v h.
            loop_ends n s v keeps (next runs (keeps u runs) h) (nearer n u v a (keeps u runs) h))
      where
        by_outcome :
            (o : Outcome) (w : Loop t k syscalls index_end)
            → round t k syscalls index_end u ≡ (o, w)
            → ((v : Loop t k syscalls index_end)
                → round t k syscalls index_end u ≡ (goes_on, v)
                → EndsAfter s (looped n v))
            → EndsAfter s (looped (suc n) u)
        by_outcome goes_on w h ih = rw (loop_next n u w h) (ih w h)
        by_outcome exited w h ih = (u, w, exited, runs, h, refl, loop_stop n u w exited h refl)
        by_outcome failed w h ih = (u, w, failed, runs, h, refl, loop_stop n u w failed h refl)
        by_outcome (replayed b) w h ih =
            (u, w, replayed b, runs, h, refl, loop_stop n u w (replayed b) h refl)
        by_outcome (crashed e) w h ih =
            (u, w, crashed e, runs, h, refl, loop_stop n u w (crashed e) h refl)
