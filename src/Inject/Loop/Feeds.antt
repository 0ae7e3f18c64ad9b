-- ===== src/Inject/Loop/Feeds.antt =====
-- The calls that the loop of src/inject.py gives to the checker.
use crash_simulator.Base.{
  ◌≡◌, ◌≢◌, refl, ap, sym, ◌∙◌, ℕ, suc, Bool, true, false, not, none, some, List, [], ◌∷◌, ◌++◌,
  get_elem?, if◌then◌else◌, arith, Option-cases, inl, inr,
}
use crash_simulator.Py.{Result, ok, raised, Py, for_each, Result-cases}
use crash_simulator.Syscall.{Syscall}
use crash_simulator.Checker.Classes.{Checker}
use crash_simulator.Inject.Loop.{
  Tracer, goes_on, Loop, handle_call, feed, turn, next_stop, fed, handled, round,
}

-- `Seen calls i entering l`: from the position `start` on, each call of the trace up to `i` is in `l`
-- once or twice, in order; the call at `i` is in it too if its exit is still to come.
pub data Seen (calls : List Syscall) (start : ℕ) : ℕ → Bool → List Syscall → Type 0 where
  nothing : Seen calls start start true []
  once :
      {i : ℕ} {l : List Syscall} (c : Syscall)
      → Seen calls start i true l
      → get_elem? calls i ≡ some c
      → Seen calls start (suc i) true (l ++ c ∷ [])
  entered :
      {i : ℕ} {l : List Syscall} (c : Syscall)
      → Seen calls start i true l
      → get_elem? calls i ≡ some c
      → Seen calls start i false (l ++ c ∷ [])
  left :
      {i : ℕ} {l : List Syscall} (c : Syscall)
      → Seen calls start i false l
      → get_elem? calls i ≡ some c
      → Seen calls start (suc i) true (l ++ c ∷ [])

pub for_each-snoc :
    {S A : Type 0} (body : A → Py S (Unit {0})) (l : List A) (x : A) (s s' s'' : S)
    → for_each body l s ≡ (ok tt, s')
    → body x s' ≡ (ok tt, s'')
    → for_each body (l ++ x ∷ []) s ≡ (ok tt, s'')
unfolding for_each
for_each-snoc body [] x s s' s'' p q = ground arith
for_each-snoc body (y ∷ l) x s s' s'' p q = elim (Result-cases (body y s).0) [
  | inl (e, r) ↦ ground arith
  | inr (u, r) ↦ ground (arith, for_each-snoc body l x (body y s).1 s' s'')
]

module _ {W : Type 0} (t : Tracer W) (k : Checker) (syscalls : List Syscall) (index_end : ℕ) where
  -- What the rounds keep: the checker is where a run over the calls seen leaves it.
  abbrev Fed : ℕ → k.Object → Loop t k syscalls index_end → Type 0
  Fed start o s =
      (l : List Syscall) × (o' : k.Object) × Seen syscalls start s.globals.syscall_index
        s.globals.entering_syscall l
      × (s.checker ≡ some o')
      × (for_each k.transition l o ≡ (ok tt, o'))

  next_stop_lem :
      (s v : Loop t k syscalls index_end)
      → next_stop t k syscalls index_end s ≡ (goes_on, v)
      → (v.checker ≡ s.checker)
        × (v.globals.syscall_index ≡ s.globals.syscall_index)
        × (v.globals.entering_syscall ≡ s.globals.entering_syscall)
  unfolding next_stop
  next_stop_lem s v h = ground arith

  handled_lem :
      (c : Syscall) (r : Result (Unit {0})) (s v : Loop t k syscalls index_end) (o : k.Object)
      → s.checker ≡ some o
      → handled t k syscalls index_end c r s ≡ (goes_on, v)
      → (r ≡ ok tt)
        × ((k.transition c o).0 ≡ ok tt)
        × (v.checker ≡ some (k.transition c o).1)
        × (v.globals.syscall_index ≡ (turn t k syscalls index_end s.globals).syscall_index)
        × (v.globals.entering_syscall ≡ not s.globals.entering_syscall)
  unfolding handled feed fed turn
  handled_lem c (raised e) s v o q h = ground arith
  handled_lem c (ok u) s v o q h = elim (Result-cases (k.transition c o).0) [
    | inl (e, r) ↦ ground (arith, q, r)
    | inr (w, r) ↦ ground (
      arith,
      q,
      r,
      next_stop_lem
          (record {
            globals = turn t k syscalls index_end s.globals;
            checker = some (k.transition c o).1;
          })
          v,
    )
  ]

  pub round_lem :
      (s : Loop t k syscalls index_end) (c : Syscall)
      → get_elem? syscalls s.globals.syscall_index ≡ some c
      → let (r, g) = handle_call t k syscalls index_end c s.globals in
        round t k syscalls index_end s
        ≡ handled t k syscalls index_end c r (record s { globals = g })
  unfolding round
  round_lem s c e = rw (round, e) refl

  round_stuck :
      (s v : Loop t k syscalls index_end)
      → get_elem? syscalls s.globals.syscall_index ≡ none
      → round t k syscalls index_end s ≢ (goes_on, v)
  unfolding round
  round_stuck s v e h = ground arith

  pub Seen-turn :
      (start i : ℕ) (b b' : Bool) (l : List Syscall) (c : Syscall)
      → Seen syscalls start i b l
      → get_elem? syscalls i ≡ some c
      → (b ≡ false → b' ≡ false)
      → Seen syscalls start (if b' then i else suc i) (not b') (l ++ c ∷ [])
  Seen-turn start i true true l c s e f = entered c s e
  Seen-turn start i true false l c s e f = once c s e
  Seen-turn start i false false l c s e f = left c s e
  Seen-turn start i false true l c s e f = absurd (true_ne_false (f refl))
    where
      true_ne_false : true ≡ false → ⊥
      true_ne_false q = cc

  -- In a round, the handler leaves the index as it is, and the flag at the exit of a call: it is no
  -- forger, for instance, whose call is not in the trace.
  abbrev pub Unmoved : Loop t k syscalls index_end → Type 0
  Unmoved s =
      (c : Syscall)
      → get_elem? syscalls s.globals.syscall_index ≡ some c
      → (handle_call t k syscalls index_end c s.globals).0 ≡ ok tt
      → let g = (handle_call t k syscalls index_end c s.globals).1 in
        (g.syscall_index ≡ s.globals.syscall_index)
        × (s.globals.entering_syscall ≡ false → g.entering_syscall ≡ false)

  -- Rounds that all go on, and that leave the index and the flag.
  pub data Steps (s : Loop t k syscalls index_end) : Loop t k syscalls index_end → Type 0 where
    here : Steps s s
    next :
        {u v : Loop t k syscalls index_end}
        → Steps s u
        → Unmoved u
        → round t k syscalls index_end u ≡ (goes_on, v)
        → Steps s v

  round-Fed :
      (start : ℕ) (o : k.Object) (s v : Loop t k syscalls index_end)
      → Fed start o s
      → Unmoved s
      → round t k syscalls index_end s ≡ (goes_on, v)
      → Fed start o v
  unfolding turn
  round-Fed start o s v (l, o', seen, q, run) keeps h =
      elim (Option-cases (get_elem? syscalls s.globals.syscall_index)) [
        | inl e ↦ absurd (round_stuck s v e h)
        | inr (c, e) ↦
            let (r, g) = handle_call t k syscalls index_end c s.globals in
            let a = handled_lem c r (record s { globals = g }) v o' q (sym (round_lem s c e) ∙ h) in
            let b = keeps c e a.0 in
            (
              l ++ c ∷ [],
              (k.transition c o').1,
              rw (a.3, a.4, b.0)
                  (Seen-turn start s.globals.syscall_index s.globals.entering_syscall
                    g.entering_syscall l c seen e b.1),
              a.2,
              for_each-snoc k.transition l c o o' (k.transition c o').1 run
                  (ap (λ x. (x, (k.transition c o').1)) a.1),
            )
      ]

  -- After any number of rounds from a state that enters a call, in each of which the handler leaves the
  -- index, and the flag at the exit of a call, as it is: the checker is where a run over the calls of
  -- the trace leaves it, from the start to the current index, in order, each once or twice.
  pub checker_sees_calls :
      (start : ℕ) (o : k.Object) (s v : Loop t k syscalls index_end)
      → s.globals.syscall_index ≡ start
      → s.globals.entering_syscall ≡ true
      → s.checker ≡ some o
      → Steps s v
      → (l : List Syscall) × (o' : k.Object) × Seen syscalls start v.globals.syscall_index
          v.globals.entering_syscall l
        × (v.checker ≡ some o')
        × (for_each k.transition l o ≡ (ok tt, o'))
  checker_sees_calls start o s _ i e q here = ([], o, rw (i, e) nothing, q, unfold for_each in refl)
  checker_sees_calls start o s v i e q (next {u} r kept h) =
      round-Fed start o u v (checker_sees_calls start o s u i e q r) kept h
