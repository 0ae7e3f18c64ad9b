-- ===== src/Mutator/Each.antt =====
-- The loop `for k, v in enumerate(syscalls)` of `mutate_syscalls`.
use crash_simulator.Base.{
  ◌≡◌, refl, Bool, true, false, Option, none, some, List, [], ◌∷◌, map, arith, inl, inr, All,
}
use crash_simulator.Py.{Text, Result, ok, raised, Result-cases, then_try}
use crash_simulator.Syscall.{Syscall}

abbrev pub prepend : Syscall → Result (Unit {0}) × List Syscall → Result (Unit {0}) × List Syscall
prepend c p = (p.0, c ∷ p.1)

-- Each call is rewritten in place. An exception ends the loop, and what was rewritten stays so.
unfoldable pub mutate_each :
    (Syscall → Result Syscall) → List Syscall → Result (Unit {0}) × List Syscall
mutate_each f [] = (ok tt, [])
mutate_each f (c ∷ cs) =
    let rest = mutate_each f cs in
    elim (f c) [ raised e ↦ (raised e, c ∷ cs) | ok c' ↦ prepend c' rest ]

-- A name that is given and is not empty counts as true.
abbrev pub is_given : Option Text → Bool
is_given none = false
is_given (some []) = false
is_given (some (x ∷ s)) = true

module _ (f : Syscall → Result Syscall) (g : Syscall → Syscall) where
  -- A loop whose every round gives `g c` where it raises nothing.
  pub mutate_each-eq_map :
      ((c c' : Syscall) → f c ≡ ok c' → c' ≡ g c)
      → (cs : List Syscall) → (mutate_each f cs).0 ≡ ok tt
      → (mutate_each f cs).1 ≡ map g cs
  unfolding mutate_each
  mutate_each-eq_map round [] h = refl
  mutate_each-eq_map round (c ∷ cs) h = elim (Result-cases (f c)) [
    | inl (e, q) ↦ ground arith
    | inr (c', q) ↦ ground (arith, round c c' q, mutate_each-eq_map round cs)
  ]

  -- A loop whose every round gives `g c`.
  pub mutate_each_total :
      ((c : Syscall) → f c ≡ ok (g c)) → (cs : List Syscall) → mutate_each f cs ≡ (ok tt, map g cs)
  unfolding mutate_each
  mutate_each_total round [] = refl
  mutate_each_total round (c ∷ cs) = ground (arith, round c, mutate_each_total round cs)

-- A second loop over what a first one rewrote.
pub mutate_each_chain :
    (f g : Syscall → Result Syscall) (h : Syscall → Syscall) (cs : List Syscall)
    → All (λ c. then_try (f c) g ≡ ok (h c)) cs
    → ((mutate_each f cs).0 ≡ ok tt) × (mutate_each g (mutate_each f cs).1 ≡ (ok tt, map h cs))
unfolding mutate_each
mutate_each_chain f g h [] a = (refl, refl)
mutate_each_chain f g h (c ∷ cs) a = elim (Result-cases (f c)) [
  | inl (e, q) ↦ ground (arith, a.0)
  | inr (c', q) ↦ ground (arith, a.0, q, mutate_each_chain f g h cs a.1)
]
