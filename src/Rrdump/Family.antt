-- ===== src/Rrdump/Family.antt =====
-- rrdump.py: which sequences of calls are recorded without an exception
use crash_simulator.Base.{
  ◌≡◌, ◌≢◌, refl, sym, ap, ◌∙◌, Bool, true, false, not, ◌&&◌, ◌||◌, none, some, List, [], ◌∷◌, ◌++◌,
  if◌then◌else◌, ℕ, length, ℤ, pos, eq_ℤ, eq_ℤ_iff, arith, Bool-cases, Option-cases, inl, inr,
  is_some, ◌⊎◌,
}
use mathlib.Core.List.{append_assoc, append-nil}
use crash_simulator.Py.{Result, ok, raised, key_error, for_each}
use crash_simulator.Rrdump.{
  Call, State, imported, get_key, put_key, is_unset, put_new, put_shared, begin, clone_files, made,
  is_clone_exit, bind_result, process_syscall,
}
use crash_simulator.Rrdump.Tables.{process_plain, process_unknown, process_known}
use crash_simulator.Rrdump.Sharing.{get_key-put_key, begin-set}

unfoldable pub has_tid : ℤ → List ℤ → Bool
has_tid t [] = false
has_tid t (u ∷ us) = eq_ℤ u t || has_tid t us

-- Every clone is by one of the threads, or by a thread that an earlier clone made.
unfoldable pub is_family : List ℤ → List Call → Bool
unfolding has_tid
is_family tids [] = true
is_family tids (c ∷ cs) =
    (not (is_clone_exit c) || has_tid c.rec_tid tids)
    && is_family (if is_clone_exit c then c.result ∷ tids else tids) cs

abbrev pub is_ok : Result (Unit {0}) → Bool
is_ok (ok u) = true
is_ok (raised e) = false

-- The threads are those with a list.
abbrev Tracks : List ℤ → State → Type 0
Tracks tids s =
    (is_unset s.initial_tid ≡ false) × ((t : ℤ) → is_some (get_key t s.open_fds) ≡ has_tid t tids)

put-Tracks :
    (k t : ℤ) (r : ℕ) (d : List (ℤ × ℕ)) (tids : List ℤ)
    → is_some (get_key t d) ≡ has_tid t tids
    → is_some (get_key t (put_key k r d)) ≡ has_tid t (k ∷ tids)
unfolding has_tid
put-Tracks k t r d tids h = ground (arith, get_key-put_key k t r d, h)

bound-Tracks :
    (c : Call) (r : ℕ) (s : State) (tids : List ℤ)
    → Tracks tids s
    → Tracks (c.result ∷ tids) (made c (bind_result c r s))
unfolding bind_result put_shared put_new
bound-Tracks c r s tids a = elim (Bool-cases (clone_files c)) [
  | inl q ↦ rw q (a.0, λ t. put-Tracks c.result t r s.open_fds tids (a.1 t))
  | inr q ↦ rw q (a.0, λ t. put-Tracks c.result t (length s.lists) s.open_fds tids (a.1 t))
]

module _ (c : Call) (s : State) (u : is_unset s.initial_tid ≡ false)
    (q : is_clone_exit c ≡ true) where
  clone_unknown : get_key c.rec_tid s.open_fds ≡ none → process_syscall c s ≡ (raised key_error, s)
  clone_unknown e =
      process_unknown c s q (ap (λ (x : State). get_key c.rec_tid x.open_fds) (begin-set c s u) ∙ e)
      ∙ ap (λ (x : State). (raised key_error, x)) (begin-set c s u)

  clone_known :
      (r : ℕ)
      → get_key c.rec_tid s.open_fds ≡ some r
      → process_syscall c s ≡ (ok tt, made c (bind_result c r s))
  clone_known r e =
      process_known c s r q (ap (λ (x : State). get_key c.rec_tid x.open_fds) (begin-set c s u) ∙ e)
      ∙ ap (λ (x : State). (ok tt, made c (bind_result c r x))) (begin-set c s u)

bind_result-made :
    (c : Call) (r : ℕ) (s : State) → (bind_result c r s).syscalls_made ≡ s.syscalls_made
unfolding bind_result put_shared put_new
bind_result-made c r s = ground arith

-- Behind the first call, in a family.
run-ok :
    (cs : List Call) (s : State) (tids : List ℤ)
    → Tracks tids s
    → (is_ok (for_each process_syscall cs s).0 ≡ is_family tids cs)
      × ((for_each process_syscall cs s).0 ≡ ok tt
          → (for_each process_syscall cs s).1.syscalls_made ≡ s.syscalls_made ++ cs)
unfolding for_each is_family
run-ok [] s tids a = (refl, λ h. sym (append-nil s.syscalls_made))
run-ok (c ∷ cs) s tids a = elim (Bool-cases (is_clone_exit c)) [
  | inl q ↦ elim (Option-cases (get_key c.rec_tid s.open_fds)) [
    | inl e ↦
        rw (clone_unknown c s a.0 q e, q, sym (a.1 c.rec_tid) ∙ ap (λ o. is_some o) e)
          (refl, λ h. cc)
    | inr (r, e) ↦
        let t = made c (bind_result c r s) in
        let (o, m) = run-ok cs t (c.result ∷ tids) (bound-Tracks c r s tids a) in
        rw (clone_known c s a.0 q r e, q, sym (a.1 c.rec_tid) ∙ ap (λ o. is_some o) e)
          (
            o,
            λ h.
                m h
                ∙ ap (λ l. (l ++ c ∷ []) ++ cs) (bind_result-made c r s)
                ∙ append_assoc s.syscalls_made (c ∷ []) cs,
          )
  ]
  | inr q ↦
      let (o, m) = run-ok cs (made c s) tids a in
      rw (process_plain c s q, begin-set c s a.0, q)
        (o, λ h. m h ∙ append_assoc s.syscalls_made (c ∷ []) cs)
]

begin-imported : (c : Call) → c.rec_tid ≢ pos 0 → Tracks (c.rec_tid ∷ []) (begin c imported)
unfolding begin put_new put_key get_key is_unset has_tid
begin-imported c ne = (unset (Bool-cases (eq_ℤ c.rec_tid (pos 0))), λ t. ground arith)
  where
    unset :
        (eq_ℤ c.rec_tid (pos 0) ≡ true) ⊎ (eq_ℤ c.rec_tid (pos 0) ≡ false)
        → eq_ℤ c.rec_tid (pos 0) ≡ false
    unset (inl q) = absurd (ne ((eq_ℤ_iff c.rec_tid (pos 0)).0 q))
    unset (inr q) = q

process_first :
    (c : Call)
    → c.rec_tid ≢ pos 0
    → process_syscall c imported ≡ process_syscall c (begin c imported)
unfolding process_syscall
process_first c ne = rw (begin-set c (begin c imported) (begin-imported c ne).0) refl

-- From the import of the module on, where the first call is by a thread whose number is not 0: the
-- calls are processed without an exception exactly if every clone of them that returns is by that
-- thread or by one that an earlier clone returned; and then all of them are recorded, in order.
pub family_recorded :
    (c : Call) (cs : List Call)
    → c.rec_tid ≢ pos 0
    → (is_ok (for_each process_syscall (c ∷ cs) imported).0 ≡ is_family (c.rec_tid ∷ []) (c ∷ cs))
      × ((for_each process_syscall (c ∷ cs) imported).0 ≡ ok tt
          → (for_each process_syscall (c ∷ cs) imported).1.syscalls_made ≡ c ∷ cs)
unfolding begin is_unset
family_recorded c cs ne =
    let (o, m) = run-ok (c ∷ cs) (begin c imported) (c.rec_tid ∷ []) (begin-imported c ne) in
    let e = from_import c cs ne in
    (ap (λ x. is_ok x.0) e ∙ o, λ h. ap (λ x. x.1.syscalls_made) e ∙ m (ap (λ x. x.0) (sym e) ∙ h))
  where
    from_import :
        (c : Call) (cs : List Call)
        → c.rec_tid ≢ pos 0
        → for_each process_syscall (c ∷ cs) imported
          ≡ for_each process_syscall (c ∷ cs) (begin c imported)
    from_import c cs ne = unfold for_each in rw (process_first c ne) refl
