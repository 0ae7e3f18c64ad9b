-- ===== src/Inject/Dispatch/Laws.antt =====
-- The dispatch of system calls in src/inject.py: answers and exceptions.
use crash_simulator.Base.{
  ◌≡◌, refl, subst, sym, ℕ, Bool, true, false, none, some, List, [], ◌∷◌, ℤ, pos, eq_ℤ, eq_ℤ_iff,
  ◌&&◌, if◌then◌else◌, is_some, Option-cases, Bool-cases, inl, inr, arith,
}
use crash_simulator.Py.{Result, ok, raised, key_error, not_implemented}
use crash_simulator.Syscall.{Syscall}
use crash_simulator.Inject.Tables.{Printer, Entry, handlers, ignore_list, debug_printers}
use crash_simulator.Inject.Dispatch.{
  Replayer, by_id, in_ids, same_direction, handler_of, found, no_key_error, rename_key_error,
  call_found, subcall_of, handle_socketcall, handle_traced, handle_syscall, reported,
  debug_handle_syscall,
}

-- The ids with a handler for leaving the call.
abbrev exit_ids : List Entry → List ℕ
exit_ids [] = []
exit_ids (e ∷ l) = if e.entering then exit_ids l else e.id ∷ exit_ids l

abbrev has_entry_handlers : List Entry → List Entry → Bool
has_entry_handlers l [] = true
has_entry_handlers l (e ∷ k) = is_some (handler_of (pos e.id) true l) && has_entry_handlers l k

entry_handler :
    (l k : List Entry) (id : ℤ)
    → has_entry_handlers l k ≡ true
    → found id k ≡ true
    → is_some (handler_of id true l) ≡ true
unfolding found
entry_handler l [] id h f = cc
entry_handler l (e ∷ k) id h f = elim (Bool-cases (eq_ℤ id (pos e.id))) [
  | inl q ↦ rw ((eq_ℤ_iff id (pos e.id)).0 q) (ground arith)
  | inr q ↦ entry_handler l k id (ground arith) (ground arith)
]

no_exit_handler :
    (l : List Entry) (id : ℤ) → in_ids id (exit_ids l) ≡ false → handler_of id false l ≡ none
unfolding in_ids handler_of same_direction
no_exit_handler [] id h = refl
no_exit_handler (e ∷ l) id h = ground (arith, no_exit_handler l id)

not_found : (l : List Entry) (id : ℤ) → found id l ≡ false → handler_of id true l ≡ none
unfolding found handler_of
not_found [] id f = refl
not_found (e ∷ l) id f = ground (arith, not_found l id)

all_entered : has_entry_handlers handlers handlers ≡ true
unfolding handlers handler_of same_direction eq_ℤ
all_entered = refl

-- The only calls with a handler for their exit: brk, munmap, _llseek and mmap2.
abbrev pub exit_handled : List ℕ
exit_handled = 45 ∷ 91 ∷ 140 ∷ 192 ∷ []

exit_handlers : exit_ids handlers ≡ exit_handled
unfolding handlers
exit_handlers = refl

module _ {W : Type 0} (r : Replayer W) where
  -- A validated call that is entered, and is not ignored, is answered by the handler of its id for
  -- entering if there is one, and ends in NotImplementedError if not: the lookup in `handlers` that
  -- follows the test on `found` never raises the KeyError of a missing key.
  pub traced_entry :
      (id : ℤ) (c : Syscall) (s s' : W)
      → r.validate_syscall id c s ≡ (ok tt, s')
      → in_ids id ignore_list ≡ false
      → handle_traced r id c true s ≡ elim (handler_of id true handlers) [
        | some h ↦ r.run_handler h id c s'
        | none ↦ (raised not_implemented, s')
      ]
  unfolding handle_traced call_found
  traced_entry id c s s' v i = elim (Bool-cases (found id handlers)) [
    | inl f ↦ ground (arith, v, i, f, entry_handler handlers handlers id all_entered f)
    | inr f ↦ ground (arith, v, i, f, not_found handlers id f)
  ]

  -- Leaving a call whose id is in `handlers`, is not ignored, and is none of 45, 91, 140 and 192, is a
  -- KeyError, not a NotImplementedError: `found` asks for the id alone.
  pub traced_exit_key_error :
      (id : ℤ) (c : Syscall) (s s' : W)
      → r.validate_syscall id c s ≡ (ok tt, s')
      → in_ids id ignore_list ≡ false
      → found id handlers ≡ true
      → in_ids id exit_handled ≡ false
      → handle_traced r id c false s ≡ (raised key_error, s')
  unfolding handle_traced call_found
  traced_exit_key_error id c s s' v i f x =
      rw
        (
          v,
          i,
          f,
          no_exit_handler handlers id (subst (λ l. in_ids id l ≡ false) (sym exit_handlers) x),
        )
        refl

  -- Leaving a socket call whose subcall id is read and validated is a NotImplementedError, since every
  -- key of `subcall_handlers` is for entering.
  pub socketcall_exit :
      (id : ℤ) (c : Syscall) (s s' s'' : W) {sub : ℤ}
      → r.peek_ebx s ≡ (ok sub, s')
      → r.validate_subcall sub c s' ≡ (ok tt, s'')
      → handle_syscall r (pos 102) c false s ≡ (raised not_implemented, s'')
  unfolding handle_syscall handle_socketcall no_key_error rename_key_error call_found subcall_of
      eq_ℤ
  socketcall_exit id c s s' s'' p v = rw (p, v) refl

  reported_same :
      (id : ℤ) (c : Syscall) (result : Result (Unit {0})) (s : W)
      → ((p : Printer) (w : W) → (r.run_printer p id c w).0 ≡ ok tt)
      → (reported r id c result s).0 ≡ result
  unfolding reported
  reported_same id c (ok u) s quiet = refl
  reported_same id c (raised e) s quiet = elim (Bool-cases (r.is_delta e)) [
    | inr d ↦ rw d refl
    | inl d ↦ elim (Option-cases (by_id id debug_printers)) [
      | inl q ↦ rw (d, q) refl
      | inr (p, q) ↦ rw (d, q, quiet p s) refl
    ]
  ]

  -- The debugging wrapper changes no outcome: where no printer raises, it returns and raises what
  -- handle_syscall does.
  pub debug_same_outcome :
      (id : ℤ) (c : Syscall) (entering : Bool) (s : W)
      → ((p : Printer) (w : W) → (r.run_printer p id c w).0 ≡ ok tt)
      → (debug_handle_syscall r id c entering s).0 ≡ (handle_syscall r id c entering s).0
  unfolding debug_handle_syscall
  debug_same_outcome id c entering s quiet =
      let (result, s') = handle_syscall r id c entering s in reported_same id c result s' quiet
