-- ===== src/Rrdump/Tables.antt =====
-- rrdump.py: the lists of open files of the threads, and which threads share one
use crash_simulator.Base.{
  ◌≡◌, refl, ℕ, zero, suc, ◌<◌, true, false, none, some, List, [], ◌∷◌, ◌++◌, map, ℤ, eq_ℤ, length,
  get_elem?, All, All-mono, arith, Bool-cases, Option-cases, inl, inr,
}
use crash_simulator.Py.{ok, raised, key_error}
use crash_simulator.Rrdump.{
  Call, State, imported, get_key, put_key, is_unset, deref, put_new, put_shared, begin, clone_files,
  is_clone_exit, made, bind_result, handle_clone, process_syscall, dump,
}

-- A sequence of calls, where a call that raises does not end the recording.
unfoldable pub recording : List Call → State → State
recording [] s = s
recording (c ∷ cs) s = recording cs (process_syscall c s).1

module _ (c : Call) (s : State) where
  pub process_plain : is_clone_exit c ≡ false → process_syscall c s ≡ (ok tt, made c (begin c s))
  unfolding process_syscall
  process_plain q = rw (process_syscall, q) refl

  pub process_unknown :
      is_clone_exit c ≡ true
      → get_key c.rec_tid (begin c s).open_fds ≡ none
      → process_syscall c s ≡ (raised key_error, begin c s)
  unfolding process_syscall handle_clone
  process_unknown q e = rw (process_syscall, q, handle_clone, e) refl

  pub process_known :
      (r : ℕ)
      → is_clone_exit c ≡ true
      → get_key c.rec_tid (begin c s).open_fds ≡ some r
      → process_syscall c s ≡ (ok tt, made c (bind_result c r (begin c s)))
  unfolding process_syscall handle_clone
  process_known r q e = rw (process_syscall, q, handle_clone, e) refl

pub get_elem?-snoc : (l : List (List ℕ)) (x : List ℕ) → get_elem? (l ++ x ∷ []) (length l) ≡ some x
get_elem?-snoc [] x = refl
get_elem?-snoc (y ∷ l) x = get_elem?-snoc l x

get_elem?-front :
    (l m : List (List ℕ)) (i : ℕ) (x : List ℕ)
    → get_elem? l i ≡ some x
    → get_elem? (l ++ m) i ≡ some x
get_elem?-front [] m i x h = cc
get_elem?-front (y ∷ l) m zero x h = h
get_elem?-front (y ∷ l) m (suc i) x h = get_elem?-front l m i x h

get_elem?-below :
    (l m : List (List ℕ)) (i : ℕ) → i < length l → get_elem? (l ++ m) i ≡ get_elem? l i
get_elem?-below [] m i h = absurd (omega arith)
get_elem?-below (y ∷ l) m zero h = refl
get_elem?-below (y ∷ l) m (suc i) h = get_elem?-below l m i (omega (arith, h))

module _ (P : ℕ → Type 0) where
  All-put_key :
      (k : ℤ) (r : ℕ) (d : List (ℤ × ℕ))
      → All (λ x. P x.1) d
      → P r
      → All (λ x. P x.1) (put_key k r d)
  unfolding put_key
  All-put_key k r [] a p = (p, tt)
  All-put_key k r ((k', r') ∷ d) a p = elim (Bool-cases (eq_ℤ k' k)) [
    | inl q ↦ rw q (p, a.1)
    | inr q ↦ rw q (a.0, All-put_key k r d a.1 p)
  ]

  pub All-get_key :
      (k : ℤ) (r : ℕ) (d : List (ℤ × ℕ)) → All (λ x. P x.1) d → get_key k d ≡ some r → P r
  unfolding get_key
  All-get_key k r [] a h = cc
  All-get_key k r ((k', r') ∷ d) a h = elim (Bool-cases (eq_ℤ k' k)) [
    | inl q ↦ rw (← found k' r' d q h) a.0
    | inr q ↦ All-get_key k r d a.1 (passed k' r' d q h)
  ]
    where
      found :
          (k' : ℤ) (r' : ℕ) (d : List (ℤ × ℕ))
          → eq_ℤ k' k ≡ true
          → get_key k ((k', r') ∷ d) ≡ some r
          → r' ≡ r
      found k' r' d q h = ground (arith, q, h)

      passed :
          (k' : ℤ) (r' : ℕ) (d : List (ℤ × ℕ))
          → eq_ℤ k' k ≡ false
          → get_key k ((k', r') ∷ d) ≡ some r
          → get_key k d ≡ some r
      passed k' r' d q h = ground (arith, q, h)

-- Each thread has a list, and it is 0, 1 and 2.
abbrev pub Standard : State → Type 0
Standard s = All (λ x. get_elem? s.lists x.1 ≡ some (0 ∷ 1 ∷ 2 ∷ [])) s.open_fds

put_new-Standard : (t : ℤ) (s : State) → Standard s → Standard (put_new t (0 ∷ 1 ∷ 2 ∷ []) s)
unfolding put_new
put_new-Standard t s a =
    All-put_key (λ r. get_elem? (s.lists ++ (0 ∷ 1 ∷ 2 ∷ []) ∷ []) r ≡ some (0 ∷ 1 ∷ 2 ∷ [])) t
      (length s.lists) s.open_fds
      (All-mono (λ x. get_elem? s.lists x.1 ≡ some (0 ∷ 1 ∷ 2 ∷ []))
        (λ x. get_elem? (s.lists ++ (0 ∷ 1 ∷ 2 ∷ []) ∷ []) x.1 ≡ some (0 ∷ 1 ∷ 2 ∷ [])) s.open_fds
        (λ x p. get_elem?-front s.lists ((0 ∷ 1 ∷ 2 ∷ []) ∷ []) x.1 (0 ∷ 1 ∷ 2 ∷ []) p) a)
      (get_elem?-snoc s.lists (0 ∷ 1 ∷ 2 ∷ []))

begin-Standard : (c : Call) (s : State) → Standard s → Standard (begin c s)
unfolding begin
begin-Standard c s a = elim (Bool-cases (is_unset s.initial_tid)) [
  | inl q ↦ rw q (put_new-Standard c.rec_tid (record s { initial_tid = some c.rec_tid }) a)
  | inr q ↦ rw q a
]

pub deref_lem :
    (lists : List (List ℕ)) (r : ℕ) (l : List ℕ) → get_elem? lists r ≡ some l → deref lists r ≡ l
deref_lem lists r l p = rw (deref, p) refl

bind_result-Standard :
    (c : Call) (r : ℕ) (s : State)
    → Standard s
    → get_elem? s.lists r ≡ some (0 ∷ 1 ∷ 2 ∷ [])
    → Standard (bind_result c r s)
unfolding bind_result put_shared
bind_result-Standard c r s a p = elim (Bool-cases (clone_files c)) [
  | inl q ↦
      rw q
        (All-put_key (λ i. get_elem? s.lists i ≡ some (0 ∷ 1 ∷ 2 ∷ [])) c.result r s.open_fds a p)
  | inr q ↦ rw (q, deref_lem s.lists r (0 ∷ 1 ∷ 2 ∷ []) p) (put_new-Standard c.result s a)
]

process_syscall-Standard : (c : Call) (s : State) → Standard s → Standard (process_syscall c s).1
process_syscall-Standard c s a = elim (Bool-cases (is_clone_exit c)) [
  | inl q ↦ elim (Option-cases (get_key c.rec_tid (begin c s).open_fds)) [
    | inl e ↦ rw (process_unknown c s q e) (begin-Standard c s a)
    | inr (r, e) ↦ rw (process_known c s r q e) (
        bind_result-Standard c r (begin c s) (begin-Standard c s a) (
          All-get_key (λ i. get_elem? (begin c s).lists i ≡ some (0 ∷ 1 ∷ 2 ∷ [])) c.rec_tid r
            (begin c s).open_fds (begin-Standard c s a) e))
  ]
  | inr q ↦ rw (process_plain c s q) (begin-Standard c s a)
]

recording-Standard : (cs : List Call) (s : State) → Standard s → Standard (recording cs s)
unfolding recording
recording-Standard [] s a = a
recording-Standard (c ∷ cs) s a =
    recording-Standard cs (process_syscall c s).1 (process_syscall-Standard c s a)

-- Whatever the calls, dump_state writes the list 0, 1, 2 for every thread: no call of open, dup, pipe
-- or close changes what is collected.
pub tables_stay_standard :
    (cs : List Call)
    → All {A = ℤ × List ℕ} (λ x. x.1 ≡ 0 ∷ 1 ∷ 2 ∷ []) (dump (recording cs imported)).fds
unfolding dump
tables_stay_standard cs =
    dumped (recording cs imported) (recording cs imported).open_fds
      (recording-Standard cs imported tt)
  where
    dumped :
        (s : State) (d : List (ℤ × ℕ))
        → All (λ x. get_elem? s.lists x.1 ≡ some (0 ∷ 1 ∷ 2 ∷ [])) d
        → All {A = ℤ × List ℕ} (λ x. x.1 ≡ 0 ∷ 1 ∷ 2 ∷ []) (map (λ x. (x.0, deref s.lists x.1)) d)
    dumped s [] a = tt
    dumped s ((k, r) ∷ d) a = (deref_lem s.lists r (0 ∷ 1 ∷ 2 ∷ []) a.0, dumped s d a.1)
