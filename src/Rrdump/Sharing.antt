-- ===== src/Rrdump/Sharing.antt =====
-- rrdump.py: which threads share a list of open files behind a clone
use crash_simulator.Base.{
  ◌≡◌, ◌≢◌, ◌↔◌, refl, sym, subst, ap, ◌∙◌, ℕ, ◌<◌, true, false, some, List, [], ◌∷◌, ◌++◌,
  if◌then◌else◌, ℤ, eq_ℤ, eq_ℤ_iff, length, All, arith, Bool-cases, inl, inr,
}
use crash_simulator.Py.{ok}
use crash_simulator.Rrdump.{
  Call, State, get_key, put_key, is_unset, deref, put_new, put_shared, begin, clone_files, made,
  is_clone_exit, bind_result, process_syscall,
}
use crash_simulator.Rrdump.Tables.{All-get_key, get_elem?-snoc, process_known, deref_lem}

-- Every reference names a list that is there.
abbrev pub Valid : State → Type 0
Valid s = All (λ x. x.1 < length s.lists) s.open_fds

pub get_key-put_key :
    (k t : ℤ) (r : ℕ) (d : List (ℤ × ℕ))
    → get_key t (put_key k r d) ≡ (if eq_ℤ k t then some r else get_key t d)
unfolding get_key put_key
get_key-put_key k t r [] = refl
get_key-put_key k t r ((k', r') ∷ d) = elim (Bool-cases (eq_ℤ k' k)) [
  | inl q ↦ rw (q, (eq_ℤ_iff k' k).0 q) (ground arith)
  | inr q ↦
      rw (q, get_key-put_key k t r d) (ground (arith, eq_ℤ_iff k' t, eq_ℤ_iff k t, eq_ℤ_iff k' k))
]

own_key : (k : ℤ) (r : ℕ) (d : List (ℤ × ℕ)) → get_key k (put_key k r d) ≡ some r
own_key k r d = get_key-put_key k k r d ∙ rw ((eq_ℤ_iff k k).1 refl) refl

other_key : (k t : ℤ) (r : ℕ) (d : List (ℤ × ℕ)) → t ≢ k → get_key t (put_key k r d) ≡ get_key t d
other_key k t r d ne = elim (Bool-cases (eq_ℤ k t)) [
  | inl q ↦ absurd (ne (sym ((eq_ℤ_iff k t).0 q)))
  | inr q ↦ get_key-put_key k t r d ∙ rw q refl
]

pub begin-set : (c : Call) (s : State) → is_unset s.initial_tid ≡ false → begin c s ≡ s
unfolding begin
begin-set c s u = rw (begin, u) refl

module _ (c : Call) (s : State) (r : ℕ) where
  -- The new thread has the list r', with the contents of its parent's. The other threads keep theirs,
  -- and have r' exactly if they have the parent's list and the flags have CLONE_FILES.
  abbrev pub Inherits : State → ℕ → Type 0
  Inherits s' r' =
      (get_key c.result s'.open_fds ≡ some r')
      × (deref s'.lists r' ≡ deref s.lists r)
      × ((t : ℤ)
          → t ≢ c.result
          → (get_key t s'.open_fds ≡ get_key t s.open_fds)
            × ((get_key t s'.open_fds ≡ some r')
                ↔ ((clone_files c ≡ true) × (get_key t s.open_fds ≡ some r))))

  shared-Inherits : clone_files c ≡ true → Inherits (put_shared c.result r s) r
  unfolding put_shared
  shared-Inherits q = (
    own_key c.result r s.open_fds,
    refl,
    λ t ne.
        let e = other_key c.result t r s.open_fds ne in
        (e, ((λ h. (q, sym e ∙ h)), (λ h. e ∙ h.1))),
  )

  copied-Inherits :
      Valid s
      → clone_files c ≡ false
      → Inherits (put_new c.result (deref s.lists r) s) (length s.lists)
  unfolding put_new
  copied-Inherits valid q = (
    own_key c.result (length s.lists) s.open_fds,
    deref_lem (s.lists ++ deref s.lists r ∷ []) (length s.lists) (deref s.lists r)
        (get_elem?-snoc s.lists (deref s.lists r)),
    λ t ne.
        let e = other_key c.result t (length s.lists) s.open_fds ne in
        (e, ((λ h. absurd (below t (sym e ∙ h))), (λ h. ground (arith, h.0, q)))),
  )
    where
      below : (t : ℤ) → get_key t s.open_fds ≡ some (length s.lists) → ⊥
      below t h =
          let l = All-get_key (λ i. i < length s.lists) t (length s.lists) s.open_fds valid h in
          omega (arith, l)

  pub bound_shared : clone_files c ≡ true → bind_result c r s ≡ put_shared c.result r s
  unfolding bind_result
  bound_shared q = rw (bind_result, q) refl

  pub bound_copied :
      clone_files c ≡ false → bind_result c r s ≡ put_new c.result (deref s.lists r) s
  unfolding bind_result
  bound_copied q = rw (bind_result, q) refl

  bound-Inherits : Valid s → (r' : ℕ) × Inherits (bind_result c r s) r'
  bound-Inherits valid = elim (Bool-cases (clone_files c)) [
    | inl q ↦ (r, subst (λ x. Inherits x r) (sym (bound_shared q)) (shared-Inherits q))
    | inr q ↦ (
      length s.lists,
      subst (λ x. Inherits x (length s.lists)) (sym (bound_copied q)) (copied-Inherits valid q),
    )
  ]

-- Behind the first call, where every reference names a list that is there: the exit of a clone by a
-- thread with a list raises nothing and gives the new thread a list with the same contents; the other
-- threads keep theirs; and exactly those of them have the new thread's list that had the parent's, if
-- the flags have CLONE_FILES, and none of them if not.
pub clone_shares_iff :
    (c : Call) (s : State) (r : ℕ)
    → Valid s
    → is_unset s.initial_tid ≡ false
    → is_clone_exit c ≡ true
    → get_key c.rec_tid s.open_fds ≡ some r
    → ((process_syscall c s).0 ≡ ok tt) × ((r' : ℕ) × Inherits c s r (process_syscall c s).1 r')
clone_shares_iff c s r valid u q h =
    let b = begin-set c s u in
    let e = process_known c s r q (ap (λ (x : State). get_key c.rec_tid x.open_fds) b ∙ h) in
    let e' = e ∙ ap (λ (x : State). (ok tt, made c (bind_result c r x))) b in
    subst (λ x. (x.0 ≡ ok tt) × ((r' : ℕ) × Inherits c s r x.1 r')) (sym e')
      (refl, bound-Inherits c s r valid)
