-- ===== src/Mutator/Filetype/First.antt =====
-- src/mutator/UnusualFiletype.py: which call mutate_syscalls rewrites, and what becomes of it
use crash_simulator.Base.{
  ◌≡◌, ◌≢◌, ◌||◌, refl, ap, ◌⊎◌, inl, inr, Bool-cases, Bool, true, false, Option, none, some, List,
  [], ◌∷◌, ◌++◌, arith, All, map, if◌then◌else◌, length,
}
use crash_simulator.Py.{
  Text, text, starts_with, is_in, Value, str, value_eq, value_eq_refl, value_eq_iff, ok, raised,
  type_error,
}
use crash_simulator.Syscall.{Syscall, arg}
use crash_simulator.Mutator.Each.{is_given}
use crash_simulator.Mutator.Filetype.Words.{sub_filetype-Substituted, Written, AllWritten}
use crash_simulator.Mutator.Filetype.{
  asked, is_at, find_index, sub_filetype, mutate_value, mutate_args, mutate_at, mutate_syscalls,
}

-- A name or a descriptor that is given, and not empty, is the first argument of a call; or it is not.
abbrev pub Agrees : Option Text → Syscall → Type 0
Agrees none c = Unit {0}
Agrees (some []) c = Unit {0}
Agrees (some (x ∷ s)) c = arg c 0 ≡ ok (str (x ∷ s))

abbrev pub Differs : Option Text → Syscall → Type 0
Differs none c = ⊥
Differs (some []) c = ⊥
Differs (some (x ∷ s)) c = (v : Value) × (arg c 0 ≡ ok v) × (str (x ∷ s) ≢ v)

-- The prefixes of the names of the calls: fstat, and stat or lstat.
abbrev pub is_fstat : Syscall → Bool
is_fstat c = starts_with c.name (text "fstat")

abbrev pub is_stat : Syscall → Bool
is_stat c = starts_with c.name (text "stat") || starts_with c.name (text "lstat")

module _ (name file_descriptor : Option Text) where
  asked-Agrees :
      (wanted : Option Text) (c : Syscall)
      → Agrees wanted c
      → asked name file_descriptor wanted c ≡ ok true
  unfolding asked is_given
  asked-Agrees none c a = refl
  asked-Agrees (some []) c a = refl
  asked-Agrees (some (x ∷ s)) c a = rw (a) (ap (λ b. ok b) (value_eq_refl (str (x ∷ s))))

  asked-Differs :
      (wanted : Option Text) (c : Syscall)
      → Differs wanted c
      → asked name file_descriptor wanted c ≡ ok false
  unfolding asked is_given
  asked-Differs none c d = absurd d
  asked-Differs (some []) c d = absurd d
  asked-Differs (some (x ∷ s)) c (v, e, ne) = elim (Bool-cases (value_eq (str (x ∷ s)) v)) [
    | inl q ↦ absurd (ne ((value_eq_iff (str (x ∷ s)) v).0 q))
    | inr q ↦ rw (e) (ap (λ b. ok b) q)
  ]

  -- The call is looked for: an fstat of the descriptor, or a stat or lstat of the name.
  abbrev pub Wanted : Syscall → Type 0
  Wanted c =
      ((is_fstat c ≡ true) × Agrees file_descriptor c)
      ⊎ ((is_fstat c ≡ false) × (is_stat c ≡ true) × Agrees name c)

  -- It is another call, or one of these for another file.
  abbrev pub Passed : Syscall → Type 0
  Passed c =
      ((is_fstat c ≡ true) × Differs file_descriptor c)
      ⊎ (((is_fstat c ≡ false) × (is_stat c ≡ true) × Differs name c)
          ⊎ ((is_fstat c ≡ false) × (is_stat c ≡ false)))

  is_at-Wanted : (c : Syscall) → Wanted c → is_at name file_descriptor c ≡ ok true
  unfolding is_at
  is_at-Wanted c (inl (p, a)) = rw p (asked-Agrees file_descriptor c a)
  is_at-Wanted c (inr (p, q, a)) = rw (p, q) (asked-Agrees name c a)

  is_at-Passed : (c : Syscall) → Passed c → is_at name file_descriptor c ≡ ok false
  unfolding is_at
  is_at-Passed c (inl (p, d)) = rw p (asked-Differs file_descriptor c d)
  is_at-Passed c (inr (inl (p, q, d))) = rw (p, q) (asked-Differs name c d)
  is_at-Passed c (inr (inr (p, q))) = rw (p, q) refl

  find_index-front :
      (front back : List Syscall) (c : Syscall)
      → All Passed front
      → Wanted c
      → find_index name file_descriptor (front ++ c ∷ back) ≡ ok (some (length front))
  unfolding find_index
  find_index-front [] back c a h = rw (is_at-Wanted c h) refl
  find_index-front (d ∷ front) back c a h =
      rw (is_at-Passed d a.0, find_index-front front back c a.1 h) refl

  find_index-none :
      (cs : List Syscall) → All Passed cs → find_index name file_descriptor cs ≡ ok none
  unfolding find_index
  find_index-none [] a = refl
  find_index-none (d ∷ cs) a = rw (is_at-Passed d a.0, find_index-none cs a.1) refl

module _ (filetype : Text) (mentions : Value → Bool) where
  -- What becomes of an argument that is a text.
  abbrev with_filetype : Text → Text
  with_filetype s = if is_in (text "st_mode") s then sub_filetype filetype s else s

  mutate_args-texts :
      (texts : List Text)
      → mutate_args filetype mentions (map str texts)
        ≡ (ok tt, map (λ s. str (with_filetype s)) texts)
  unfolding mutate_args mutate_value text
  mutate_args-texts [] = refl
  mutate_args-texts (s ∷ texts) = ground (arith, mutate_args-texts texts)

  with_filetype-Written : (s : Text) → Written filetype s (with_filetype s)
  with_filetype-Written s = elim (Bool-cases (is_in (text "st_mode") s)) [
    | inl h ↦ rw h (inl (refl, sub_filetype-Substituted filetype s))
    | inr h ↦ rw h (inr (refl, refl))
  ]

  texts-AllWritten : (texts : List Text) → AllWritten filetype texts (map with_filetype texts)
  texts-AllWritten [] = tt
  texts-AllWritten (s ∷ texts) = (with_filetype-Written s, texts-AllWritten texts)

  map-map :
      (texts : List Text)
      → map str (map with_filetype texts) ≡ map (λ s. str (with_filetype s)) texts
  map-map [] = refl
  map-map (s ∷ texts) = ap (λ l. str (with_filetype s) ∷ l) (map-map texts)

  mutate_at-front :
      (front back : List Syscall) (c : Syscall) (texts : List Text)
      → c.args ≡ map str texts
      → mutate_at filetype mentions (length front) (front ++ c ∷ back)
        ≡ (ok tt, front ++ record c { args = map (λ s. str (with_filetype s)) texts } ∷ back)
  mutate_at-front [] back c texts h = rw (h, mutate_args-texts texts) refl
  mutate_at-front (d ∷ front) back c texts h = rw (mutate_at-front front back c texts h) refl

  -- With a type that has no backslash: in the first fstat of the descriptor, or stat or lstat of the
  -- name, whose arguments are texts, the words that start with S_IF become the type, in each argument
  -- with st_mode; the other arguments and the rest of the trace stay. A name or a descriptor that is not
  -- given, or is empty, agrees with every call. A trace with no such call is left as it is, and raises a
  -- TypeError.
  pub first_stat_mutated :
      (name file_descriptor : Option Text) (front back : List Syscall) (c : Syscall)
      (texts : List Text)
      → is_in (text "\\") filetype ≡ false
      → All (Passed name file_descriptor) front
      → Wanted name file_descriptor c
      → c.args ≡ map str texts
      → ((written : List Text) × AllWritten filetype texts written
          × (mutate_syscalls filetype mentions name file_descriptor (front ++ c ∷ back)
              ≡ (ok tt, front ++ record c { args = map str written } ∷ back)))
        × (mutate_syscalls filetype mentions name file_descriptor front
            ≡ (raised type_error, front))
  unfolding mutate_syscalls
  first_stat_mutated name file_descriptor front back c texts plain a found h = (
    (
      map with_filetype texts,
      texts-AllWritten texts,
      rw (find_index-front name file_descriptor front back c a found, map-map texts)
          (mutate_at-front front back c texts h),
    ),
    rw (find_index-none name file_descriptor front a) refl,
  )
