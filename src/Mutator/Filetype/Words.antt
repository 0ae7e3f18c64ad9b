-- ===== src/Mutator/Filetype/Words.antt =====
-- src/mutator/UnusualFiletype.py: what the substitution of mutate_syscalls makes of a text
use crash_simulator.Base.{
  ◌≡◌, refl, sym, ap, subst, ◌⊎◌, inl, inr, ℕ, Bool-cases, true, false, List, [], ◌∷◌, ◌++◌, All,
}
use crash_simulator.Py.{Text, text, starts_with, is_in}
use crash_simulator.Mutator.Filetype.{is_word_char, sub_both, sub_filetype}

-- A text is at the end of a word.
abbrev pub AtEnd : Text → Type 0
AtEnd [] = Unit {0}
AtEnd (c ∷ s) = is_word_char c ≡ false

-- What the substitution makes of a text: each word that starts with S_IF, to its last character, is the
-- type, and the rest stays.
pub data Substituted (filetype : Text) : Text → Text → Type 0 where
  done : Substituted filetype [] []
  keep :
      {c : ℕ} {s t : Text}
      → starts_with (c ∷ s) (text "S_IF") ≡ false
      → Substituted filetype s t
      → Substituted filetype (c ∷ s) (c ∷ t)
  swap :
      {c : ℕ} {s t : Text} (word : Text)
      → starts_with (c ∷ word ++ s) (text "S_IF") ≡ true
      → All (λ x. is_word_char x ≡ true) word
      → AtEnd s
      → Substituted filetype s t
      → Substituted filetype (c ∷ word ++ s) (filetype ++ t)

module _ (filetype : Text) where
  -- A rest of a text, as a match leaves it: behind the word that it starts with.
  record Rest (s t : Text) : Type 0 where
    word : Text
    behind : Text
    split : s ≡ word ++ behind
    in_word : All (λ x. is_word_char x ≡ true) word
    at_end : AtEnd behind
    after : Substituted filetype behind t

  swap_at :
      (c : ℕ) (s t : Text)
      → starts_with (c ∷ s) (text "S_IF") ≡ true
      → Rest s t
      → Substituted filetype (c ∷ s) (filetype ++ t)
  swap_at c s t h r =
      subst (λ u. Substituted filetype (c ∷ u) (filetype ++ t)) (sym r.split)
        (swap r.word (subst (λ u. starts_with (c ∷ u) (text "S_IF") ≡ true) r.split h) r.in_word
          r.at_end r.after)

  here-Substituted :
      (c : ℕ) (s : Text)
      → Substituted filetype s (sub_both filetype s).0
      → Rest s (sub_both filetype s).1
      → Substituted filetype (c ∷ s) (sub_both filetype (c ∷ s)).0
  unfolding sub_both
  here-Substituted c s a r = elim (Bool-cases (starts_with (c ∷ s) (text "S_IF"))) [
    | inl h ↦ rw (sub_both, h) (swap_at c s (sub_both filetype s).1 h r)
    | inr h ↦ rw (sub_both, h) (keep h a)
  ]

  inside-Rest :
      (c : ℕ) (s : Text)
      → Substituted filetype (c ∷ s) (sub_both filetype (c ∷ s)).0
      → Rest s (sub_both filetype s).1
      → Rest (c ∷ s) (sub_both filetype (c ∷ s)).1
  unfolding sub_both
  inside-Rest c s a r = elim (Bool-cases (is_word_char c)) [
    | inl h ↦
        rw (sub_both, h)
          (record {
            word = c ∷ r.word;
            behind = r.behind;
            split = ap (λ u. c ∷ u) r.split;
            in_word = (h, r.in_word);
            at_end = r.at_end;
            after = r.after;
          })
    | inr h ↦
        rw (sub_both, h)
          (record { word = []; behind = c ∷ s; split = refl; in_word = tt; at_end = h; after = a })
  ]

  sub_both-Substituted :
      (s : Text) → Substituted filetype s (sub_both filetype s).0 × Rest s (sub_both filetype s).1
  sub_both-Substituted [] =
      unfold sub_both in
      (
        done,
        record { word = []; behind = []; split = refl; in_word = tt; at_end = tt; after = done },
      )
  sub_both-Substituted (c ∷ s) =
      let (a, r) = sub_both-Substituted s in
      let here = here-Substituted c s a r in (here, inside-Rest c s here r)

  pub sub_filetype-Substituted : (s : Text) → Substituted filetype s (sub_filetype filetype s)
  unfolding sub_filetype
  sub_filetype-Substituted s = (sub_both-Substituted s).0

  -- What becomes of an argument: the type is put in if it has st_mode in it.
  abbrev pub Written : Text → Text → Type 0
  Written s t =
      ((is_in (text "st_mode") s ≡ true) × Substituted filetype s t)
      ⊎ ((is_in (text "st_mode") s ≡ false) × (t ≡ s))

  -- And of a list of arguments, one by one.
  abbrev pub AllWritten : List Text → List Text → Type 0
  AllWritten [] [] = Unit {0}
  AllWritten (s ∷ l) (t ∷ m) = Written s t × AllWritten l m
  AllWritten [] (t ∷ m) = ⊥
  AllWritten (s ∷ l) [] = ⊥
