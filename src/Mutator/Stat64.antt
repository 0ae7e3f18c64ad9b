-- ===== src/Mutator/Stat64.antt =====
-- src/mutator/mutator.py: Stat64FiletypeMutator
use crash_simulator.Base.{
  ◌≡◌, refl, ap, ℕ, Bool, true, false, ◌&&◌, List, [], ◌∷◌, ◌++◌, if◌then◌else◌, arith, All, length,
}
use crash_simulator.Py.{Text, text, is_in, starts_with, replace_first, skip_chars}

module _ (filename filetype : Text) where
  unfoldable pub match_line : Text → Bool
  unfolding text
  match_line line = is_in (text "stat64") line && is_in filename line

  unfoldable pub mutate_line : Text → Text
  unfolding text
  mutate_line line = replace_first line (text "st_mode=S_IFREG") (text "st_mode=" ++ filetype)

  -- The lines that are written to the new file.
  unfoldable pub mutate_trace : List Text → List Text
  unfolding match_line mutate_line
  mutate_trace [] = []
  mutate_trace (line ∷ lines) =
      let rest = mutate_trace lines in
      if match_line line then mutate_line line ∷ rest else line ∷ rest

-- No place before the end of the first text starts an occurrence of `old` in the whole.
abbrev pub FirstBehind : Text → Text → Text → Type 0
FirstBehind old [] after = Unit
FirstBehind old (x ∷ s) after = (starts_with (x ∷ s ++ after) old ≡ false) × FirstBehind old s after

nothing_found : (s : Text) → starts_with s [] ≡ true
unfolding starts_with
nothing_found [] = refl
nothing_found (x ∷ s) = refl

starts_with_append : (s t : Text) → starts_with (s ++ t) s ≡ true
unfolding starts_with
starts_with_append [] t = nothing_found t
starts_with_append (x ∷ s) t = ground (arith, starts_with_append s t)

skip_length : (s t : Text) → skip_chars (length s) (s ++ t) ≡ t
skip_length [] t = refl
skip_length (x ∷ s) t = skip_length s t

replace_first_lem :
    (before after old new : Text) (x : ℕ)
    → FirstBehind (x ∷ old) before (x ∷ old ++ after)
    → replace_first (before ++ (x ∷ old ++ after)) (x ∷ old) new ≡ before ++ (new ++ after)
unfolding replace_first
replace_first_lem [] after old new x f =
    rw (starts_with_append (x ∷ old) after, skip_length (x ∷ old) after) refl
replace_first_lem (y ∷ before) after old new x f =
    ground (arith, f.0, replace_first_lem before after old new x f.1)

module _ (filename filetype : Text) where
  kept :
      (lines : List Text)
      → All (λ l. match_line filename filetype l ≡ false) lines
      → mutate_trace filename filetype lines ≡ lines
  unfolding mutate_trace
  kept [] a = refl
  kept (l ∷ lines) a = rw (a.0) (ap (λ ls. l ∷ ls) (kept lines a.1))

  -- In a trace with one line that names the file and a stat64 call, the first S_IFREG that st_mode has
  -- in this line becomes the type of the mutator, and nothing else changes.
  pub one_stat64_mutated :
      (front back : List Text) (before after : Text)
      → All (λ l. match_line filename filetype l ≡ false) front
      → All (λ l. match_line filename filetype l ≡ false) back
      → match_line filename filetype (before ++ (text "st_mode=S_IFREG" ++ after)) ≡ true
      → FirstBehind (text "st_mode=S_IFREG") before (text "st_mode=S_IFREG" ++ after)
      → mutate_trace filename filetype
          (front ++ (before ++ (text "st_mode=S_IFREG" ++ after)) ∷ back)
        ≡ front ++ (before ++ (text "st_mode=" ++ filetype ++ after)) ∷ back
  unfolding mutate_trace mutate_line text
  one_stat64_mutated [] back before after a b m f =
      rw (m, kept back b)
        (ap (λ l. l ∷ back) (replace_first_lem before after _ (text "st_mode=" ++ filetype) _ f))
  one_stat64_mutated (l ∷ front) back before after a b m f =
      rw (a.0) (ap (λ ls. l ∷ ls) (one_stat64_mutated front back before after a.1 b m f))
