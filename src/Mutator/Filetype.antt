-- ===== src/Mutator/Filetype.antt =====
-- src/mutator/UnusualFiletype.py: _find_index and mutate_syscalls
pub mod Words
pub mod First
use crash_simulator.Base.{
  ◌≡◌, refl, ℕ, zero, suc, Bool, true, false, not, ◌&&◌, ◌||◌, Option, none, some, List, [], ◌∷◌,
  ◌++◌, if◌then◌else◌, get_elem?, ◌==◌, leb,
}
use crash_simulator.Py.{
  Text, text, starts_with, is_in, Value, str, value_eq, Result, ok, raised, type_error, then_try,
}
use crash_simulator.Syscall.{Syscall, arg}
use crash_simulator.Mutator.Each.{is_given}

-- What a call must be: `name` and `file_descriptor` of the mutator, where at most one is given.
module _ (name file_descriptor : Option Text) where
  abbrev equals : Option Text → Value → Bool
  equals none v = true
  equals (some s) v = value_eq (str s) v

  -- The test behind a prefix of the name: a value that is not given is not compared.
  unfoldable pub asked : Option Text → Syscall → Result Bool
  asked wanted c =
      if is_given wanted then then_try (arg c 0) (λ v. ok (equals wanted v)) else ok true

  -- Whether the loop returns at a call.
  unfoldable pub is_at : Syscall → Result Bool
  unfolding asked text
  is_at c =
      if starts_with c.name (text "fstat")
      then asked file_descriptor c
      else if starts_with c.name (text "stat") || starts_with c.name (text "lstat")
      then asked name c
      else ok false

  abbrev next_index : Result (Option ℕ) → Result (Option ℕ)
  next_index (ok (some k)) = ok (some (suc k))
  next_index r = r

  unfoldable pub find_index : List Syscall → Result (Option ℕ)
  unfolding is_at
  find_index [] = ok none
  find_index (c ∷ cs) =
      let rest = find_index cs in
      then_try (is_at c) (λ found. if found then ok (some 0) else next_index rest)

abbrev pub is_word_char : ℕ → Bool
is_word_char c = leb 48 c && leb c 57 || leb 65 c && leb c 90 || leb 97 c && leb c 122 || c == 95

-- What is left of a text, and what is left of it inside of a match.
unfoldable pub sub_both : Text → Text → Text × Text
unfolding text
sub_both filetype [] = ([], [])
sub_both filetype (c ∷ s) =
    let (outside, inside) = sub_both filetype s in
    let here = if starts_with (c ∷ s) (text "S_IF") then filetype ++ inside else c ∷ outside in
    (here, if is_word_char c then inside else here)

-- re.sub(r'S_IF(\w*)', filetype, s), for a type with no backslash
unfoldable pub sub_filetype : Text → Text → Text
unfolding sub_both
sub_filetype filetype s = (sub_both filetype s).0

-- `mentions v`: str(v) has "st_mode" in it, for a value that is no text. The substitution raises for it.
module _ (filetype : Text) (mentions : Value → Bool) where
  unfoldable pub mutate_value : Value → Result Value
  unfolding sub_filetype text
  mutate_value (str s) =
      if is_in (text "st_mode") s then ok (str (sub_filetype filetype s)) else ok (str s)
  mutate_value v = if mentions v then raised type_error else ok v

  abbrev prepend : Value → Result (Unit {0}) × List Value → Result (Unit {0}) × List Value
  prepend v p = (p.0, v ∷ p.1)

  -- The loop over the arguments
  unfoldable pub mutate_args : List Value → Result (Unit {0}) × List Value
  unfolding mutate_value
  mutate_args [] = (ok tt, [])
  mutate_args (v ∷ vs) =
      let rest = mutate_args vs in
      elim (mutate_value v) [ raised e ↦ (raised e, v ∷ vs) | ok w ↦ prepend w rest ]

  abbrev mutate_at : ℕ → List Syscall → Result (Unit {0}) × List Syscall
  mutate_at k [] = (ok tt, [])
  mutate_at zero (c ∷ cs) = let (r, args) = mutate_args c.args in (r, record c { args = args } ∷ cs)
  mutate_at (suc k) (c ∷ cs) = let (r, ds) = mutate_at k cs in (r, c ∷ ds)

  abbrev mutate_found : Result (Option ℕ) → List Syscall → Result (Unit {0}) × List Syscall
  mutate_found (raised e) cs = (raised e, cs)
  mutate_found (ok none) cs = (raised type_error, cs)
  mutate_found (ok (some k)) cs = mutate_at k cs

  -- An index that is None is no index of a list.
  unfoldable pub mutate_syscalls :
      Option Text → Option Text → List Syscall → Result (Unit {0}) × List Syscall
  unfolding mutate_args find_index
  mutate_syscalls name file_descriptor syscalls =
      mutate_found (find_index name file_descriptor syscalls) syscalls
