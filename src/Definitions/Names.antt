-- ===== src/Definitions/Names.antt =====
-- src/parse_syscall_definitions.py: the names that are read back from the lines of `man -k`
use crash_simulator.Base.{
  ◌≡◌, refl, ap, ◌∙◌, ℕ, true, false, List, [], ◌∷◌, ◌++◌, map, All, All-mono, arith, ◌==◌,
}
use crash_simulator.Py.{Text, text, starts_with, split_on, lstrip, rstrip, strip, is_blank}
use crash_simulator.Definitions.{syscall_name, pop_empty, parse_syscall_names_list}

-- No character of the text is `c`.
abbrev pub Free : ℕ → Text → Type 0
Free c s = All (λ x. (x == c) ≡ false) s

split_char :
    (c : ℕ) (w rest : Text)
    → Free c w
    → split_on (c ∷ []) (w ++ c ∷ rest) ≡ w ∷ split_on (c ∷ []) rest
unfolding split_on starts_with
split_char c [] rest free = ground arith
split_char c (x ∷ w) rest free = ground (arith, free.0, split_char c w rest free.1)

-- No character of the text is one that strip takes off.
abbrev pub Solid : Text → Type 0
Solid s = All (λ x. is_blank x ≡ false) s

lstrip-Solid : (s : Text) → Solid s → lstrip s ≡ s
unfolding lstrip
lstrip-Solid [] solid = refl
lstrip-Solid (x ∷ s) solid = ground (arith, solid.0)

rstrip-Solid : (s : Text) → Solid s → rstrip s ≡ s
unfolding rstrip
rstrip-Solid [] solid = refl
rstrip-Solid (x ∷ s) solid = ground (arith, solid.0, rstrip-Solid s solid.1)

strip-Solid : (s : Text) → Solid s → strip s ≡ s
unfolding strip
strip-Solid s solid = ap rstrip (lstrip-Solid s solid) ∙ rstrip-Solid s solid

Solid-Free : (c : ℕ) → is_blank c ≡ true → (s : Text) → Solid s → Free c s
Solid-Free c blank s = All-mono _ _ s (λ x h. ground (arith, h, blank))

append-Free : (c : ℕ) (s t : Text) → Free c s → Free c t → Free c (s ++ t)
append-Free c [] t f g = g
append-Free c (x ∷ s) t f g = (f.0, append-Free c s t f.1 g)

-- A line of the output: a name, and what follows it behind a space.
pub record Entry : Type 0 where
  pub name : Text
  pub description : Text

abbrev pub line_of : Entry → Text
line_of e = e.name ++ 32 ∷ e.description

abbrev pub output_of : List Entry → Text
output_of [] = []
output_of (e ∷ es) = line_of e ++ 10 ∷ output_of es

syscall_name-line_of : (e : Entry) → Solid e.name → syscall_name (line_of e) ≡ e.name
unfolding syscall_name text
syscall_name-line_of e solid =
    rw (split_char 32 e.name e.description (Solid-Free 32 refl e.name solid))
      (strip-Solid e.name solid)

split_output :
    (es : List Entry)
    → All (λ e. Solid e.name × Free 10 e.description) es
    → split_on (10 ∷ []) (output_of es) ≡ map line_of es ++ [] ∷ []
unfolding split_on
split_output [] a = refl
split_output (e ∷ es) (a, rest) =
    split_char 10 (line_of e) (output_of es)
      (append-Free 10 e.name (32 ∷ e.description) (Solid-Free 10 refl e.name a.0) (refl, a.1))
    ∙ ap (λ ls. line_of e ∷ ls) (split_output es rest)

names_of_lines :
    (es : List Entry)
    → All (λ e. Solid e.name × Free 10 e.description) es
    → map syscall_name (map line_of es ++ [] ∷ []) ≡ map (λ e. e.name) es ++ [] ∷ []
unfolding syscall_name split_on text strip lstrip rstrip
names_of_lines [] a = refl
names_of_lines (e ∷ es) (a, rest) = rw (syscall_name-line_of e a.0, names_of_lines es rest) refl

pop_empty_last : (ws : List Text) → pop_empty (ws ++ [] ∷ []) ≡ ws
unfolding pop_empty
pop_empty_last [] = refl
pop_empty_last ([] ∷ []) = refl
pop_empty_last ((c ∷ s) ∷ []) = refl
pop_empty_last (w ∷ v ∷ ws) = ap (λ l. w ∷ l) (pop_empty_last (v ∷ ws))

-- For an output whose every line is a name with no blanks, a space and a description, and ends with a
-- newline, the names are listed in order.
pub parse_syscall_names_list_lem :
    (es : List Entry)
    → All (λ e. Solid e.name × Free 10 e.description) es
    → parse_syscall_names_list (output_of es) ≡ map (λ e. e.name) es
unfolding parse_syscall_names_list text
parse_syscall_names_list_lem es a =
    rw (split_output es a, names_of_lines es a) (pop_empty_last (map (λ e. e.name) es))
