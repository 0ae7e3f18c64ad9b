-- ===== src/Mutator/Close.antt =====
-- src/mutator/interrupted_close.py: the pattern, match_line, mutate_line and mutate_trace
pub mod Found
use crash_simulator.Base.{
  ◌≡◌, refl, ℕ, suc, ◌-◌, false, Option, none, some, List, [], ◌∷◌, ◌++◌, if◌then◌else◌, ◌==◌,
  length, take, drop, All, arith, take_front, drop-length, ◌⊎◌, inl, inr, Option-cases,
}
use crash_simulator.Py.{
  Text, text, replace, Result, ok, raised, attribute_error, name_error, then_try,
}
use crash_simulator.Py.Regex.{
  Item, exactly, many, greedy, lazily, opens, closes, again, any, digit, space, Group, group,
  search,
}

-- The groups file, openline, filedesc, closeline and remainingtrace, as they are numbered.
abbrev pub file : ℕ
file = 1

abbrev pub open_line : ℕ
open_line = 2

abbrev pub filedesc : ℕ
filedesc = 3

abbrev pub close_line : ℕ
close_line = 4

abbrev pub remaining_trace : ℕ
remaining_trace = 5

-- self.regex, with neither the blanks nor the comments of a verbose pattern
unfoldable pub regex : List Item
unfolding text
regex =
    exactly (text "#!")
    ∷ opens file
    ∷ greedy any
    ∷ closes file
    ∷ exactly (text "#!\n")
    ∷ lazily any
    ∷ opens open_line
    ∷ many digit
    ∷ many space
    ∷ exactly (text "open(")
    ∷ exactly (text "\"")
    ∷ again file
    ∷ exactly (text "\"")
    ∷ greedy any
    ∷ exactly (text ")")
    ∷ many space
    ∷ exactly (text "=")
    ∷ many space
    ∷ opens filedesc
    ∷ many digit
    ∷ closes filedesc
    ∷ closes open_line
    ∷ lazily any
    ∷ opens close_line
    ∷ exactly (text "\n")
    ∷ many digit
    ∷ many space
    ∷ exactly (text "close(")
    ∷ again filedesc
    ∷ greedy any
    ∷ exactly (text ")")
    ∷ many space
    ∷ exactly (text "=")
    ∷ many space
    ∷ exactly (text "0")
    ∷ closes close_line
    ∷ opens remaining_trace
    ∷ greedy any
    ∷ closes remaining_trace
    ∷ []

-- start('closeline') + 1; the start of a group that takes no part in a match is -1.
abbrev pub close_start : Option Group → ℕ
close_start none = 0
close_start (some g) = suc (length g.0)

-- search gives None where there is no match, which has no method `start`.
unfoldable pub match_line : Text → Result ℕ
unfolding regex
match_line trace = elim (search regex trace) [
  | none ↦ raised attribute_error
  | some a ↦ ok (close_start (group close_line a.groups))
]

-- Where the first newline is.
unfoldable pub find_newline : Text → Option ℕ
find_newline [] = none
find_newline (c ∷ s) =
    let rest = find_newline s in
    if c == 10 then some 0 else elim rest [ none ↦ none | some n ↦ some (suc n) ]

abbrev interrupt : Text → Text
interrupt line = replace line (text " = 0") (text " = -1 EINTR (Interrupted)")

-- data.find gives -1 without a newline, which counts from the end in the slices.
unfoldable pub mutate_line : Text → ℕ → Text
unfolding find_newline text
mutate_line trace close_line_start =
    let rest = drop close_line_start trace in
    elim (find_newline rest) [
      | none ↦
          take close_line_start trace
          ++ interrupt (take (length rest - 1) rest)
          ++ drop (length trace - 1) trace
      | some n ↦ take close_line_start trace ++ interrupt (take n rest) ++ drop n rest
    ]

-- The mutated text is not written: `tempfile` is not imported, so its name is a NameError.
unfoldable pub mutate_trace : Text → Result Text
unfolding match_line mutate_line
mutate_trace trace =
    then_try (match_line trace)
      (λ start. let mutated = mutate_line trace start in raised name_error)

find_newline_free :
    (line after : Text)
    → All (λ c. (c == 10) ≡ false) line
    → find_newline (line ++ 10 ∷ after) ≡ some (length line)
unfolding find_newline
find_newline_free [] after a = refl
find_newline_free (c ∷ line) after a = ground (arith, a.0, find_newline_free line after a.1)

-- A line that a newline ends, at the start that the match gives, is interrupted; the text before it and
-- from the newline on stays.
pub close_line_interrupted :
    (before line after : Text)
    → All (λ c. (c == 10) ≡ false) line
    → mutate_line (before ++ (line ++ 10 ∷ after)) (length before)
      ≡ before ++ interrupt line ++ 10 ∷ after
unfolding mutate_line
close_line_interrupted before line after a =
    rw
      (
        mutate_line,
        drop-length before (line ++ 10 ∷ after),
        find_newline_free line after a,
        drop-length before (line ++ 10 ∷ after),
        take_front (length before) before (line ++ 10 ∷ after) refl,
        take_front (length line) line (10 ∷ after) refl,
        drop-length line (10 ∷ after),
      )
      refl

-- mutate_trace never returns.
pub mutate_trace-raises :
    (trace : Text)
    → (mutate_trace trace ≡ raised attribute_error) ⊎ (mutate_trace trace ≡ raised name_error)
unfolding mutate_trace
mutate_trace-raises trace = elim (Option-cases (search regex trace)) [
  | inl e ↦ inl (rw (mutate_trace, match_line, e) refl)
  | inr (a, e) ↦ inr (rw (mutate_trace, match_line, e) refl)
]
