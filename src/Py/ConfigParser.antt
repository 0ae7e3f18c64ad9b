-- ===== src/Py/ConfigParser.antt =====
-- Python 2's ConfigParser: what `read` finds for a value that `write` put into a file, and what
-- SafeConfigParser.get makes of it
pub mod Plain
use crash_simulator.Base.{
  ◌≡◌, refl, ℕ, zero, suc, ◌+◌, Bool, true, false, ◌&&◌, Option, none, some, List, [], ◌∷◌, ◌++◌,
  map, ◌==◌, leb, if◌then◌else◌,
}
use crash_simulator.Py.Strings.{Text, text, same}
use crash_simulator.Py.Search.{put_char, is_blank, lstrip, strip}
use crash_simulator.Py.Effects.{Result, ok, raised, interpolation_error, no_option, then_try}

-- The lines of a value. `write` puts a tab before each but the first, and `read` takes it off again.
unfoldable pub lines_of : Text → List Text
lines_of [] = [] ∷ []
lines_of (c ∷ s) = let rest = lines_of s in if c == b'\n' then [] ∷ rest else put_char c rest

-- From the first semicolon on, the rest is a comment if a space is before it; `before` is the
-- character there.
unfoldable pub cut_comment : ℕ → Text → Text
cut_comment before [] = []
cut_comment before (c ∷ s) =
    let rest = cut_comment c s in
    if c == b';' then (if is_blank before then [] else c ∷ s) else c ∷ rest

-- optval[-1], which is what is before the first character of a text
unfoldable pub last_char : ℕ → Text → ℕ
last_char c [] = c
last_char c (d ∷ s) = last_char d s

abbrev unquoted : Text → Text
unfolding text
unquoted s = if same s (text "\"\"") then [] else s

-- The first line of a value, behind the `=` and its spaces
unfoldable pub first_line : Text → Text
unfolding cut_comment last_char lstrip strip same text
first_line s = unquoted (strip (cut_comment (last_char 0 (lstrip s)) (lstrip s)))

-- The other lines, where a blank one is left out
unfoldable pub more_lines : List Text → Text
unfolding strip
more_lines [] = []
more_lines (l ∷ ls) =
    let rest = more_lines ls in elim (strip l) [ [] ↦ rest | c ∷ s ↦ b'\n' ∷ (c ∷ s) ++ rest ]

abbrev joined : List Text → Text
joined [] = []
joined (l ∷ ls) = first_line l ++ more_lines ls

-- What is read of a value that was written.
unfoldable pub stored : Text → Text
unfolding lines_of first_line more_lines
stored v = joined (lines_of v)

-- A section that is read: the text of each option.
abbrev pub Section : Type 0
Section = Text → Option Text

-- Where an interpolation is: in the text, behind a %, in the name between parentheses, or behind it.
pub data Place : Type 0 where
  outside percent : Place
  inside closed : Text → Place

-- _interpolate_some: %% is a %, and %(name)s is what `value` gives for the name.
unfoldable pub scan : (Text → Result Text) → Place → Text → Result Text
scan value outside [] = ok []
scan value percent [] = raised interpolation_error
scan value (inside n) [] = raised interpolation_error
scan value (closed n) [] = raised interpolation_error
scan value outside (c ∷ s) = elim (c == b'%') [
  | true ↦ scan value percent s
  | false ↦ then_try (scan value outside s) λ t. ok (c ∷ t)
]
scan value percent (c ∷ s) = elim (c == b'%') [
  | true ↦ then_try (scan value outside s) λ t. ok (b'%' ∷ t)
  | false ↦ elim (c == b'(') [
    | true ↦ scan value (inside []) s
    | false ↦ raised interpolation_error
  ]
]
scan value (inside n) (c ∷ s) = elim (c == b')') [
  | true ↦ elim n [ [] ↦ raised interpolation_error | d ∷ m ↦ scan value (closed (d ∷ m)) s ]
  | false ↦ scan value (inside (n ++ c ∷ [])) s
]
scan value (closed n) (c ∷ s) = elim (c == b's') [
  | true ↦ then_try (value n) λ v. then_try (scan value outside s) λ t. ok (v ++ t)
  | false ↦ raised interpolation_error
]

unfoldable pub has_percent : Text → Bool
has_percent [] = false
has_percent (c ∷ s) = let rest = has_percent s in if c == b'%' then true else rest

-- optionxform: an option's name is looked up in lower case.
abbrev lower : ℕ → ℕ
lower c = if leb 65 c && leb c 90 then c + 32 else c

abbrev or_interpolation_error : Option Text → Result Text
or_interpolation_error none = raised interpolation_error
or_interpolation_error (some v) = ok v

-- With the number of levels that a value may name others.
unfoldable pub interpolate : ℕ → Section → Text → Result Text
unfolding scan has_percent
interpolate zero i v = raised interpolation_error
interpolate (suc depth) i v =
    scan
      (λ n.
        then_try (or_interpolation_error (i (map lower n)))
          λ w. elim (has_percent w) [ true ↦ interpolate depth i w | false ↦ ok w ])
      outside v

abbrev found : Section → Option Text → Result Text
found i none = raised no_option
found i (some v) = interpolate 10 i v

-- cfg.get(i, name), where MAX_INTERPOLATION_DEPTH is 10
unfoldable pub get : Section → Text → Result Text
unfolding interpolate
get i name = found i (i name)

parser_samples :
    (stored (text "a ;b") ≡ text "a")
    × (stored (text "a;b") ≡ text "a;b")
    × (stored (text " a \n\n b ") ≡ text "a\nb")
    × (interpolate 10 (λ n. none) (text "a%%b") ≡ ok (text "a%b"))
    × (interpolate 10 (λ n. none) (text "a%b") ≡ raised interpolation_error)
    × (interpolate 10 (λ n. some (text "v")) (text "a%(X)sb") ≡ ok (text "avb"))
    × (interpolate 10 (λ n. some (text "%(x)s")) (text "%(x)s") ≡ raised interpolation_error)
unfolding stored interpolate text
parser_samples = (refl, refl, refl, refl, refl, refl, refl)
