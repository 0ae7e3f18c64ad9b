-- ===== src/Py/Search.antt =====
-- More of Python's `str`: split, replace, find and strip.
use Prim.Native.Nat.{◌/◌, ◌%◌}
use crash_simulator.Base.{
  ◌≡◌, refl, ℕ, zero, suc, ◌+◌, ◌-◌, Bool, true, ◌&&◌, ◌||◌, Option, none, some, List, [], ◌∷◌,
  ◌++◌, ◌==◌, leb, if◌then◌else◌, length, ℤ, pos, negsuc,
}
use crash_simulator.Py.Strings.{Text, text, starts_with}

-- The first piece of a list of pieces grows at its front.
abbrev pub put_char : ℕ → List Text → List Text
put_char x [] = (x ∷ []) ∷ []
put_char x (w ∷ ws) = (x ∷ w) ∷ ws

-- The characters of a separator that was found are skipped.
split_behind : Text → ℕ → Text → List Text
split_behind sep skip [] = [] ∷ []
split_behind sep (suc skip) (x ∷ s) = split_behind sep skip s
split_behind sep zero (x ∷ s) =
    let found = split_behind sep (length sep - 1) s in
    let more = split_behind sep 0 s in
    if starts_with (x ∷ s) sep then [] ∷ found else put_char x more

-- s.split(sep), for a separator that is not empty
unfoldable pub split_on : Text → Text → List Text
unfolding split_behind
split_on sep s = split_behind sep 0 s

replace_behind : Text → Text → ℕ → Text → Text
replace_behind old new skip [] = []
replace_behind old new (suc skip) (x ∷ s) = replace_behind old new skip s
replace_behind old new zero (x ∷ s) =
    let found = replace_behind old new (length old - 1) s in
    let more = replace_behind old new 0 s in
    if starts_with (x ∷ s) old then new ++ found else x ∷ more

-- s.replace(old, new), for a text `old` that is not empty
unfoldable pub replace : Text → Text → Text → Text
unfolding replace_behind
replace s old new = replace_behind old new 0 s

abbrev pub skip_chars : ℕ → Text → Text
skip_chars zero s = s
skip_chars (suc n) [] = []
skip_chars (suc n) (x ∷ s) = skip_chars n s

-- s.replace(old, new, 1), for a text `old` that is not empty
unfoldable pub replace_first : Text → Text → Text → Text
replace_first [] old new = []
replace_first (x ∷ s) old new =
    let rest = replace_first s old new in
    if starts_with (x ∷ s) old then new ++ skip_chars (length old) (x ∷ s) else x ∷ rest

abbrev pub is_blank : ℕ → Bool
is_blank c = c == 32 || (leb 9 c && leb c 13)

unfoldable pub lstrip : Text → Text
lstrip [] = []
lstrip (c ∷ s) = let rest = lstrip s in if is_blank c then rest else c ∷ s

unfoldable pub all_blank : Text → Bool
all_blank [] = true
all_blank (c ∷ s) = is_blank c && all_blank s

unfoldable pub rstrip : Text → Text
unfolding all_blank
rstrip [] = []
rstrip (c ∷ s) = let rest = rstrip s in if all_blank (c ∷ s) then [] else c ∷ rest

-- s.strip()
unfoldable pub strip : Text → Text
unfolding lstrip rstrip
strip s = rstrip (lstrip s)

-- s.split()[0]; `none` is the IndexError of a text with spaces alone
first_word : Text → Text
first_word [] = []
first_word (c ∷ s) = let rest = first_word s in if is_blank c then [] else c ∷ rest

some_word : Text → Option Text
some_word [] = none
some_word (c ∷ s) = some (c ∷ s)

unfoldable pub word_of : Text → Option Text
unfolding lstrip first_word some_word
word_of s = some_word (first_word (lstrip s))

-- str(n): `fuel` is the number of digits at most; a number has fewer digits than its value and one.
unfoldable pub digits_of : ℕ → ℕ → Text → Text
digits_of zero n out = out
digits_of (suc fuel) n out =
    let more = digits_of fuel (n / 10) ((b'0' + n % 10) ∷ out) in
    if leb n 9 then (b'0' + n % 10) ∷ out else more

unfoldable pub show_ℕ : ℕ → Text
unfolding digits_of
show_ℕ n = digits_of (suc n) n []

unfoldable pub show_int : ℤ → Text
unfolding show_ℕ
show_int (pos n) = show_ℕ n
show_int (negsuc n) = b'-' ∷ show_ℕ (suc n)

search_samples :
    (split_on (text "+++ ") (text "8 +++ 41 +++") ≡ text "8 " ∷ text "41 +++" ∷ [])
    × (replace (text "a = 0; b = 0") (text " = 0") (text " = 1") ≡ text "a = 1; b = 1")
    × (replace_first (text "aa") (text "a") (text "bc") ≡ text "bca")
    × (strip (text " ab \n") ≡ text "ab")
    × (show_int (negsuc 119) ≡ text "-120")
    × (word_of (text "  812 x") ≡ some (text "812"))
unfolding split_on replace replace_first strip show_int word_of text starts_with
search_samples = (refl, refl, refl, refl, refl, refl)
