-- ===== src/Py/Strings.antt =====
-- Python's `str`: a list of bytes, with the operations that the program uses.
use Prim.Native.Char.{code}
use crash_simulator.Base.{
  ℕ, zero, suc, ◌+◌, ◌-◌, ◌*◌, String, ◌≡◌, refl, ◌↔◌, Bool, true, false, ◌&&◌, ◌||◌, Option, none,
  some, List, [], ◌∷◌, arith, ◌==◌, leb, if◌then◌else◌, length, ℤ, pos, negsuc,
}

abbrev pub Text : Type 0
Text = List ℕ

-- A literal.
unfoldable pub text : String → Text
text String.[] = []
text (String.◌∷◌ c s) = code c ∷ text s

-- s == t
unfoldable pub same : Text → Text → Bool
same [] [] = true
same (x ∷ s) (y ∷ t) = x == y && same s t
same _ _ = false

pub same_iff : (s t : Text) → (same s t ≡ true) ↔ (s ≡ t)
unfolding same
same_iff [] [] = ground arith
same_iff [] (y ∷ t) = ground arith
same_iff (x ∷ s) [] = ground arith
same_iff (x ∷ s) (y ∷ t) = ground (arith, same_iff s t)

-- s.startswith(t)
unfoldable pub starts_with : Text → Text → Bool
starts_with s [] = true
starts_with [] (y ∷ t) = false
starts_with (x ∷ s) (y ∷ t) = x == y && starts_with s t

-- t in s
unfoldable pub is_in : Text → Text → Bool
unfolding starts_with
is_in t [] = starts_with [] t
is_in t (x ∷ s) = starts_with (x ∷ s) t || is_in t s

pub starts_with_refl : (s : Text) → starts_with s s ≡ true
unfolding starts_with
starts_with_refl [] = refl
starts_with_refl (x ∷ s) = ground (arith, starts_with_refl s)

-- Every text occurs in itself.
pub is_in_refl : (s : Text) → is_in s s ≡ true
unfolding is_in
is_in_refl [] = refl
is_in_refl (x ∷ s) = ground (arith, starts_with_refl s)

unfoldable pub is_space : ℕ → Bool
is_space c = c == 32 || (leb 9 c && leb c 13)

unfoldable pub skip_spaces : Text → Text
skip_spaces [] = []
skip_spaces (c ∷ s) = let rest = skip_spaces s in if is_space c then rest else c ∷ s

-- Digits, and then nothing but spaces.
unfoldable pub digits : ℕ → Text → Option ℕ
digits n [] = some n
digits n (c ∷ s) =
    let more = digits (n * 10 + (c - 48)) s in
    if leb 48 c && leb c 57
    then more
    else if is_space c && length (skip_spaces s) == 0
    then some n
    else none

unfoldable pub starts_digit : Text → Bool
starts_digit [] = false
starts_digit (c ∷ s) = leb 48 c && leb c 57

-- A number with no sign.
unfoldable pub unsigned : Text → Option ℕ
unsigned s = if starts_digit s then digits 0 s else none

unfoldable pub negate : ℕ → ℤ
negate zero = pos zero
negate (suc n) = negsuc n

unfoldable pub signed : Bool → Option ℕ → Option ℤ
signed minus none = none
signed true (some n) = some (negate n)
signed false (some n) = some (pos n)

unfoldable pub after_sign : Text → Option ℤ
after_sign [] = none
after_sign (c ∷ s) =
    if c == b'-'
    then signed true (unsigned s)
    else if c == b'+'
    then signed false (unsigned s)
    else signed false (unsigned (c ∷ s))

-- int(s), where `none` is the `ValueError`
unfoldable pub parse_int : Text → Option ℤ
unfolding is_space skip_spaces digits starts_digit unsigned negate signed after_sign
parse_int s = after_sign (skip_spaces s)

parse_int_samples :
    (parse_int (text " -42\n") ≡ some (negsuc 41))
    × (parse_int (text "12") ≡ some (pos 12))
    × (parse_int (text "1x") ≡ none)
    × (parse_int (text "") ≡ none)
unfolding parse_int text
parse_int_samples = (refl, refl, refl, refl)

is_in_samples :
    (is_in (text "stat64") (text "lstat64") ≡ true) × (is_in (text "stat64") (text "stat") ≡ false)
unfolding is_in text
is_in_samples = (refl, refl)
