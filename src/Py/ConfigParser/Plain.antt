-- ===== src/Py/ConfigParser/Plain.antt =====
-- Values that Python 2's ConfigParser reads as they were written
use Prim.Native.Nat.{◌/◌, ◌%◌}
use mathlib.Core.List.{append-nil}
use crash_simulator.Base.{
  ◌≡◌, refl, ℕ, zero, suc, ◌+◌, Bool, true, false, not, ◌&&◌, none, some, [], ◌∷◌, ◌++◌, ◌==◌,
  arith, ℤ, pos, negsuc,
}
use crash_simulator.Py.Strings.{Text, text, same}
use crash_simulator.Py.Search.{
  is_blank, lstrip, rstrip, all_blank, strip, digits_of, show_ℕ, show_int,
}
use crash_simulator.Py.Effects.{Result, ok, raised, no_option}
use crash_simulator.Py.ConfigParser.{
  lines_of, cut_comment, last_char, first_line, more_lines, stored, Section, outside, scan, get,
  interpolate,
}

-- No space, percent sign, semicolon or quote.
abbrev pub plain_char : ℕ → Bool
plain_char c = not (is_blank c) && not (c == b'%') && not (c == b';') && not (c == b'"')

unfoldable pub is_plain : Text → Bool
is_plain [] = true
is_plain (c ∷ s) = plain_char c && is_plain s

pub is_plain-append :
    (s t : Text) → is_plain s ≡ true → is_plain t ≡ true → is_plain (s ++ t) ≡ true
unfolding is_plain
is_plain-append [] t p q = q
is_plain-append (c ∷ s) t p q = ground (arith, is_plain-append s t)

is_plain-digits_of :
    (fuel n : ℕ) (out : Text) → is_plain out ≡ true → is_plain (digits_of fuel n out) ≡ true
unfolding is_plain digits_of
is_plain-digits_of zero n out h = h
is_plain-digits_of (suc fuel) n out h =
    ground (arith, is_plain-digits_of fuel (n / 10) ((b'0' + n % 10) ∷ out))

pub is_plain-show_ℕ : (n : ℕ) → is_plain (show_ℕ n) ≡ true
unfolding show_ℕ is_plain
is_plain-show_ℕ n = is_plain-digits_of (suc n) n [] refl

pub is_plain-show_int : (n : ℤ) → is_plain (show_int n) ≡ true
unfolding show_int is_plain
is_plain-show_int (pos n) = is_plain-show_ℕ n
is_plain-show_int (negsuc n) = is_plain-show_ℕ (suc n)

lines_of-plain : (s : Text) → is_plain s ≡ true → lines_of s ≡ s ∷ []
unfolding is_plain lines_of
lines_of-plain [] h = refl
lines_of-plain (c ∷ s) h = ground (arith, lines_of-plain s)

cut_comment-plain : (before : ℕ) (s : Text) → is_plain s ≡ true → cut_comment before s ≡ s
unfolding is_plain cut_comment
cut_comment-plain before [] h = refl
cut_comment-plain before (c ∷ s) h = ground (arith, cut_comment-plain c s)

lstrip-plain : (s : Text) → is_plain s ≡ true → lstrip s ≡ s
unfolding is_plain lstrip
lstrip-plain [] h = refl
lstrip-plain (c ∷ s) h = ground arith

rstrip-plain : (s : Text) → is_plain s ≡ true → rstrip s ≡ s
unfolding is_plain rstrip all_blank
rstrip-plain [] h = refl
rstrip-plain (c ∷ s) h = ground (arith, rstrip-plain s)

strip-plain : (s : Text) → is_plain s ≡ true → strip s ≡ s
unfolding strip
strip-plain s h = rw (lstrip-plain s h) (rstrip-plain s h)

no_quotes : (s : Text) → is_plain s ≡ true → same s (text "\"\"") ≡ false
unfolding is_plain same text
no_quotes [] h = refl
no_quotes (c ∷ s) h = ground arith

first_line-plain : (s : Text) → is_plain s ≡ true → first_line s ≡ s
unfolding first_line
first_line-plain s h =
    rw (lstrip-plain s h, cut_comment-plain (last_char 0 s) s h, strip-plain s h, no_quotes s h)
      refl

-- A plain value is read as it was written.
pub stored-plain : (s : Text) → is_plain s ≡ true → stored s ≡ s
unfolding stored more_lines
stored-plain s h = rw (lines_of-plain s h, first_line-plain s h) (append-nil s)

plain_parts :
    (c : ℕ) (s : Text) → is_plain (c ∷ s) ≡ true → ((c == b'%') ≡ false) × (is_plain s ≡ true)
unfolding is_plain
plain_parts c s h = ground arith

scan-plain :
    (value : Text → Result Text) (s : Text) → is_plain s ≡ true → scan value outside s ≡ ok s
unfolding scan
scan-plain value [] h = refl
scan-plain value (c ∷ s) h =
    let (other, rest) = plain_parts c s h in rw (scan, other, scan-plain value s rest) refl

-- get returns a plain value as it was written.
pub get-plain :
    (i : Section) (name v : Text) → i name ≡ some (stored v) → is_plain v ≡ true → get i name ≡ ok v
unfolding get interpolate
get-plain i name v e h = rw (e, stored-plain v h) (scan-plain _ v h)

pub get-missing : (i : Section) (name : Text) → i name ≡ none → get i name ≡ raised no_option
unfolding get
get-missing i name e = rw e refl
