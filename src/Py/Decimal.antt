-- ===== src/Py/Decimal.antt =====
-- Python's `int` reads what its `str` writes of a number.
use Prim.Native.Nat.{◌/◌, ◌%◌}
use mathlib.Core.Option.{some-injective}
use crash_simulator.Base.{
  ◌≡◌, ◌≢◌, refl, sym, ap, ◌∙◌, ℕ, zero, suc, ◌+◌, ◌<◌, true, false, some, [], ◌∷◌, ◌++◌, ℤ, pos,
  negsuc, arith, Bool-cases, inl, inr,
}
use crash_simulator.Py.Strings.{
  Text, same, same_iff, is_space, skip_spaces, digits, starts_digit, unsigned, negate, signed,
  after_sign, parse_int,
}
use crash_simulator.Py.Search.{digits_of, show_ℕ, show_int}

digits-digits_of :
    (fuel n : ℕ) (out : Text) → n < fuel → digits 0 (digits_of fuel n out) ≡ digits n out
unfolding digits_of digits
digits-digits_of zero n out h = absurd (omega arith)
digits-digits_of (suc fuel) n out h =
    ground (arith, digits-digits_of fuel (n / 10) ((b'0' + n % 10) ∷ out))

starts_digit-digits_of :
    (fuel n : ℕ) (out : Text) → n < fuel → starts_digit (digits_of fuel n out) ≡ true
unfolding digits_of starts_digit
starts_digit-digits_of zero n out h = absurd (omega arith)
starts_digit-digits_of (suc fuel) n out h =
    ground (arith, starts_digit-digits_of fuel (n / 10) ((b'0' + n % 10) ∷ out))

unsigned-show_ℕ : (n : ℕ) → unsigned (show_ℕ n) ≡ some n
unfolding unsigned show_ℕ
unsigned-show_ℕ n =
    rw
      (
        starts_digit-digits_of (suc n) n [] (omega arith),
        digits-digits_of (suc n) n [] (omega arith),
      )
      (unfold digits in refl)

parse_digit : (s : Text) → starts_digit s ≡ true → parse_int s ≡ signed false (unsigned s)
unfolding parse_int starts_digit skip_spaces is_space after_sign
parse_digit [] h = cc
parse_digit (c ∷ s) h = ground arith

parse_minus : (s : Text) → parse_int (b'-' ∷ s) ≡ signed true (unsigned s)
unfolding parse_int skip_spaces is_space after_sign
parse_minus s = refl

-- int(str(n)) is n.
pub parse_int-show_int : (n : ℤ) → parse_int (show_int n) ≡ some n
unfolding show_int
parse_int-show_int (pos n) =
    parse_digit (show_ℕ n) (unfold show_ℕ in starts_digit-digits_of (suc n) n [] (omega arith))
    ∙ rw (unsigned-show_ℕ n) (unfold signed in refl)
parse_int-show_int (negsuc n) =
    parse_minus (show_ℕ (suc n)) ∙ rw (unsigned-show_ℕ (suc n)) (unfold signed negate in refl)

-- Different numbers are written differently.
pub show_ℕ_injective : (m n : ℕ) → show_ℕ m ≡ show_ℕ n → m ≡ n
show_ℕ_injective m n h =
    some-injective m n (sym (unsigned-show_ℕ m) ∙ ap unsigned h ∙ unsigned-show_ℕ n)

same-append : (p s t : Text) → same (p ++ s) (p ++ t) ≡ same s t
unfolding same
same-append [] s t = refl
same-append (x ∷ p) s t = ground (arith, same-append p s t)

-- Names that differ in a number behind a prefix are different.
pub numbered_differ : (p : Text) (m n : ℕ) → m ≢ n → same (p ++ show_ℕ m) (p ++ show_ℕ n) ≡ false
numbered_differ p m n ne = elim (Bool-cases (same (show_ℕ m) (show_ℕ n))) [
  | inl q ↦ absurd (ne (show_ℕ_injective m n ((same_iff (show_ℕ m) (show_ℕ n)).0 q)))
  | inr q ↦ same-append p (show_ℕ m) (show_ℕ n) ∙ q
]
