-- ===== src/Test/Snip.antt =====
-- src/rrtest.py and src/identify_opportunities.py: the number in an event line, and the lines of a
-- trace snippet.
use native.Mathlib.Nat.{zero-mul, suc-mul, add-zero}
use crash_simulator.Base.{
  ◌≡◌, refl, ap, subst, ◌∙◌, ◌↔◌, ◌≤◌, ◌<◌, ℕ, zero, suc, ◌+◌, ◌*◌, Option, none, some, List, [],
  ◌∷◌, get_elem?, length, arith, ℤ, Option-cases, inl, inr,
}
use crash_simulator.Py.{Text, text, str, int, split_on, Result, ok, raised, index_error, then_try}

abbrev pub or_index_error {ℓ} : {A : Type ℓ} → Option A → Result A
or_index_error none = raised index_error
or_index_error (some a) = ok a

-- int(event_line.split('+++ ')[1].split(' +++')[0])
unfoldable pub event_number : Text → Result ℤ
unfolding text
event_number line = then_try (or_index_error (get_elem? (split_on (text "+++ ") line) 1)) λ behind.
    then_try (or_index_error (get_elem? (split_on (text " +++") behind) 0))
      λ number. int (str number)

-- The loop that writes a snippet: `rounds` lines at most, from the index `at` on, `stride` apart, and
-- their number. The IndexError behind the last line breaks the loop.
unfoldable pub write_lines : ℕ → ℕ → ℕ → List Text → List Text × ℕ
write_lines zero at stride lines = ([], 0)
write_lines (suc rounds) at stride lines =
    let (written, count) = write_lines rounds (at + stride) stride lines in
    elim (get_elem? lines at) [ none ↦ ([], 0) | some l ↦ (l ∷ written, suc count) ]

write_lines-none :
    (n at stride : ℕ) (lines : List Text)
    → get_elem? lines at ≡ none
    → write_lines (suc n) at stride lines ≡ ([], 0)
unfolding write_lines
write_lines-none n at stride lines e = rw (write_lines, e) refl

write_lines-some :
    (n at stride : ℕ) (lines : List Text) (x : Text)
    → get_elem? lines at ≡ some x
    → write_lines (suc n) at stride lines ≡ (
        let (written, count) = write_lines n (at + stride) stride lines in (x ∷ written, suc count))
unfolding write_lines
write_lines-some n at stride lines x e = rw (write_lines, e) refl

count_le : (n at stride : ℕ) (lines : List Text) → (write_lines n at stride lines).1 ≤ n
count_le zero at stride lines = unfold write_lines in omega arith
count_le (suc n) at stride lines = elim (Option-cases (get_elem? lines at)) [
  | inl e ↦ rw (write_lines-none n at stride lines e) (omega arith)
  | inr (x, e) ↦
      rw (write_lines-some n at stride lines x e)
        (omega (arith, count_le n (at + stride) stride lines))
]

count_length :
    (n at stride : ℕ) (lines : List Text)
    → (write_lines n at stride lines).1 ≡ length (write_lines n at stride lines).0
count_length zero at stride lines = unfold write_lines in refl
count_length (suc n) at stride lines = elim (Option-cases (get_elem? lines at)) [
  | inl e ↦ rw (write_lines-none n at stride lines e) refl
  | inr (x, e) ↦
      rw (write_lines-some n at stride lines x e)
        (ap (λ m. suc m) (count_length n (at + stride) stride lines))
]

none_ne_some : (i : ℕ) (l : Text) → get_elem? {A = Text} [] i ≡ some l → ⊥
none_ne_some i l h = cc

written_lines :
    (n at stride : ℕ) (lines : List Text) (i : ℕ) (l : Text)
    → get_elem? (write_lines n at stride lines).0 i ≡ some l
    → get_elem? lines (at + i * stride) ≡ some l
written_lines zero at stride lines i l h = absurd (none_ne_some i l (unfold write_lines in h))
written_lines (suc n) at stride lines zero l h = elim (Option-cases (get_elem? lines at)) [
  | inl e ↦ absurd (
      none_ne_some 0 l
        (subst (λ p. get_elem? p.0 0 ≡ some l) (write_lines-none n at stride lines e) h))
  | inr (x, e) ↦
      rw (zero-mul stride, add-zero at)
        (e ∙ subst (λ p. get_elem? p.0 0 ≡ some l) (write_lines-some n at stride lines x e) h)
]
written_lines (suc n) at stride lines (suc i) l h = elim (Option-cases (get_elem? lines at)) [
  | inl e ↦ absurd (
      none_ne_some (suc i) l
        (subst (λ p. get_elem? p.0 (suc i) ≡ some l) (write_lines-none n at stride lines e) h))
  | inr (x, e) ↦
      let there =
        written_lines n (at + stride) stride lines i l (
          subst (λ p. get_elem? p.0 (suc i) ≡ some l) (write_lines-some n at stride lines x e) h) in
      let same_index : at + stride + i * stride ≡ at + suc i * stride =
        omega (arith, suc-mul i stride) in
      subst (λ m. get_elem? lines m ≡ some l) same_index there
]

-- An index below one that is in a list is in it.
elem_before :
    (a b : ℕ) (lines : List Text) (l : Text)
    → get_elem? lines (a + b) ≡ some l
    → (x : Text) × (get_elem? lines a ≡ some x)
elem_before a b [] l h = absurd (none_ne_some (a + b) l h)
elem_before zero b (x ∷ lines) l h = (x, refl)
elem_before (suc a) b (x ∷ lines) l h =
    elem_before a b lines l (subst (λ m. get_elem? (x ∷ lines) m ≡ some l) (shifted a b) h)
  where
    shifted : (m n : ℕ) → suc m + n ≡ suc (m + n)
    shifted m n = omega arith

below : (n : ℕ) (l : List Text) (i : ℕ) (x : Text) → length l ≤ n → get_elem? l i ≡ some x → i < n
below n [] i x h e = absurd (none_ne_some i x e)
below n (y ∷ l) zero x h e = omega (arith, h)
below zero (y ∷ l) (suc i) x h e = absurd (omega (arith, h))
below (suc n) (y ∷ l) (suc i) x h e = omega (arith, below n l i x (omega (arith, h)) e)

lines_written :
    (n at stride : ℕ) (lines : List Text) (i : ℕ) (l : Text)
    → i < n
    → get_elem? lines (at + i * stride) ≡ some l
    → get_elem? (write_lines n at stride lines).0 i ≡ some l
lines_written zero at stride lines i l b h = absurd (omega arith)
lines_written (suc n) at stride lines zero l b h =
    let no_stride : at + 0 * stride ≡ at = omega (arith, zero-mul stride) in
    rw (write_lines-some n at stride lines l (subst (λ m. get_elem? lines m ≡ some l) no_stride h))
      refl
lines_written (suc n) at stride lines (suc i) l b h =
    let (x, e) = elem_before at (suc i * stride) lines l h in
    let next_index : at + suc i * stride ≡ at + stride + i * stride =
      omega (arith, suc-mul i stride) in
    rw (write_lines-some n at stride lines x e) (
      lines_written n (at + stride) stride lines i l (omega (arith, b))
        (subst (λ m. get_elem? lines m ≡ some l) next_index h))

-- The number that is stored with a snippet is that of its lines, and its lines are exactly those of the
-- trace that stand 0, 1, 2 and so on strides behind the start, `sniplen` of them at most: the i-th line
-- of the snippet is that of the trace i strides behind the start if i is less than `sniplen`, and there
-- is none if i is not or the trace has no such line.
pub write_lines_lem :
    (sniplen at stride : ℕ) (lines : List Text)
    → ((write_lines sniplen at stride lines).1 ≡ length (write_lines sniplen at stride lines).0)
      × ((i : ℕ) (l : Text)
          → (get_elem? (write_lines sniplen at stride lines).0 i ≡ some l)
            ↔ ((i < sniplen) × (get_elem? lines (at + i * stride) ≡ some l)))
write_lines_lem sniplen at stride lines = (
  count_length sniplen at stride lines,
  λ i l. (
    λ h. (
      below sniplen (write_lines sniplen at stride lines).0 i l
          (subst (λ m. m ≤ sniplen) (count_length sniplen at stride lines)
            (count_le sniplen at stride lines))
          h,
      written_lines sniplen at stride lines i l h,
    ),
    λ p. lines_written sniplen at stride lines i l p.0 p.1,
  ),
)
