-- ===== src/Base/Lists.antt =====
-- Lists measured and indexed by native numbers, and predicates over them.
use Prim.Native.Nat.{ℕ, zero, suc, ◌+◌, ◌-◌, ◌≤◌, min}
use mathlib.Core.Path.{ap, ◌≡◌, refl, subst}
use mathlib.Core.List.{List, [], ◌∷◌, ◌++◌, map}
use mathlib.Core.Option.{Option, none, some, some-injective}
use native.Mathlib.Omega.{arith}

module _ {ℓ} {A : Type ℓ} where
  abbrev pub length : List A → ℕ
  length [] = 0
  length (x ∷ xs) = suc (length xs)

  abbrev pub get_elem? : List A → ℕ → Option A
  get_elem? [] i = none
  get_elem? (x ∷ xs) zero = some x
  get_elem? (x ∷ xs) (suc i) = get_elem? xs i

  abbrev pub take : ℕ → List A → List A
  take zero xs = []
  take (suc n) [] = []
  take (suc n) (x ∷ xs) = x ∷ take n xs

  abbrev pub drop : ℕ → List A → List A
  drop zero xs = xs
  drop (suc n) [] = []
  drop (suc n) (x ∷ xs) = drop n xs

  abbrev pub All {κ} : (A → Type κ) → List A → Type κ
  All P [] = Unit
  All P (x ∷ xs) = P x × All P xs

  pub length-append : (xs ys : List A) → length (xs ++ ys) ≡ length xs + length ys
  length-append [] ys = omega arith
  length-append (x ∷ xs) ys = omega (arith, length-append xs ys)

  pub length-take : (n : ℕ) (xs : List A) → length (take n xs) ≡ min n (length xs)
  length-take zero xs = omega arith
  length-take (suc n) [] = omega arith
  length-take (suc n) (x ∷ xs) = omega (arith, length-take n xs)

module _ {ℓ} {A : Type ℓ} where
  pub drop-eq_some :
      (i : ℕ) (l : List A) (x : A) → get_elem? l i ≡ some x → drop i l ≡ x ∷ drop (suc i) l
  drop-eq_some i [] x h = ground arith
  drop-eq_some zero (y ∷ l) x h = ground arith
  drop-eq_some (suc i) (y ∷ l) x h = drop-eq_some i l x h

  pub drop-eq_none : (i : ℕ) (l : List A) → get_elem? l i ≡ none → drop i l ≡ []
  drop-eq_none zero [] h = refl
  drop-eq_none (suc i) [] h = refl
  drop-eq_none zero (y ∷ l) h = ground arith
  drop-eq_none (suc i) (y ∷ l) h = drop-eq_none i l h

  pub length-drop : (i : ℕ) (l : List A) → length (drop i l) ≡ length l - i
  length-drop zero l = omega arith
  length-drop (suc i) [] = omega arith
  length-drop (suc i) (x ∷ l) = omega (arith, length-drop i l)

module _ {ℓ} {A : Type ℓ} where
  pub All-get_elem? {κ} :
      (P : A → Type κ) (l : List A) (i : ℕ) {x : A} → All P l → get_elem? l i ≡ some x → P x
  All-get_elem? P [] i a h = cc
  All-get_elem? P (y ∷ l) zero a h = subst P (some-injective y _ h) a.0
  All-get_elem? P (y ∷ l) (suc i) a h = All-get_elem? P l i a.1 h

  pub All-mono {κ} : (P Q : A → Type κ) (l : List A) → ((x : A) → P x → Q x) → All P l → All Q l
  All-mono P Q [] f a = tt
  All-mono P Q (x ∷ l) f a = (f x a.0, All-mono P Q l f a.1)

  pub All-map {κ} :
      (P Q : A → Type κ) (g : A → A) (l : List A)
      → ((x : A) → P x → Q (g x))
      → All P l
      → All Q (map g l)
  All-map P Q g [] f a = tt
  All-map P Q g (x ∷ l) f a = (f x a.0, All-map P Q g l f a.1)

  pub get_elem?-map {κ} :
      {B : Type κ} (g : A → B) (l : List A) (i : ℕ) {x : A}
      → get_elem? l i ≡ some x
      → get_elem? (map g l) i ≡ some (g x)
  get_elem?-map g [] i h = cc
  get_elem?-map g (y ∷ l) zero h = cc
  get_elem?-map g (y ∷ l) (suc i) h = get_elem?-map g l i h

  pub drop-append_le :
      (k : ℕ) (xs ys : List A) → k ≤ length xs → drop k (xs ++ ys) ≡ drop k xs ++ ys
  drop-append_le zero xs ys h = refl
  drop-append_le (suc k) [] ys h = absurd (omega arith)
  drop-append_le (suc k) (x ∷ xs) ys h = drop-append_le k xs ys (omega arith)

  pub take_front : (n : ℕ) (l m : List A) → n ≡ length l → take n (l ++ m) ≡ l
  take_front zero [] m e = refl
  take_front zero (x ∷ l) m e = absurd (omega arith)
  take_front (suc n) [] m e = absurd (omega arith)
  take_front (suc n) (x ∷ l) m e = ap (λ k. x ∷ k) (take_front n l m (omega arith))

  pub drop-length : (l m : List A) → drop (length l) (l ++ m) ≡ m
  drop-length [] m = refl
  drop-length (x ∷ l) m = drop-length l m
