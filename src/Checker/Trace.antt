-- ===== src/Checker/Trace.antt =====
-- What the checkers' specifications share: the first element of a list that a test picks.
use crash_simulator.Base.{
  ◌≡◌, refl, ap, ◌↔◌, Bool, true, false, Option, none, some, List, [], ◌∷◌, ◌++◌, arith, All, ◌||◌,
  Option-cases, Bool-cases, inl, inr,
}

module _ {A : Type 0} where
  -- Some element passes the test.
  unfoldable pub any : (A → Bool) → List A → Bool
  any p [] = false
  any p (x ∷ xs) = p x || any p xs

  -- `xs` is `before`, then an element that passes, then `after`.
  pub record Has (p : A → Bool) (xs : List A) : Type 0 where
    pub before : List A
    pub hit : A
    pub after : List A
    pub split : xs ≡ before ++ hit ∷ after
    pub passes : p hit ≡ true

  any_sound : (p : A → Bool) (xs : List A) → any p xs ≡ true → Has p xs
  unfolding any
  any_sound p [] h = cc
  any_sound p (x ∷ xs) h = elim (Bool-cases (p x)) [
    | inl e ↦ record { before = []; hit = x; after = xs; split = refl; passes = e }
    | inr e ↦ extend (any_sound p xs (ground arith))
  ]
    where
      extend : Has p xs → Has p (x ∷ xs)
      extend k = record {
        before = x ∷ k.before;
        hit = k.hit;
        after = k.after;
        split = ap (λ ys. x ∷ ys) k.split;
        passes = k.passes;
      }

  any-append : (p : A → Bool) (xs ys : List A) → any p (xs ++ ys) ≡ (any p xs || any p ys)
  unfolding any
  any-append p [] ys = refl
  any-append p (x ∷ xs) ys = ground (arith, any-append p xs ys)

  any_complete : (p : A → Bool) (xs : List A) → Has p xs → any p xs ≡ true
  unfolding any
  any_complete p xs k =
      rw (k.split, any-append p k.before (k.hit ∷ k.after), k.passes) (ground arith)

  pub any_iff : (p : A → Bool) (xs : List A) → (any p xs ≡ true) ↔ Has p xs
  any_iff p xs = (any_sound p xs, any_complete p xs)

module _ {A B : Type 0} where
  -- What the first picked element gives, and the elements behind it.
  unfoldable pub first : (A → Option B) → List A → Option (B × List A)
  first pick [] = none
  first pick (x ∷ xs) = elim (pick x) [ some b ↦ some (b, xs) | none ↦ first pick xs ]

  -- `xs` is `before`, where nothing is picked, then an element that gives `b`, then `rest`.
  pub record First (pick : A → Option B) (xs : List A) (b : B) (rest : List A) : Type 0 where
    pub before : List A
    pub hit : A
    pub split : xs ≡ before ++ hit ∷ rest
    pub fresh : All (λ y. pick y ≡ none) before
    pub picked : pick hit ≡ some b

  pub First-here :
      (pick : A → Option B) (x : A) (xs : List A) {b : B}
      → pick x ≡ some b
      → First pick (x ∷ xs) b xs
  First-here pick x xs e = record { before = []; hit = x; split = refl; fresh = tt; picked = e }

  pub First-cons :
      (pick : A → Option B) (x : A) {xs : List A} {b : B} {rest : List A}
      → pick x ≡ none
      → First pick xs b rest
      → First pick (x ∷ xs) b rest
  First-cons pick x e k = record {
    before = x ∷ k.before;
    hit = k.hit;
    split = ap (λ ys. x ∷ ys) k.split;
    fresh = (e, k.fresh);
    picked = k.picked;
  }

  pub first_sound :
      (pick : A → Option B) (xs : List A) (b : B) (rest : List A)
      → first pick xs ≡ some (b, rest)
      → First pick xs b rest
  unfolding first
  first_sound pick [] b rest h = cc
  first_sound pick (x ∷ xs) b rest h = elim (Option-cases (pick x)) [
    | inl e ↦ First-cons pick x e (first_sound pick xs b rest (ground arith))
    | inr (c, e) ↦ record {
      before = [];
      hit = x;
      split = ground arith;
      fresh = tt;
      picked = ground arith;
    }
  ]

  first_found :
      (pick : A → Option B) (before : List A) (x : A) (rest : List A) (b : B)
      → All (λ y. pick y ≡ none) before
      → pick x ≡ some b
      → first pick (before ++ x ∷ rest) ≡ some (b, rest)
  unfolding first
  first_found pick [] x rest b f h = ground arith
  first_found pick (y ∷ ys) x rest b f h = ground (arith, first_found pick ys x rest b f.1 h)

  pub first_complete :
      (pick : A → Option B) (xs : List A) (b : B) (rest : List A)
      → First pick xs b rest
      → first pick xs ≡ some (b, rest)
  first_complete pick xs b rest k =
      rw k.split (first_found pick k.before k.hit rest b k.fresh k.picked)

module _ {A B : Type 0} where
  -- The verdict of a specification in two stages: `q` is asked about what the first picked element
  -- gives and the elements behind it.
  unfoldable pub staged : (A → Option B) → (B → List A → Bool) → List A → Bool
  staged pick q xs = elim (first pick xs) [ none ↦ false | some (b, rest) ↦ q b rest ]

  module _ (pick : A → Option B) {q : B → List A → Bool} {Q : B → List A → Type 0}
      (iff : (b : B) (rest : List A) → (q b rest ≡ true) ↔ Q b rest) where
    staged_sound :
        (xs : List A)
        → staged pick q xs ≡ true
        → (b : B) × (rest : List A) × First pick xs b rest × Q b rest
    unfolding staged
    staged_sound xs h = elim (Option-cases (first pick xs)) [
      | inl e ↦ ground arith
      | inr ((b, rest), e) ↦ (b, rest, first_sound pick xs b rest e, (iff b rest).0 (ground arith))
    ]

    staged_complete :
        (xs : List A)
        → ((b : B) × (rest : List A) × First pick xs b rest × Q b rest)
        → staged pick q xs ≡ true
    unfolding staged
    staged_complete xs (b, rest, f, k) =
        rw (first_complete pick xs b rest f, staged) ((iff b rest).1 k)

    pub staged_iff :
        (xs : List A)
        → (staged pick q xs ≡ true) ↔ ((b : B) × (rest : List A) × First pick xs b rest × Q b rest)
    staged_iff xs = (staged_sound xs, staged_complete xs)
