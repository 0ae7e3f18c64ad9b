-- ===== src/Py/Regex/Matches.antt =====
-- What a match of `re` is
use mathlib.Core.List.{append_assoc, append-nil}
use crash_simulator.Base.{
  ◌≡◌, refl, sym, ap, subst, ℕ, Bool, true, false, Option, none, some, List, [], ◌∷◌, ◌++◌, All,
  is_some, arith, if◌then◌else◌, ==_iff, ◌==◌, Bool-cases, ◌⊎◌, inl, inr,
}
use crash_simulator.Py.Strings.{Text}
use crash_simulator.Py.Regex.{
  Class, fits, Item, exactly, many, greedy, lazily, opens, closes, again, Group, At, group, moved,
  open_group, close_group, behind, or_else, Rest, longest, shortest,
}

abbrev pub Of : Class → Text → Type 0
Of c t = All (λ x. fits c x ≡ true) t

abbrev pub is_none : Text → Bool
is_none [] = true
is_none (x ∷ t) = false

-- The rest of the text starts with `t`, and what is behind `t` is as it should be.
abbrev pub Passes : Text → At → (At → Type 0) → Type 0
Passes t a Q = (s : Text) × (a.rest ≡ t ++ s) × Q (moved t s a)

-- There is such a group.
abbrev pub With : Option Group → (Group → Type 0) → Type 0
With none P = ⊥
With (some g) P = P g

pub With-cases :
    (o : Option Group) (P : Group → Type 0) → With o P → (g : Group) × (o ≡ some g) × P g
With-cases none P w = absurd w
With-cases (some g) P w = (g, refl, w)

pub With-some : (o : Option Group) (P : Group → Type 0) (g : Group) → o ≡ some g → P g → With o P
With-some o P g e q = rw e q

-- The text at a place is as an item says, and the place behind as Q says.
unfoldable pub Fits : Item → At → (At → Type 0) → Type 0
Fits (exactly t) a Q = Passes t a Q
Fits (many c) a Q = (t : Text) × Of c t × (is_none t ≡ false) × Passes t a Q
Fits (greedy c) a Q = (t : Text) × Of c t × Passes t a Q
Fits (lazily c) a Q = (t : Text) × Of c t × Passes t a Q
Fits (opens n) a Q = Q (open_group n a)
Fits (closes n) a Q = With (group n a.opened) (λ g. Q (close_group n g a))
Fits (again n) a Q = With (group n a.groups) (λ g. Passes g.1 a Q)

unfoldable pub Matches : List Item → At → (At → Type 0) → Type 0
unfolding Fits
Matches [] a Q = Q a
Matches (i ∷ is) a Q = Fits i a (λ b. Matches is b Q)

pub or_else-cases :
    (o o' : Option At) (r : At) → or_else o o' ≡ some r → (o ≡ some r) ⊎ (o' ≡ some r)
or_else-cases none o' r h = inr h
or_else-cases (some q) o' r h = inl h

pub behind_lem : (t s u : Text) → behind t s ≡ some u → s ≡ t ++ u
unfolding behind
behind_lem [] s u h = ground arith
behind_lem (x ∷ t) [] u h = cc
behind_lem (x ∷ t) (y ∷ s) u h = elim (Bool-cases (x == y)) [
  | inl q ↦ ground (arith, q, (==_iff x y).0 q, behind_lem t s u)
  | inr q ↦ ground (arith, q)
]

pub behind-append : (t s : Text) → behind t (t ++ s) ≡ some s
unfolding behind
behind-append [] s = refl
behind-append (x ∷ t) s = rw ((==_iff x x).1 refl) (behind-append t s)

pub or_else-left : (o o' : Option At) → is_some o ≡ true → is_some (or_else o o') ≡ true
or_else-left none o' h = cc
or_else-left (some r) o' h = refl

pub or_else-right : (o o' : Option At) → is_some o' ≡ true → is_some (or_else o o') ≡ true
or_else-right none o' h = h
or_else-right (some r) o' h = refl

module _ (c : Class) (k : Rest) (a : At) where
  -- From `t` on, some more characters of the class are passed, and the rest matches behind them.
  abbrev pub Splits : Text → Text → (At → Type 0) → Type 0
  Splits t s Q = (u : Text) × (v : Text) × Of c u × (s ≡ u ++ v) × Q (moved (t ++ u) v a)

  nothing_more : (t s : Text) (Q : At → Type 0) → Q (moved t s a) → Splits t s Q
  nothing_more t s Q q = ([], s, tt, refl, subst (λ w. Q (moved w s a)) (sym (append-nil t)) q)

  one_more :
      (t s : Text) (x : ℕ) (Q : At → Type 0)
      → fits c x ≡ true
      → Splits (t ++ x ∷ []) s Q
      → Splits t (x ∷ s) Q
  one_more t s x Q f (u, v, o, e, q) = (
    x ∷ u,
    v,
    (f, o),
    ap (λ w. x ∷ w) e,
    subst (λ w. Q (moved w v a)) (append_assoc t (x ∷ []) u) q,
  )

  pub longest_sound :
      (t s : Text) (r : At) → longest c k a t s ≡ some r → Splits t s (λ b. k b ≡ some r)
  unfolding longest
  longest_sound t [] r h = nothing_more t [] (λ b. k b ≡ some r) h
  longest_sound t (x ∷ s) r h = elim (Bool-cases (fits c x)) [
    | inl f ↦
        elim (or_else-cases (longest c k a (t ++ x ∷ []) s) (k (moved t (x ∷ s) a)) r
          (ground (arith, f, h))) [
            | inl e ↦ one_more t s x (λ b. k b ≡ some r) f (longest_sound (t ++ x ∷ []) s r e)
            | inr e ↦ nothing_more t (x ∷ s) (λ b. k b ≡ some r) e
          ]
    | inr f ↦ nothing_more t (x ∷ s) (λ b. k b ≡ some r) (ground (arith, f, h))
  ]

  pub shortest_sound :
      (t s : Text) (r : At) → shortest c k a t s ≡ some r → Splits t s (λ b. k b ≡ some r)
  unfolding shortest
  shortest_sound t [] r h = nothing_more t [] (λ b. k b ≡ some r) h
  shortest_sound t (x ∷ s) r h =
      elim (or_else-cases (k (moved t (x ∷ s) a))
        (if fits c x then shortest c k a (t ++ x ∷ []) s else none) r h) [
          | inl e ↦ nothing_more t (x ∷ s) (λ b. k b ≡ some r) e
          | inr e ↦ elim (Bool-cases (fits c x)) [
            | inl f ↦
                one_more t s x (λ b. k b ≡ some r) f
                  (shortest_sound (t ++ x ∷ []) s r (ground (arith, f, e)))
            | inr f ↦ ground (arith, f, e)
          ]
        ]

  pub longest_complete :
      (t u v : Text)
      → Of c u
      → is_some (k (moved (t ++ u) v a)) ≡ true
      → is_some (longest c k a t (u ++ v)) ≡ true
  unfolding longest
  longest_complete t [] [] o h = subst (λ w. is_some (k (moved w [] a)) ≡ true) (append-nil t) h
  longest_complete t [] (x ∷ v) o h =
      let q = subst (λ w. is_some (k (moved w (x ∷ v) a)) ≡ true) (append-nil t) h in
      elim (Bool-cases (fits c x)) [
        | inl f ↦ rw f (or_else-right (longest c k a (t ++ x ∷ []) v) (k (moved t (x ∷ v) a)) q)
        | inr f ↦ rw f q
      ]
  longest_complete t (x ∷ u) v o h = rw (o.0) (
      or_else-left (longest c k a (t ++ x ∷ []) (u ++ v)) (k (moved t (x ∷ u ++ v) a)) (
        longest_complete (t ++ x ∷ []) u v o.1
          (subst (λ w. is_some (k (moved w v a)) ≡ true) (sym (append_assoc t (x ∷ []) u)) h)))

  pub shortest_complete :
      (t u v : Text)
      → Of c u
      → is_some (k (moved (t ++ u) v a)) ≡ true
      → is_some (shortest c k a t (u ++ v)) ≡ true
  unfolding shortest
  shortest_complete t [] [] o h = subst (λ w. is_some (k (moved w [] a)) ≡ true) (append-nil t) h
  shortest_complete t [] (x ∷ v) o h =
      or_else-left (k (moved t (x ∷ v) a))
        (if fits c x then shortest c k a (t ++ x ∷ []) v else none)
        (subst (λ w. is_some (k (moved w (x ∷ v) a)) ≡ true) (append-nil t) h)
  shortest_complete t (x ∷ u) v o h = rw (o.0) (
      or_else-right (k (moved t (x ∷ (u ++ v)) a)) (shortest c k a (t ++ x ∷ []) (u ++ v)) (
        shortest_complete (t ++ x ∷ []) u v o.1
          (subst (λ w. is_some (k (moved w v a)) ≡ true) (sym (append_assoc t (x ∷ []) u)) h)))
