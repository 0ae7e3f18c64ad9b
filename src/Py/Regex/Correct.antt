-- ===== src/Py/Regex/Correct.antt =====
-- The search of `re` finds a match exactly if there is one.
use mathlib.Core.List.{append_assoc, append-nil}
use mathlib.Core.Option.{some-injective}
use crash_simulator.Base.{
  ◌≡◌, refl, sym, ap, ◌∙◌, subst, true, false, Option, none, some, List, [], ◌∷◌, ◌++◌, is_some,
  arith, Bool-cases, Option-cases, inl, inr,
}
use crash_simulator.Py.Strings.{Text}
use crash_simulator.Py.Regex.{
  Class, fits, Item, exactly, many, greedy, lazily, opens, closes, again, Group, At, group, moved,
  open_group, close_group, behind, Rest, match_text, match_many, match_item, match_items, starting,
  search_from, search,
}
use crash_simulator.Py.Regex.Matches.{
  Of, is_none, With, With-cases, With-some, Passes, Fits, Matches, or_else-cases, behind_lem,
  behind-append, or_else-left, or_else-right, longest_sound, shortest_sound, longest_complete,
  shortest_complete,
}

module _ (k : Rest) (a : At) where
  text_sound : (t : Text) (r : At) → match_text t k a ≡ some r → Passes t a (λ b. k b ≡ some r)
  unfolding match_text
  text_sound t r h = elim (Option-cases (behind t a.rest)) [
    | inl e ↦ ground (arith, e, h)
    | inr (s, e) ↦ (s, behind_lem t a.rest s e, ground (arith, e, h))
  ]

  text_complete :
      (t : Text) → Passes t a (λ b. is_some (k b) ≡ true) → is_some (match_text t k a) ≡ true
  unfolding match_text
  text_complete t (s, e, q) = rw (match_text, e, behind-append t s) q

  many_sound :
      (c : Class) (s : Text) (r : At)
      → match_many c k a s ≡ some r
      → (t : Text) × (v : Text) × Of c t
        × (is_none t ≡ false)
        × (s ≡ t ++ v)
        × (k (moved t v a) ≡ some r)
  unfolding match_many
  many_sound c [] r h = cc
  many_sound c (x ∷ s) r h = elim (Bool-cases (fits c x)) [
    | inl f ↦
        let (u, v, o, e, q) = longest_sound c k a (x ∷ []) s r (ground (arith, f, h)) in
        (x ∷ u, v, (f, o), refl, ap (λ w. x ∷ w) e, q)
    | inr f ↦ ground (arith, f, h)
  ]

  many_complete :
      (c : Class) (t v : Text)
      → Of c t
      → is_none t ≡ false
      → is_some (k (moved t v a)) ≡ true
      → is_some (match_many c k a (t ++ v)) ≡ true
  unfolding match_many
  many_complete c [] v o n h = cc
  many_complete c (x ∷ t) v o n h = rw (o.0) (longest_complete c k a (x ∷ []) t v o.1 h)

  item_sound : (i : Item) (r : At) → match_item i k a ≡ some r → Fits i a (λ b. k b ≡ some r)
  unfolding match_item Fits
  item_sound (exactly t) r h = text_sound t r h
  item_sound (many c) r h = let (t, v, o, n, e, q) = many_sound c a.rest r h in (t, o, n, (v, e, q))
  item_sound (greedy c) r h =
      let (u, v, o, e, q) = longest_sound c k a [] a.rest r h in (u, o, (v, e, q))
  item_sound (lazily c) r h =
      let (u, v, o, e, q) = shortest_sound c k a [] a.rest r h in (u, o, (v, e, q))
  item_sound (opens n) r h = h
  item_sound (closes n) r h = elim (Option-cases (group n a.opened)) [
    | inl e ↦ ground (arith, e, h)
    | inr (g, e) ↦
        With-some (group n a.opened) (λ x. k (close_group n x a) ≡ some r) g e
          (ground (arith, e, h))
  ]
  item_sound (again n) r h = elim (Option-cases (group n a.groups)) [
    | inl e ↦ ground (arith, e, h)
    | inr (g, e) ↦
        With-some (group n a.groups) (λ x. Passes x.1 a (λ b. k b ≡ some r)) g e
          (text_sound g.1 r (ground (arith, e, h)))
  ]

  item_complete :
      (i : Item) → Fits i a (λ b. is_some (k b) ≡ true) → is_some (match_item i k a) ≡ true
  unfolding match_item Fits
  item_complete (exactly t) q = text_complete t q
  item_complete (many c) (t, o, n, (s, e, q)) = rw e (many_complete c t s o n q)
  item_complete (greedy c) (t, o, (s, e, q)) = rw e (longest_complete c k a [] t s o q)
  item_complete (lazily c) (t, o, (s, e, q)) = rw e (shortest_complete c k a [] t s o q)
  item_complete (opens n) q = q
  item_complete (closes n) w =
      let (g, e, q) =
        With-cases (group n a.opened) (λ g. is_some (k (close_group n g a)) ≡ true) w in
      rw (match_item, e) q
  item_complete (again n) w =
      let (g, e, q) =
        With-cases (group n a.groups) (λ g. Passes g.1 a (λ b. is_some (k b) ≡ true)) w in
      rw (match_item, e) (text_complete g.1 q)

With_mono :
    (o : Option Group) (P P' : Group → Type 0) → ((g : Group) → P g → P' g) → With o P → With o P'
With_mono none P P' f w = w
With_mono (some g) P P' f w = f g w

Fits_mono :
    (i : Item) (a : At) (Q Q' : At → Type 0) → ((b : At) → Q b → Q' b) → Fits i a Q → Fits i a Q'
unfolding Fits
Fits_mono (exactly t) a Q Q' f (s, e, q) = (s, e, f (moved t s a) q)
Fits_mono (many c) a Q Q' f (t, o, n, (s, e, q)) = (t, o, n, (s, e, f (moved t s a) q))
Fits_mono (greedy c) a Q Q' f (t, o, (s, e, q)) = (t, o, (s, e, f (moved t s a) q))
Fits_mono (lazily c) a Q Q' f (t, o, (s, e, q)) = (t, o, (s, e, f (moved t s a) q))
Fits_mono (opens n) a Q Q' f q = f (open_group n a) q
Fits_mono (closes n) a Q Q' f w =
    With_mono (group n a.opened) (λ g. Q (close_group n g a)) (λ g. Q' (close_group n g a))
      (λ g q. f (close_group n g a) q) w
Fits_mono (again n) a Q Q' f w =
    With_mono (group n a.groups) (λ g. Passes g.1 a Q) (λ g. Passes g.1 a Q')
      (λ g p. (p.0, p.1, f (moved g.1 p.0 a) p.2)) w

items_sound : (is : List Item) (a r : At) → match_items is a ≡ some r → Matches is a (λ b. b ≡ r)
unfolding match_items Matches
items_sound [] a r h = some-injective a r h
items_sound (i ∷ is) a r h =
    Fits_mono i a (λ b. match_items is b ≡ some r) (λ b. Matches is b (λ d. d ≡ r))
      (λ b e. items_sound is b r e) (item_sound (match_items is) a i r h)

items_complete :
    (is : List Item) (a : At) (Q : At → Type 0) → Matches is a Q → is_some (match_items is a) ≡ true
unfolding match_items Matches
items_complete [] a Q m = refl
items_complete (i ∷ is) a Q m = item_complete (match_items is) a i (
    Fits_mono i a (λ b. Matches is b Q) (λ b. is_some (match_items is b) ≡ true)
      (λ b n. items_complete is b Q n) m)

-- The text that is passed and the text that is left.
abbrev whole : At → Text
whole a = a.before ++ a.rest

kept : (a : At) (t s : Text) → a.rest ≡ t ++ s → whole (moved t s a) ≡ whole a
kept a t s e = append_assoc a.before t s ∙ ap (λ w. a.before ++ w) (sym e)

Fits-whole :
    (i : Item) (a : At) (Q : At → Type 0) → Fits i a Q → Fits i a (λ b. Q b × (whole b ≡ whole a))
unfolding Fits
Fits-whole (exactly t) a Q (s, e, q) = (s, e, (q, kept a t s e))
Fits-whole (many c) a Q (t, o, n, (s, e, q)) = (t, o, n, (s, e, (q, kept a t s e)))
Fits-whole (greedy c) a Q (t, o, (s, e, q)) = (t, o, (s, e, (q, kept a t s e)))
Fits-whole (lazily c) a Q (t, o, (s, e, q)) = (t, o, (s, e, (q, kept a t s e)))
Fits-whole (opens n) a Q q = (q, refl)
Fits-whole (closes n) a Q w =
    With_mono (group n a.opened) (λ g. Q (close_group n g a))
      (λ g. Q (close_group n g a) × (whole (close_group n g a) ≡ whole a)) (λ g q. (q, refl)) w
Fits-whole (again n) a Q w =
    With_mono (group n a.groups) (λ g. Passes g.1 a Q)
      (λ g. Passes g.1 a (λ b. Q b × (whole b ≡ whole a)))
      (λ g p. (p.0, p.1, (p.2, kept a g.1 p.0 p.1))) w

Matches_mono :
    (is : List Item) (a : At) (Q Q' : At → Type 0)
    → ((b : At) → Q b → Q' b)
    → Matches is a Q
    → Matches is a Q'
unfolding Matches
Matches_mono [] a Q Q' f m = f a m
Matches_mono (i ∷ is) a Q Q' f m =
    Fits_mono i a (λ b. Matches is b Q) (λ b. Matches is b Q') (λ b n. Matches_mono is b Q Q' f n) m

Matches-whole :
    (is : List Item) (a : At) (Q : At → Type 0)
    → Matches is a Q
    → Matches is a (λ b. Q b × (whole b ≡ whole a))
unfolding Matches
Matches-whole [] a Q m = (m, refl)
Matches-whole (i ∷ is) a Q m =
    Fits_mono i a (λ b. Matches is b Q × (whole b ≡ whole a))
      (λ b. Matches is b (λ d. Q d × (whole d ≡ whole a)))
      (λ b n.
        Matches_mono is b (λ d. Q d × (whole d ≡ whole b)) (λ d. Q d × (whole d ≡ whole a))
          (λ d q. (q.0, q.1 ∙ n.1)) (Matches-whole is b Q n.0))
      (Fits-whole i a (λ b. Matches is b Q) m)

-- A match in the text, from behind `b` on.
abbrev pub Found : List Item → Text → (At → Type 0) → Type 0
Found is s Q =
    (b : Text) × (t : Text) × (s ≡ b ++ t)
    × Matches is (starting b t) (λ a. Q a × (a.before ++ a.rest ≡ s))

found_at :
    (is : List Item) (b t : Text) (r : At)
    → match_items is (starting b t) ≡ some r
    → Found is (b ++ t) (λ a. a ≡ r)
found_at is b t r h =
    (b, t, refl, Matches-whole is (starting b t) (λ a. a ≡ r) (items_sound is (starting b t) r h))

from_sound :
    (is : List Item) (b s : Text) (r : At)
    → search_from is b s ≡ some r
    → Found is (b ++ s) (λ a. a ≡ r)
unfolding search_from
from_sound is b [] r h = found_at is b [] r h
from_sound is b (x ∷ s) r h =
    elim (or_else-cases (match_items is (starting b (x ∷ s))) (search_from is (b ++ x ∷ []) s) r
      h) [
        | inl e ↦ found_at is b (x ∷ s) r e
        | inr e ↦
            subst (λ w. Found is w (λ a. a ≡ r)) (append_assoc b (x ∷ []) s)
              (from_sound is (b ++ x ∷ []) s r e)
      ]

from_complete :
    (is : List Item) (b u t : Text) (Q : At → Type 0)
    → Matches is (starting (b ++ u) t) Q
    → is_some (search_from is b (u ++ t)) ≡ true
unfolding search_from
from_complete is b [] [] Q m =
    items_complete is (starting b []) Q (subst (λ w. Matches is (starting w []) Q) (append-nil b) m)
from_complete is b [] (x ∷ t) Q m =
    or_else-left (match_items is (starting b (x ∷ t))) (search_from is (b ++ x ∷ []) t) (
      items_complete is (starting b (x ∷ t)) Q
        (subst (λ w. Matches is (starting w (x ∷ t)) Q) (append-nil b) m))
from_complete is b (x ∷ u) t Q m =
    or_else-right (match_items is (starting b (x ∷ (u ++ t))))
      (search_from is (b ++ x ∷ []) (u ++ t))
      (from_complete is (b ++ x ∷ []) u t Q
        (subst (λ w. Matches is (starting w t) Q) (sym (append_assoc b (x ∷ []) u)) m))

-- What search gives is a match.
pub search_sound :
    (is : List Item) (s : Text) (r : At) → search is s ≡ some r → Found is s (λ a. a ≡ r)
unfolding search
search_sound is s r h = from_sound is [] s r h

-- Where there is a match, search gives one.
pub search_complete :
    (is : List Item) (s : Text) (Q : At → Type 0) (b t : Text)
    → s ≡ b ++ t
    → Matches is (starting b t) Q
    → is_some (search is s) ≡ true
unfolding search
search_complete is s Q b t e m = rw e (from_complete is [] b t Q m)
