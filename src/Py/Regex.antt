-- ===== src/Py/Regex.antt =====
-- Python's `re`, for patterns with named groups, references to them and repeated classes
pub mod Matches
pub mod Correct
use crash_simulator.Base.{
  ℕ, Bool, true, ◌&&◌, Option, none, some, List, [], ◌∷◌, ◌++◌, map, leb, ◌==◌, if◌then◌else◌,
  length,
}
use crash_simulator.Py.Strings.{Text, is_space}

-- `.` with DOTALL, \d and \s
pub data Class : Type 0 where
  any digit space : Class

unfoldable pub fits : Class → ℕ → Bool
unfolding is_space
fits any c = true
fits digit c = leb 48 c && leb c 57
fits space c = is_space c

-- A text, c+, c*, c*?, (?P<n>, its parenthesis, and (?P=n). Groups are numbered.
pub data Item : Type 0 where
  exactly : Text → Item
  many : Class → Item
  greedy : Class → Item
  lazily : Class → Item
  opens : ℕ → Item
  closes : ℕ → Item
  again : ℕ → Item

-- A group is the text before it, and what it matches.
abbrev pub Group : Type 0
Group = Text × Text

-- The text that is passed, the text that is left, and the groups that are open and closed.
pub record At : Type 0 where
  pub before : Text
  pub rest : Text
  pub opened : List (ℕ × Group)
  pub groups : List (ℕ × Group)

unfoldable pub group : ℕ → List (ℕ × Group) → Option Group
group n [] = none
group n ((m, g) ∷ gs) = let more = group n gs in if m == n then some g else more

-- Behind the text `t`, with `s` left.
abbrev pub moved : Text → Text → At → At
moved t s a = record a {
  before = a.before ++ t;
  rest = s;
  opened = map (λ x. (x.0, (x.1.0, x.1.1 ++ t))) a.opened;
}

abbrev pub open_group : ℕ → At → At
open_group n a = record a { opened = (n, (a.before, [])) ∷ a.opened }

abbrev pub close_group : ℕ → Group → At → At
close_group n g a = record a { groups = (n, g) ∷ a.groups }

-- What is behind `t`, if the text starts with it.
unfoldable pub behind : Text → Text → Option Text
behind [] s = some s
behind (x ∷ t) [] = none
behind (x ∷ t) (y ∷ s) = let more = behind t s in if x == y then more else none

-- An alternative that is tried where the first one fails.
abbrev pub or_else {ℓ} : {A : Type ℓ} → Option A → Option A → Option A
or_else (some r) o = some r
or_else none o = o

-- The rest of a match.
abbrev pub Rest : Type 0
Rest = At → Option At

unfoldable pub match_text : Text → Rest → Rest
unfolding behind
match_text t k a = elim (behind t a.rest) [ none ↦ none | some s ↦ k (moved t s a) ]

-- From `t` on, which is passed, as much of the class as can be, and less where the rest fails.
unfoldable pub longest : Class → Rest → At → Text → Text → Option At
longest c k a t [] = k (moved t [] a)
longest c k a t (x ∷ s) =
    let more = longest c k a (t ++ x ∷ []) s in
    if fits c x then or_else more (k (moved t (x ∷ s) a)) else k (moved t (x ∷ s) a)

unfoldable pub shortest : Class → Rest → At → Text → Text → Option At
shortest c k a t [] = k (moved t [] a)
shortest c k a t (x ∷ s) =
    let more = shortest c k a (t ++ x ∷ []) s in
    or_else (k (moved t (x ∷ s) a)) (if fits c x then more else none)

unfoldable pub match_many : Class → Rest → At → Text → Option At
unfolding longest
match_many c k a [] = none
match_many c k a (x ∷ s) = if fits c x then longest c k a (x ∷ []) s else none

unfoldable pub match_item : Item → Rest → Rest
unfolding match_text match_many longest shortest group
match_item (exactly t) k a = match_text t k a
match_item (many c) k a = match_many c k a a.rest
match_item (greedy c) k a = longest c k a [] a.rest
match_item (lazily c) k a = shortest c k a [] a.rest
match_item (opens n) k a = k (open_group n a)
match_item (closes n) k a = elim (group n a.opened) [ none ↦ none | some g ↦ k (close_group n g a) ]
match_item (again n) k a = elim (group n a.groups) [ none ↦ none | some g ↦ match_text g.1 k a ]

unfoldable pub match_items : List Item → Rest
unfolding match_item
match_items [] a = some a
match_items (i ∷ is) a = match_item i (match_items is) a

abbrev pub starting : Text → Text → At
starting before s = record { before = before; rest = s; opened = []; groups = [] }

-- search, from a place in the text on
unfoldable pub search_from : List Item → Text → Text → Option At
unfolding match_items
search_from is before [] = match_items is (starting before [])
search_from is before (x ∷ s) =
    let more = search_from is (before ++ x ∷ []) s in
    or_else (match_items is (starting before (x ∷ s))) more

unfoldable pub search : List Item → Text → Option At
unfolding search_from
search is s = search_from is [] s
