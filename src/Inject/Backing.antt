-- ===== src/Inject/Backing.antt =====
-- src/inject.py: parse_backing_files
pub mod Laws
use crash_simulator.Base.{
  ℕ, Bool, true, false, Option, none, some, List, [], ◌∷◌, ◌++◌, ◌==◌, if◌then◌else◌,
}
use crash_simulator.Py.{Text, text, same, Result, ok, raised, index_error, then_try}

abbrev put_char : ℕ → List Text → List Text
put_char x [] = (x ∷ []) ∷ []
put_char x (w ∷ ws) = (x ∷ w) ∷ ws

-- s.split(sep), for a separator of one character
unfoldable pub split : ℕ → Text → List Text
split sep [] = [] ∷ []
split sep (x ∷ s) = let rest = split sep s in if x == sep then [] ∷ rest else put_char x rest

-- l[:-1]
unfoldable pub but_last : {A : Type 0} → List A → List A
but_last [] = []
but_last (x ∷ []) = []
but_last (x ∷ y ∷ l) = x ∷ but_last (y ∷ l)

-- s[-1], of a text that is not empty
unfoldable pub last_of : ℕ → Text → ℕ
last_of x [] = x
last_of x (y ∷ s) = last_of y s

-- if bfs[-1] != ';': bfs += ';'
unfoldable pub closed : Text → Result Text
unfolding last_of
closed [] = raised index_error
closed (x ∷ s) = ok (if last_of x s == b';' then x ∷ s else (x ∷ s) ++ b';' ∷ [])

-- bf_pair[0], bf_pair[1]
unfoldable pub pair_of : List Text → Result (Text × Text)
pair_of (a ∷ b ∷ r) = ok (a, b)
pair_of _ = raised index_error

-- tmp[key] = value
unfoldable pub set_item : Text × Text → List (Text × Text) → List (Text × Text)
set_item p [] = p ∷ []
set_item p (q ∷ d) = let rest = set_item p d in if same p.0 q.0 then p ∷ d else q ∷ rest

unfoldable pub add_pairs : List Text → List (Text × Text) → Result (List (Text × Text))
unfolding pair_of split set_item
add_pairs [] d = ok d
add_pairs (i ∷ l) d = then_try (pair_of (split b':' i)) (λ p. add_pairs l (set_item p d))

unfoldable pub parse_backing_files : Text → Result (List (Text × Text))
unfolding closed split but_last add_pairs
parse_backing_files bfs = then_try (closed bfs) (λ s. add_pairs (but_last (split b';' s)) [])
