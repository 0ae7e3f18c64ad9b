-- ===== src/Inject/Backing/Laws.antt =====
-- The format that parse_backing_files of src/inject.py reads.
use crash_simulator.Base.{
  ◌≡◌, refl, ap, ℕ, Bool, true, false, List, [], ◌∷◌, ◌++◌, ◌==◌, if◌then◌else◌, All, arith, map,
}
use crash_simulator.Py.{Text, ok}
use crash_simulator.Inject.Backing.{
  split, but_last, last_of, closed, pair_of, set_item, add_pairs, parse_backing_files,
}

-- The separator does not occur in the text.
unfoldable pub avoids : ℕ → Text → Bool
avoids sep [] = true
avoids sep (x ∷ s) = if x == sep then false else avoids sep s

split_piece :
    (sep : ℕ) (w rest : Text)
    → avoids sep w ≡ true
    → split sep (w ++ sep ∷ rest) ≡ w ∷ split sep rest
unfolding split avoids
split_piece sep [] rest h = ground arith
split_piece sep (x ∷ w) rest h = ground (arith, split_piece sep w rest)

split_whole : (sep : ℕ) (w : Text) → avoids sep w ≡ true → split sep w ≡ w ∷ []
unfolding split avoids
split_whole sep [] h = refl
split_whole sep (x ∷ w) h = ground (arith, split_whole sep w)

-- key:value
abbrev pub show_pair : Text × Text → Text
show_pair p = p.0 ++ b':' ∷ p.1

-- Each pair ends with a semicolon.
unfoldable pub show_pairs : List (Text × Text) → Text
show_pairs [] = []
show_pairs (p ∷ ps) = show_pair p ++ b';' ∷ show_pairs ps

-- Names that the format can hold: no `;`, and no `:`.
abbrev pub Plain : Text × Text → Type 0
Plain p = (avoids b';' (show_pair p) ≡ true) × (avoids b':' p.0 ≡ true) × (avoids b':' p.1 ≡ true)

-- The dict after each pair was stored, a later value of a key in place of an earlier one.
unfoldable pub store_all : List (Text × Text) → List (Text × Text) → List (Text × Text)
store_all [] d = d
store_all (p ∷ ps) d = store_all ps (set_item p d)

split_empty : (sep : ℕ) → split sep [] ≡ [] ∷ []
unfolding split
split_empty sep = refl

split_show :
    (ps : List (Text × Text))
    → All Plain ps
    → split b';' (show_pairs ps) ≡ map show_pair ps ++ [] ∷ []
unfolding show_pairs
split_show [] a = split_empty b';'
split_show (p ∷ ps) a =
    rw (split_piece b';' (show_pair p) (show_pairs ps) a.0.0, split_show ps a.1) refl

but_last-append : (l : List Text) (x : Text) → but_last (l ++ x ∷ []) ≡ l
unfolding but_last
but_last-append [] x = refl
but_last-append (y ∷ []) x = refl
but_last-append (y ∷ z ∷ l) x = ap (λ k. y ∷ k) (but_last-append (z ∷ l) x)

add_shown :
    (ps d : List (Text × Text))
    → All Plain ps
    → add_pairs (map show_pair ps) d ≡ ok (store_all ps d)
unfolding add_pairs store_all pair_of
add_shown [] d a = refl
add_shown (p ∷ ps) d a =
    rw (split_piece b':' p.0 p.1 a.0.1, split_whole b':' p.1 a.0.2)
      (add_shown ps (set_item p d) a.1)

last_of-append : (x : ℕ) (w : Text) (y : ℕ) (s : Text) → last_of x (w ++ y ∷ s) ≡ last_of y s
unfolding last_of
last_of-append x [] y s = refl
last_of-append x (z ∷ w) y s = last_of-append z w y s

abbrev not_empty : Text → Bool
not_empty [] = false
not_empty (x ∷ s) = true

-- What the code appends to a text is a semicolon, unless it ends with one.
closed_semicolon : (s : Text) → closed (s ++ b';' ∷ []) ≡ ok (s ++ b';' ∷ [])
unfolding closed last_of
closed_semicolon [] = refl
closed_semicolon (x ∷ s) = rw (last_of-append x s b';' []) refl

-- A text that does not end with a semicolon, and is not empty, is read as with one behind it.
pub final_semicolon_optional :
    (x : ℕ) (s : Text)
    → (last_of x s == b';') ≡ false
    → parse_backing_files (x ∷ s) ≡ parse_backing_files ((x ∷ s) ++ b';' ∷ [])
unfolding parse_backing_files closed
final_semicolon_optional x s h = rw (h, last_of-append x s b';' []) refl

ends_closed :
    (p : Text × Text) (ps : List (Text × Text)) (x : ℕ) → last_of x (show_pairs (p ∷ ps)) ≡ b';'
unfolding show_pairs last_of
ends_closed p [] x = last_of-append x (show_pair p) b';' []
ends_closed p (q ∷ ps) x =
    rw (last_of-append x (show_pair p) b';' (show_pairs (q ∷ ps))) (ends_closed q ps b';')

closed_shown : (s : Text) → not_empty s ≡ true → ((x : ℕ) → last_of x s ≡ b';') → closed s ≡ ok s
unfolding closed last_of
closed_shown [] h l = cc
closed_shown (x ∷ s) h l = rw (l 0) refl

show_not_empty :
    (p : Text × Text) (ps : List (Text × Text)) → not_empty (show_pairs (p ∷ ps)) ≡ true
unfolding show_pairs
show_not_empty ([], v) ps = refl
show_not_empty (x ∷ k, v) ps = refl

-- Pairs written in the format, one or more, with names that the format can hold, are read back: the
-- dict is the one after each pair was stored in turn.
pub parse-show :
    (p : Text × Text) (ps : List (Text × Text))
    → All Plain (p ∷ ps)
    → parse_backing_files (show_pairs (p ∷ ps)) ≡ ok (store_all (p ∷ ps) [])
unfolding parse_backing_files
parse-show p ps a =
    rw
      (
        closed_shown (show_pairs (p ∷ ps)) (show_not_empty p ps) (ends_closed p ps),
        split_show (p ∷ ps) a,
        but_last-append (map show_pair (p ∷ ps)) [],
      )
      (add_shown (p ∷ ps) [] a)
