-- ===== src/Rrdump/Dumps.antt =====
-- rrdump.py: the files that dump_state writes
use mathlib.Core.Option.{some-injective}
use crash_simulator.Base.{
  ◌≡◌, ◌≢◌, refl, sym, ap, ◌∙◌, true, false, Option, none, some, List, [], ◌∷◌, ◌++◌, if◌then◌else◌,
  ℤ, eq_ℤ, eq_ℤ_iff, arith, Bool-cases, inl, inr, length, length-append,
}
use crash_simulator.Py.{Text, text, same, same_iff, show_int, parse_int}
use crash_simulator.Py.Decimal.{parse_int-show_int}
use crash_simulator.Rrdump.{State, Dump, dump, dump_name, write_file, dump_state}

unfoldable pub read_file : Text → List (Text × Dump) → Option Dump
read_file n [] = none
read_file n ((n', d) ∷ files) = let rest = read_file n files in if same n' n then some d else rest

-- dump_state for some events, one after the other.
unfoldable pub dump_states : List (ℤ × State) → List (Text × Dump) → List (Text × Dump)
dump_states [] files = files
dump_states ((event, s) ∷ ds) files = dump_states ds (dump_state event s files)

-- The last of the states that are dumped for an event.
unfoldable pub last_dump : ℤ → List (ℤ × State) → Option Dump → Option Dump
last_dump event [] d = d
last_dump event ((event', s) ∷ ds) d =
    last_dump event ds (if eq_ℤ event' event then some (dump s) else d)

same_file : (a b c : Text) → same a b ≡ true → same a c ≡ same b c
same_file a b c h = ap (λ x. same x c) ((same_iff a b).0 h)

read_file-write_file :
    (n n' : Text) (d : Dump) (files : List (Text × Dump))
    → read_file n (write_file n' d files) ≡ (if same n' n then some d else read_file n files)
unfolding read_file write_file
read_file-write_file n n' d [] = refl
read_file-write_file n n' d ((m, d') ∷ files) = elim (Bool-cases (same m n')) [
  | inl q ↦ rw (q, same_file m n' n q) (ground arith)
  | inr q ↦
      rw (q, read_file-write_file n n' d files)
        (ground (arith, q, same_iff m n, same_iff n' n, same_iff m n'))
]

show_int_injective : (m n : ℤ) → show_int m ≡ show_int n → m ≡ n
show_int_injective m n h =
    some-injective m n (sym (parse_int-show_int m) ∙ ap parse_int h ∙ parse_int-show_int n)

append_cancel : (s t u : Text) → s ++ u ≡ t ++ u → s ≡ t
append_cancel [] [] u h = refl
append_cancel [] (y ∷ t) u h = let l = ap length h in absurd (omega (arith, l, length-append t u))
append_cancel (x ∷ s) [] u h = let l = ap length h in absurd (omega (arith, l, length-append s u))
append_cancel (x ∷ s) (y ∷ t) u h = ground (arith, append_cancel s t u)

dump_name_differs : (m n : ℤ) → same (dump_name m) (dump_name n) ≡ eq_ℤ m n
unfolding dump_name
dump_name_differs m n = elim (Bool-cases (eq_ℤ m n)) [
  | inl q ↦ rw (q, (eq_ℤ_iff m n).0 q) ((same_iff (dump_name n) (dump_name n)).1 refl)
  | inr q ↦ elim (Bool-cases (same (dump_name m) (dump_name n))) [
    | inl e ↦ absurd (
        differ m n q (
          show_int_injective m n (
            append_cancel (show_int m) (show_int n) (text "_state.json")
              ((same_iff (dump_name m) (dump_name n)).0 e))))
    | inr e ↦ e ∙ sym q
  ]
]
  where
    differ : (m n : ℤ) → eq_ℤ m n ≡ false → m ≢ n
    differ m n q e = ground (arith, q, (eq_ℤ_iff m n).1 e)

-- Behind any dumps, in order, the file that is named for an event holds the last of the states dumped
-- for it, or what it held before if there is none: no dump for another event is written over it.
pub dumps_read_back :
    (event : ℤ) (ds : List (ℤ × State)) (files : List (Text × Dump))
    → read_file (dump_name event) (dump_states ds files)
      ≡ last_dump event ds (read_file (dump_name event) files)
unfolding dump_states last_dump dump_state
dumps_read_back event [] files = refl
dumps_read_back event ((event', s) ∷ ds) files =
    dumps_read_back event ds (dump_state event' s files)
    ∙ ap (λ d. last_dump event ds d)
        (read_file-write_file (dump_name event) (dump_name event') (dump s) files
          ∙ rw (dump_name_differs event' event) refl)
