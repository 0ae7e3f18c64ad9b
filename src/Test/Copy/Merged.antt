-- ===== src/Test/Copy/Merged.antt =====
-- What rr_copy of src/rrtest.py makes of a directory
use crash_simulator.Base.{
  ◌≡◌, refl, sym, ap, ◌∙◌, subst, false, Option, none, some, Bool-cases, inl, inr, arith,
  if◌then◌else◌,
}
use crash_simulator.Py.{Text, same, same_iff, ok}
use crash_simulator.Test.Copy.{
  Tree, Entries, file, dir, end, entry, at_name, put_name, copy_item, copy_items, copied_dir,
  copy_dir, copy_file, rr_copy,
}

at_name-put_name :
    (n m : Text) (t : Tree) (d : Entries)
    → at_name m (put_name n t d) ≡ (if same n m then some t else at_name m d)
unfolding at_name put_name
at_name-put_name n m t end = refl
at_name-put_name n m t (entry k u d) = elim (Bool-cases (same k n)) [
  | inl q ↦ rw (q, (same_iff k n).0 q) (ground arith)
  | inr q ↦
      rw (q, at_name-put_name n m t d) (ground (arith, q, same_iff k n, same_iff k m, same_iff n m))
]

-- A directory is copied where there is nothing, and a file where there is no directory.
abbrev Free : Tree → Option Tree → Type 0
Free (dir es) none = Unit {0}
Free (dir es) (some u) = ⊥
Free (file t) none = Unit {0}
Free (file t) (some (file u)) = Unit {0}
Free (file t) (some (dir e)) = ⊥

-- The items have names of their own, and room in the destination.
unfoldable pub Room : Entries → Entries → Type 0
unfolding at_name
Room end d = Unit {0}
Room (entry n t es) d = Free t (at_name n d) × (at_name n es ≡ none) × Room es d

abbrev pub or_old : Option Tree → Option Tree → Option Tree
or_old (some t) o = some t
or_old none o = o

same_sym : (n m : Text) → same m n ≡ false → same n m ≡ false
same_sym n m h = ground (arith, h, same_iff n m, same_iff m n)

other_item :
    (n m : Text) (u : Tree) (es : Entries)
    → at_name n (entry m u es) ≡ none
    → (same n m ≡ false) × (at_name n es ≡ none)
unfolding at_name
other_item n m u es h = elim (Bool-cases (same m n)) [
  | inl q ↦ absurd (ground (arith, h, q))
  | inr q ↦ (same_sym n m q, ground (arith, h, q))
]

Room-put_name :
    (n : Text) (t : Tree) (es d : Entries)
    → at_name n es ≡ none
    → Room es d
    → Room es (put_name n t d)
unfolding Room
Room-put_name n t end d h r = tt
Room-put_name n t (entry m u es) d h r =
    let (ne, rest) = other_item n m u es h in
    let kept : at_name m (put_name n t d) ≡ at_name m d = at_name-put_name n m t d ∙ rw ne refl in
    (subst (λ o. Free u o) (sym kept) r.0, r.1, Room-put_name n t es d rest r.2)

Free-dir :
    (n : Text) (es d : Entries) (o : Option Tree)
    → Free (dir es) o
    → copy_dir n es o d ≡ (none, some (dir (put_name n (dir es) d)))
Free-dir n es d none f = refl
Free-dir n es d (some u) f = absurd f

Free-file :
    (n t : Text) (d : Entries) (o : Option Tree)
    → Free (file t) o
    → copy_file n t o d ≡ (none, some (dir (put_name n (file t) d)))
Free-file n t d none f = refl
Free-file n t d (some (file u)) f = refl
Free-file n t d (some (dir e)) f = absurd f

copy_item-Free :
    (n : Text) (t : Tree) (d : Entries)
    → Free t (at_name n d)
    → copy_item n t (some (dir d)) ≡ (none, some (dir (put_name n t d)))
unfolding copy_item
copy_item-Free n (dir es) d f = Free-dir n es d (at_name n d) f
copy_item-Free n (file t) d f = Free-file n t d (at_name n d) f

-- The items of `es` are in the directory, beside what was there under other names.
abbrev pub Merged : Entries → Entries → Entries → Type 0
Merged es d d' = (m : Text) → at_name m d' ≡ or_old (at_name m es) (at_name m d)

Merged-entry :
    (n : Text) (t : Tree) (es d d' : Entries)
    → at_name n es ≡ none
    → Merged es (put_name n t d) d'
    → Merged (entry n t es) d d'
unfolding at_name
Merged-entry n t es d d' h f m = elim (Bool-cases (same n m)) [
  | inl q ↦
      let e : at_name m es ≡ none =
        subst (λ (k : Text). at_name k es ≡ none) ((same_iff n m).0 q) h in
      f m ∙ rw (e, at_name-put_name n m t d, q) refl
  | inr q ↦ f m ∙ rw (at_name-put_name n m t d, q) refl
]

next_item :
    (n : Text) (t : Tree) (es : Entries) (dest dest' : Option Tree)
    → copy_item n t dest ≡ (none, dest')
    → copy_items (entry n t es) dest ≡ copy_items es dest'
unfolding copy_items
next_item n t es dest dest' h = ground (arith, ap (λ x. x.0) h, ap (λ x. copy_items es x.1) h)

copy_items-Room :
    (es d : Entries)
    → Room es d
    → (d' : Entries) × (copy_items es (some (dir d)) ≡ (none, some (dir d'))) × Merged es d d'
unfolding copy_items Room
copy_items-Room end d r = (d, refl, λ m. unfold at_name in refl)
copy_items-Room (entry n t es) d r =
    let (d', e, f) = copy_items-Room es (put_name n t d) (Room-put_name n t es d r.1 r.2) in
    (
      d',
      next_item n t es (some (dir d)) (some (dir (put_name n t d))) (copy_item-Free n t d r.0) ∙ e,
      Merged-entry n t es d d' r.1 f,
    )

-- A directory whose items have names of their own, into a directory that has nothing under the names
-- of its directories and no directory under those of its files: rr_copy raises nothing, and behind it
-- the destination has each item of the source, the files of which replace those that were there, and
-- under every other name what it had before.
pub rr_copy_merges :
    (n : Text) (es d : Entries)
    → Room es d
    → (d' : Entries) × (rr_copy n (some (dir es)) (some (dir d)) ≡ (ok tt, some (dir d')))
      × ((m : Text) → at_name m d' ≡ or_old (at_name m es) (at_name m d))
unfolding rr_copy
rr_copy_merges n es d r =
    let (d', e, f) = copy_items-Room es d r in (d', ap (λ c. copied_dir c) e, f)
