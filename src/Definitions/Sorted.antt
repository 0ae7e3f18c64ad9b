-- ===== src/Definitions/Sorted.antt =====
-- src/parse_syscall_definitions.py: the statistics of print_definitions
use mathlib.Core.List.{append_assoc, append-nil}
use crash_simulator.Base.{
  ◌≡◌, refl, ◌+◌, Bool, not, ◌&&◌, List, [], ◌∷◌, ◌++◌, arith, ◌==◌, length, Bool-cases, inl, inr,
  if◌then◌else◌,
}
use crash_simulator.Py.{Text}
use crash_simulator.Definitions.{ManualClass, Lists, print_missing, sort_names}

module _ {M : Type 0} (c : ManualClass M) where
  abbrev pub is_found : M → Bool
  is_found sd = c.type_of sd == c.found

  abbrev pub has_no_man : M → Bool
  has_no_man sd = not (c.type_of sd == c.found) && c.type_of sd == c.no_man_entry

  abbrev pub is_absent : M → Bool
  is_absent sd =
      not (c.type_of sd == c.found)
      && not (c.type_of sd == c.no_man_entry)
      && c.type_of sd == c.not_found

  abbrev pub is_unimplemented : M → Bool
  is_unimplemented sd =
      not (c.type_of sd == c.found)
      && not (c.type_of sd == c.no_man_entry)
      && not (c.type_of sd == c.not_found)

  -- The names of those that pass a test, in order.
  pub names_where : (M → Bool) → List M → List Text
  names_where p [] = []
  names_where p (sd ∷ sds) =
      let rest = names_where p sds in if p sd then c.name_of sd ∷ rest else rest

  sort_names-eq_where :
      (sds : List M) (l : Lists)
      → (sort_names c sds l).0 ≡ record {
        found = l.found ++ names_where is_found sds;
        no_man = l.no_man ++ names_where has_no_man sds;
        not_found = l.not_found ++ names_where is_absent sds;
        unimplemented = l.unimplemented ++ names_where is_unimplemented sds;
      }
  unfolding sort_names names_where
  sort_names-eq_where [] l =
      rw
        (
          append-nil l.found,
          append-nil l.no_man,
          append-nil l.not_found,
          append-nil l.unimplemented,
        )
        refl
  sort_names-eq_where (sd ∷ sds) l = elim (Bool-cases (c.type_of sd == c.found)) [
    | inl f ↦ rw (f, sort_names-eq_where sds, append_assoc) refl
    | inr f ↦ elim (Bool-cases (c.type_of sd == c.no_man_entry)) [
      | inl n ↦ rw (f, n, sort_names-eq_where sds, append_assoc) refl
      | inr n ↦ elim (Bool-cases (c.type_of sd == c.not_found)) [
        | inl a ↦ rw (f, n, a, sort_names-eq_where sds, append_assoc) refl
        | inr a ↦ rw (f, n, a, sort_names-eq_where sds, append_assoc) refl
      ]
    ]
  ]

  counts_add_up :
      (sds : List M)
      → length (names_where is_found sds)
          + length (names_where has_no_man sds)
          + length (names_where is_absent sds)
          + length (names_where is_unimplemented sds)
        ≡ length sds
  unfolding names_where
  counts_add_up [] = refl
  counts_add_up (sd ∷ sds) = ground (arith, counts_add_up sds)

  missing_and_found :
      (sds : List M) → length (print_missing c sds) + length (names_where is_found sds) ≡ length sds
  unfolding print_missing names_where
  missing_and_found [] = refl
  missing_and_found (sd ∷ sds) = ground (arith, missing_and_found sds)

  -- The four lists of print_definitions hold the names of the definitions of each type, in their order;
  -- the four numbers that it prints add up to the number of the definitions; and its first view names
  -- those that are in none but the first list.
  pub sort_names_complete :
      (sds : List M)
      → (let l =
            (sort_names c sds
              (record { found = []; no_man = []; not_found = []; unimplemented = [] })).0 in
          (l.found ≡ names_where is_found sds)
          × (l.no_man ≡ names_where has_no_man sds)
          × (l.not_found ≡ names_where is_absent sds)
          × (l.unimplemented ≡ names_where is_unimplemented sds)
          × (length l.found + length l.no_man + length l.not_found + length l.unimplemented
              ≡ length sds)
          × (length (print_missing c sds) + length l.found ≡ length sds))
  sort_names_complete sds =
      rw
        (sort_names-eq_where sds
          (record { found = []; no_man = []; not_found = []; unimplemented = [] }))
        (refl, refl, refl, refl, counts_add_up sds, missing_and_found sds)
