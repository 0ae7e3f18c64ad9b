-- ===== src/Test/Create/Trimmed.antt =====
-- src/rrtest.py: what create_test leaves in the directory of a test
use mathlib.Core.List.{append_assoc}
use crash_simulator.Base.{
  ◌≡◌, refl, sym, ℕ, zero, suc, ◌-◌, Bool, true, false, not, ◌&&◌, ◌||◌, some, List, [], ◌∷◌, ◌++◌,
  ℤ, pos, eq_ℤ, take, length, leb, length-append, length-take, take_front, arith, inl, inr,
}
use crash_simulator.Py.{Text, text, Result, ok, raised, then_try, Result-cases}
use crash_simulator.Test.Ini.{Ini, add_section, set, get}
use crash_simulator.Test.Opportunities.Readback.{recorded}
use crash_simulator.Test.Create.{
  Store, cut_newline, trim, first_config, listing, copy_trace, create_test,
}

cut_newline_last :
    (body : List Text) (last : Text)
    → cut_newline (body ++ last ∷ []) ≡ ok (body ++ take (length last - 1) last ∷ [])
unfolding cut_newline
cut_newline_last [] last = refl
cut_newline_last (l ∷ []) last = refl
cut_newline_last (l ∷ m ∷ body) last = rw (cut_newline_last (m ∷ body) last) refl

trim_lem :
    (body : List Text) (last exit counter : Text)
    → trim (body ++ (last ++ 10 ∷ []) ∷ exit ∷ counter ∷ []) ≡ ok (body ++ last ∷ [])
unfolding trim
trim_lem body last exit counter =
    rw
      (
        sym (append_assoc body ((last ++ 10 ∷ []) ∷ []) (exit ∷ counter ∷ [])),
        take_front (length ((body ++ (last ++ 10 ∷ []) ∷ []) ++ exit ∷ counter ∷ []) - 2)
            (body ++ (last ++ 10 ∷ []) ∷ []) (exit ∷ counter ∷ [])
            (omega (arith, length-append (body ++ (last ++ 10 ∷ []) ∷ []) (exit ∷ counter ∷ []))),
        cut_newline_last body (last ++ 10 ∷ []),
        take_front (length (last ++ 10 ∷ []) - 1) last (10 ∷ [])
            (omega (arith, length-append last (10 ∷ []))),
      )
      refl

abbrev is_ok : {A : Type 0} → Result A → Bool
is_ok (ok a) = true
is_ok (raised e) = false

cut_newline-is_ok : (lines : List Text) → is_ok (cut_newline lines) ≡ leb 1 (length lines)
unfolding cut_newline
cut_newline-is_ok [] = refl
cut_newline-is_ok (l ∷ []) = refl
cut_newline-is_ok (l ∷ m ∷ ls) = ground (arith, cut_newline-is_ok (m ∷ ls))

trim-is_ok : (lines : List Text) → is_ok (trim lines) ≡ leb 3 (length lines)
unfolding trim
trim-is_ok lines =
    ground (
      arith,
      cut_newline-is_ok (take (length lines - 2) lines),
      length-take (length lines - 2) lines,
    )

-- create_test returns 1.
abbrev pub is_created : Result (ℕ × List Text) → Bool
is_created (ok (suc zero, l)) = true
is_created r = false

pub first_config_lem :
    (test_dir : Text)
    → (first_config test_dir ≡ ok (recorded test_dir))
      × (get (text "rr_recording") (text "rr_dir") (recorded test_dir) ≡ ok test_dir)
unfolding first_config get add_section set text crash_simulator.Py.same recorded
first_config_lem test_dir = (refl, refl)

-- A test is created exactly if there is none, or it may be overwritten, rr ends with status 0 and its
-- trace has three lines at least.
pub created_iff :
    (test_dir : Text) (force : Bool) (status : ℤ) (recorded : List Text) (s : Store)
    → is_created (create_test test_dir force status recorded s).0
      ≡ ((not s.is_there || force) && eq_ℤ status (pos 0) && leb 3 (length recorded))
unfolding create_test
created_iff test_dir force status recorded s =
    let (written, read) = first_config_lem test_dir in
    elim (Result-cases (trim recorded)) [
      | inl (e, q) ↦ ground (arith, trim-is_ok recorded, q)
      | inr (l, q) ↦ ground (arith, trim-is_ok recorded, q, written)
    ]

pub create_test_state :
    (test_dir : Text) (force : Bool) (body : List Text) (last exit counter : Text) (s : Store)
    → not s.is_there || force ≡ true
    → create_test test_dir force (pos 0) (body ++ (last ++ 10 ∷ []) ∷ exit ∷ counter ∷ []) s ≡ (
      ok (1, listing 0 (body ++ last ∷ [])),
      record {
        is_there = true;
        trace = some (body ++ last ∷ []);
        saved = some (recorded test_dir);
      },
    )
unfolding create_test copy_trace eq_ℤ
create_test_state test_dir force body last exit counter s h =
    let free : s.is_there && not force ≡ false = ground (arith, h) in
    rw (free, trim_lem body last exit counter, (first_config_lem test_dir).0) refl

-- Of a recorded trace whose last two lines are the exit call and its counter, everything before is
-- left, without the newline at its end; and config.ini names the directory of the test.
pub created_leaves :
    (test_dir : Text) (force : Bool) (body : List Text) (last exit counter : Text) (s : Store)
    → not s.is_there || force ≡ true
    → (let after =
          (create_test test_dir force
            (pos 0)
            (body ++ (last ++ 10 ∷ []) ∷ exit ∷ counter ∷ [])
            s).1 in
        (after.is_there ≡ true)
        × (after.trace ≡ some (body ++ last ∷ []))
        × ((ini : Ini) × (after.saved ≡ some ini)
            × (get (text "rr_recording") (text "rr_dir") ini ≡ ok test_dir)))
created_leaves test_dir force body last exit counter s h =
    rw (create_test_state test_dir force body last exit counter s h)
      (refl, refl, (recorded test_dir, refl, (first_config_lem test_dir).1))
