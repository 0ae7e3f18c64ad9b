-- ===== src/Test/Opportunities/Readback.antt =====
-- The file config.ini that src/identify_opportunities.py writes, as src/rreplay.py reads it.
use mathlib.Core.List.{append_assoc, append-nil}
use crash_simulator.Base.{
  ◌≡◌, ◌≢◌, refl, ℕ, suc, ◌≤◌, true, false, none, some, List, [], ◌∷◌, ◌++◌, map, All, arith, ℤ,
  pos,
}
use crash_simulator.Py.{Text, text, same, str, int, show_ℕ, show_int, Result, ok, raised}
use crash_simulator.Py.Decimal.{parse_int-show_int, numbered_differ}
use crash_simulator.Mutator.Identify.{Opportunity}
use crash_simulator.Replay.Config.{
  Subject, subject_of, subjects_of, sort_by_event, keyed, sort_keyed, configuration_of,
  get_configuration,
}
use crash_simulator.Replay.Config.Laws.{SortedByEvent, sort_by_event_lem}
use crash_simulator.Py.ConfigParser.{get, stored}
use crash_simulator.Py.ConfigParser.Plain.{
  is_plain, is_plain-append, is_plain-show_ℕ, is_plain-show_int, get-plain, stored-plain,
  get-missing,
}
use crash_simulator.Test.Ini.{Part, Ini, option, put_option, as_section, read}
use crash_simulator.Test.Ini.Laws.{Lacks, add_section-new, put_options, set_all-last}
use crash_simulator.Test.Snip.{event_number, write_lines}
use crash_simulator.Test.Opportunities.{
  Setup, section_name, snip_name, first_options, last_options, add_opportunity, add_opportunities,
}
use mathlib.Core.List.{Perm}

abbrev pub number : Result ℤ → ℤ
number (ok n) = n
number (raised e) = pos 0

-- The rr event of an opportunity, and that its event line holds one.
abbrev pub event_of : Opportunity → ℤ
event_of o = number (event_number o.found.event)

abbrev pub HasEvent : Opportunity → Type 0
HasEvent o = event_number o.found.event ≡ ok (event_of o)

-- The mutator of an opportunity has a name that is read back as it is written.
abbrev pub IsPlain : Opportunity → Type 0
IsPlain o = is_plain o.mutator_name ≡ true

module _ (test_dir pid : Text) (sniplen : ℕ) where
  abbrev options_of : ℕ → Opportunity → List (Text × Text)
  options_of n o =
      put_options
        (last_options (snip_name test_dir n) (event_of o) pid
          (write_lines sniplen 0 1 o.found.trace).1)
        (put_options (first_options test_dir ++ (text "mutator", o.mutator_name ++ text "()") ∷ [])
          [])

  abbrev part_of : ℕ → Opportunity → Part
  part_of n o = record { name = section_name n; options = options_of n o }

  abbrev snip_of : ℕ → Opportunity → Text × List Text
  snip_of n o = (snip_name test_dir n, (write_lines sniplen 0 1 o.found.trace).0)

  add_opportunity-new :
      (n : ℕ) (o : Opportunity) (s : Setup)
      → Lacks (section_name n) s.ini
      → HasEvent o
      → add_opportunity test_dir pid sniplen n o s ≡ (
        ok tt,
        record {
          ini = s.ini ++ part_of n o ∷ [];
          saved = s.ini ++ part_of n o ∷ [];
          snips = s.snips ++ snip_of n o ∷ [];
        },
      )
  unfolding add_opportunity
  add_opportunity-new n o s a e =
      rw
        (
          add_section-new (section_name n) s.ini a,
          set_all-last (section_name n)
              (first_options test_dir ++ (text "mutator", o.mutator_name ++ text "()") ∷ []) []
              s.ini a,
          e,
          set_all-last (section_name n)
              (last_options (snip_name test_dir n) (event_of o) pid
                (write_lines sniplen 0 1 o.found.trace).1)
              (put_options
                (first_options test_dir ++ (text "mutator", o.mutator_name ++ text "()") ∷ []) [])
              s.ini a,
        )
        refl

  unfoldable parts : ℕ → List Opportunity → Ini
  parts n [] = []
  parts n (o ∷ os) = part_of n o ∷ parts (suc n) os

  unfoldable snips_of : ℕ → List Opportunity → List (Text × List Text)
  snips_of n [] = []
  snips_of n (o ∷ os) = snip_of n o ∷ snips_of (suc n) os

  -- No section has a name that the loop is still going to use.
  abbrev Fresh : ℕ → Ini → Type 0
  Fresh n ini = (m : ℕ) → n ≤ m → Lacks (section_name m) ini

  Lacks-snoc :
      (name : Text) (ini : Ini) (p : Part)
      → Lacks name ini
      → same name p.name ≡ false
      → Lacks name (ini ++ p ∷ [])
  Lacks-snoc name [] p a h = (h, tt)
  Lacks-snoc name (q ∷ ini) p a h = (a.0, Lacks-snoc name ini p a.1 h)

  Fresh-snoc :
      (n : ℕ) (o : Opportunity) (ini : Ini) → Fresh n ini → Fresh (suc n) (ini ++ part_of n o ∷ [])
  Fresh-snoc n o ini f m h =
      Lacks-snoc (section_name m) ini (part_of n o) (f m (omega (arith, h))) (
        unfold section_name in
        numbered_differ (text "request_handling_process") m n (later_differs m n h))
    where
      later_differs : (i j : ℕ) → suc j ≤ i → i ≢ j
      later_differs i j l q = omega arith

  add_opportunities-new :
      (n : ℕ) (os : List Opportunity) (s : Setup)
      → Fresh n s.ini
      → All HasEvent os
      → s.saved ≡ s.ini
      → add_opportunities test_dir pid sniplen n os s ≡ (
        ok tt,
        record {
          ini = s.ini ++ parts n os;
          saved = s.ini ++ parts n os;
          snips = s.snips ++ snips_of n os;
        },
      )
  unfolding add_opportunities parts snips_of
  add_opportunities-new n [] s f a e = rw (append-nil s.ini, append-nil s.snips, ← e) refl
  add_opportunities-new n (o ∷ os) s f a e =
      rw
        (
          add_opportunity-new n o s (f n (omega arith)) a.0,
          add_opportunities-new (suc n) os
              (record {
                ini = s.ini ++ part_of n o ∷ [];
                saved = s.ini ++ part_of n o ∷ [];
                snips = s.snips ++ snip_of n o ∷ [];
              })
              (Fresh-snoc n o s.ini f) a.1 refl,
          append_assoc s.ini (part_of n o ∷ []) (parts (suc n) os),
          append_assoc s.snips (snip_of n o ∷ []) (snips_of (suc n) os),
        )
        refl

  -- The subject of a section.
  unfoldable pub subject_for : ℕ → Opportunity → Subject
  subject_for n o = record {
    event = show_int (event_of o);
    rec_pid = pid;
    trace_file = snip_name test_dir n;
    trace_start = text "0";
    trace_end = show_ℕ (write_lines sniplen 0 1 o.found.trace).1;
    mutator = o.mutator_name ++ text "()";
    injected_state_file =
        show_int (event_of o) ++ text "_" ++ (o.mutator_name ++ text "()") ++ text "_state.json";
    other_procs = [];
    mmap_backing_files = none;
    checker = none;
    handle = none;
  }

  unfoldable pub subjects_for : ℕ → List Opportunity → List Subject
  subjects_for n [] = []
  subjects_for n (o ∷ os) = subject_for n o ∷ subjects_for (suc n) os

  pub snip_name-plain : (n : ℕ) → is_plain test_dir ≡ true → is_plain (snip_name test_dir n) ≡ true
  unfolding snip_name is_plain text
  snip_name-plain n h =
      is_plain-append (test_dir ++ text "trace_snip" ++ show_ℕ n) (text ".strace")
        (is_plain-append (test_dir ++ text "trace_snip") (show_ℕ n)
          (is_plain-append test_dir (text "trace_snip") h refl) (is_plain-show_ℕ n))
        refl

  -- The options of the section of an opportunity, as they are read.
  reads :
      (n : ℕ) (o : Opportunity)
      → let i = as_section (part_of n o) in
        (i (text "event") ≡ some (stored (show_int (event_of o))))
        × (i (text "pid") ≡ some (stored pid))
        × (i (text "trace_file") ≡ some (stored (snip_name test_dir n)))
        × (i (text "trace_start") ≡ some (stored (text "0")))
        × (i (text "trace_end") ≡ some (stored (show_ℕ (write_lines sniplen 0 1 o.found.trace).1)))
        × (i (text "mutator") ≡ some (stored (o.mutator_name ++ text "()")))
        × (i (text "mmap_backing_files") ≡ none)
        × (i (text "checker") ≡ none)
  unfolding as_section first_options last_options put_options put_option option same text
  reads n o = (refl, refl, refl, refl, refl, refl, refl, refl)

  subject_of-part :
      (n : ℕ) (o : Opportunity)
      → is_plain test_dir ≡ true
      → is_plain pid ≡ true
      → IsPlain o
      → subject_of (as_section (part_of n o)) ≡ ok (subject_for n o)
  unfolding subject_of subject_for is_plain text
  subject_of-part n o d p m =
      let i = as_section (part_of n o) in
      let (event, number, file, start, end, name, backing, checker) = reads n o in
      rw
        (
          get-plain i (text "event") (show_int (event_of o)) event (is_plain-show_int (event_of o)),
          get-plain i (text "pid") pid number p,
          get-plain i (text "trace_file") (snip_name test_dir n) file (snip_name-plain n d),
          get-plain i (text "trace_start") (text "0") start refl,
          get-plain i (text "trace_end") (show_ℕ (write_lines sniplen 0 1 o.found.trace).1) end
              (is_plain-show_ℕ (write_lines sniplen 0 1 o.found.trace).1),
          get-plain i (text "mutator") (o.mutator_name ++ text "()") name
              (is_plain-append o.mutator_name (text "()") m refl),
          get-missing i (text "mmap_backing_files") backing,
          get-missing i (text "checker") checker,
        )
        refl

  subjects_of-parts :
      (n : ℕ) (os : List Opportunity)
      → is_plain test_dir ≡ true
      → is_plain pid ≡ true
      → All IsPlain os
      → subjects_of (map as_section (parts n os)) ≡ ok (subjects_for n os)
  unfolding subjects_of parts subjects_for
  subjects_of-parts n [] d p a = refl
  subjects_of-parts n (o ∷ os) d p a =
      rw (subject_of-part n o d p a.0, subjects_of-parts (suc n) os d p a.1) refl

pub int-show_int : (n : ℤ) → int (str (show_int n)) ≡ ok n
unfolding int
int-show_int n = rw (parse_int-show_int n) refl

-- The event of the subject is a number.
abbrev Numbered : Subject → Type 0
Numbered s = (n : ℤ) × (int (str s.event) ≡ ok n)

keyed_total : (l : List Subject) → All Numbered l → (k : List (ℤ × Subject)) × (keyed l ≡ ok k)
unfolding keyed
keyed_total [] a = ([], refl)
keyed_total (s ∷ l) a = let (k, e) = keyed_total l a.1 in ((a.0.0, s) ∷ k, rw (a.0.1, e) refl)

sort_total : (l : List Subject) → All Numbered l → (m : List Subject) × (sort_by_event l ≡ ok m)
unfolding sort_by_event
sort_total l a = let (k, e) = keyed_total l a in (map (λ x. x.1) (sort_keyed k), rw e refl)

subjects-Numbered :
    (test_dir pid : Text) (sniplen n : ℕ) (os : List Opportunity)
    → All Numbered (subjects_for test_dir pid sniplen n os)
unfolding subjects_for subject_for
subjects-Numbered test_dir pid sniplen n [] = tt
subjects-Numbered test_dir pid sniplen n (o ∷ os) =
    ((event_of o, int-show_int (event_of o)), subjects-Numbered test_dir pid sniplen (suc n) os)

-- The file config.ini that create_test leaves.
abbrev pub first_part : Text → Part
unfolding text
first_part rr_dir = record { name = text "rr_recording"; options = (text "rr_dir", rr_dir) ∷ [] }

unfoldable pub recorded : Text → Ini
recorded rr_dir = first_part rr_dir ∷ []

pub recorded-Fresh : (rr_dir : Text) (m : ℕ) → Lacks (section_name m) (recorded rr_dir)
unfolding recorded section_name same text
recorded-Fresh rr_dir m = (refl, tt)

-- The first section of that file, as it is read.
pub get-recorded :
    (rr_dir : Text)
    → is_plain rr_dir ≡ true
    → get (as_section (first_part rr_dir)) (text "rr_dir") ≡ ok rr_dir
get-recorded rr_dir h =
    get-plain (as_section (first_part rr_dir)) (text "rr_dir") rr_dir
      (unfold as_section option same text in refl) h

-- The file that create_test leaves is read as it is written.
pub read-recorded :
    (rr_dir : Text) → is_plain rr_dir ≡ true → read (recorded rr_dir) ≡ recorded rr_dir
unfolding read recorded
read-recorded rr_dir h = rw (stored-plain rr_dir h) refl

configuration_of-parts :
    (test_dir pid : Text) (sniplen : ℕ) (rr_dir : Text) (o : Opportunity) (os : List Opportunity)
    (m : List Subject)
    → is_plain rr_dir ≡ true
    → is_plain test_dir ≡ true
    → is_plain pid ≡ true
    → All IsPlain (o ∷ os)
    → sort_by_event (subjects_for test_dir pid sniplen 0 (o ∷ os)) ≡ ok m
    → get_configuration
        (some (map as_section (recorded rr_dir ++ parts test_dir pid sniplen 0 (o ∷ os))))
      ≡ ok (rr_dir, m)
unfolding get_configuration recorded parts
configuration_of-parts test_dir pid sniplen rr_dir o os m r d p a e =
    rw
      (
        configuration_of,
        get-recorded rr_dir r,
        subjects_of-parts test_dir pid sniplen 0 (o ∷ os) d p a,
        e,
      )
      refl

pub configuration_read_back :
    (test_dir pid : Text) (sniplen : ℕ) (rr_dir : Text) (snips : List (Text × List Text))
    (o : Opportunity) (os : List Opportunity)
    → All HasEvent (o ∷ os)
    → is_plain rr_dir ≡ true
    → is_plain test_dir ≡ true
    → is_plain pid ≡ true
    → All IsPlain (o ∷ os)
    → (let (r, s) =
          add_opportunities test_dir pid sniplen 0
            (o ∷ os)
            (record { ini = recorded rr_dir; saved = recorded rr_dir; snips = snips }) in
        (r ≡ ok tt)
        × ((m : List Subject) × (get_configuration (some (map as_section s.saved)) ≡ ok (rr_dir, m))
            × SortedByEvent m
            × Perm m (subjects_for test_dir pid sniplen 0 (o ∷ os))))
configuration_read_back test_dir pid sniplen rr_dir snips o os a d t p n =
    let (m, e) =
      sort_total (subjects_for test_dir pid sniplen 0 (o ∷ os))
        (subjects-Numbered test_dir pid sniplen 0 (o ∷ os)) in
    let (sorted, perm) = sort_by_event_lem (subjects_for test_dir pid sniplen 0 (o ∷ os)) m e in
    rw
      (add_opportunities-new test_dir pid sniplen 0 (o ∷ os)
        (record { ini = recorded rr_dir; saved = recorded rr_dir; snips = snips })
        (λ i l. recorded-Fresh rr_dir i) a refl)
      (refl, (m, configuration_of-parts test_dir pid sniplen rr_dir o os m d t p n e, sorted, perm))
