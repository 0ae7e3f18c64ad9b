-- ===== src/Producer/Schedule.antt =====
-- The producer and the mutators under any schedule: each step is a section under the lock.
pub mod Drain
use mathlib.Core.List.{append_assoc, map-append}
use crash_simulator.Base.{
  ℕ, zero, suc, ◌≡◌, ◌<◌, refl, sym, ◌∙◌, subst, arith, true, false, Option, some, List, [], ◌∷◌,
  ◌++◌, map, length, drop, get_elem?, drop-eq_some, get_elem?-map, All, All-get_elem?, ℤ, pos,
  negsuc, pos_part, ◌≤ℤ◌, Option-cases, Bool-cases, inl, inr, ◌==◌, ==_iff, if◌then◌else◌,
}
use crash_simulator.Py.{Text, Result, ok, raised}
use crash_simulator.Syscall.{Syscall}
use crash_simulator.TraceManager.{
  Line, Entry, Package, find_entry, advance, get_next_syscall_trace_package,
}
use crash_simulator.TraceManager.Reads.{
  get_next_cases, get_next_unregistered, get_elem?-advance, All-advance, pos-suc,
}
use crash_simulator.Producer.{System, Phase, finished, produce_step}
use crash_simulator.Producer.Limits.{Inside}
use crash_simulator.Producer.Stream.{pairs, view, seen, Good, produce_step-Good}

find_entry-stored :
    (id : Text) (es : List Entry) (i : ℕ)
    → find_entry id es ≡ some i
    → (e : Entry) × (get_elem? es i ≡ some e)
unfolding find_entry
find_entry-stored id [] i h = cc
find_entry-stored id (e ∷ es) zero h = (e, refl)
find_entry-stored id (e ∷ es) (suc i) h = find_entry-stored id es i (ground arith)

-- A valid index is a position.
index_position : (size : ℕ) (e : Entry) → Inside 0 size e → (n : ℕ) × (e.index ≡ pos n)
index_position size e p = by_sign e.index p.0 refl
  where
    by_sign : (i : ℤ) → pos 0 ≤ℤ i → e.index ≡ i → (n : ℕ) × (e.index ≡ pos n)
    by_sign (pos n) h q = (n, q)
    by_sign (negsuc n) h q = absurd (omega arith)

-- A position in the list is below its length.
get_elem?-lt : (l : List Line) (n : ℕ) (x : Line) → get_elem? l n ≡ some x → n < length l
get_elem?-lt [] n x h = cc
get_elem?-lt (y ∷ l) zero x h = omega arith
get_elem?-lt (y ∷ l) (suc n) x h = omega (arith, get_elem?-lt l n x h)

-- The threads: the producer's, and those of the mutators, of which the one whose entry is at `j` is
-- watched. `delivered` are the packages that it has been given, the oldest first.
pub record World : Type 0 where
  pub system : System
  pub phase : Phase
  pub delivered : List Package

-- An exception ends the thread.
abbrev next_phase : Result Phase → Phase
next_phase (ok p) = p
next_phase (raised e) = finished

abbrev log : ℕ → Option ℕ → Result (Option Package) → List Package → List Package
log j (some i) (ok (some p)) d = if i == j then d ++ p ∷ [] else d
log j _ _ d = d

module _ (parse_line : Text → Option Syscall) (backlog_size j : ℕ) where
  unfoldable pub produces : World → World
  produces w = record w {
    system = (produce_step parse_line backlog_size w.phase w.system).1;
    phase = next_phase (produce_step parse_line backlog_size w.phase w.system).0;
  }

  -- The mutator with the id asks for a package.
  unfoldable pub reads : Text → ℕ → World → World
  reads id sniplen w = record w {
    system = record w.system {
      manager = (get_next_syscall_trace_package id sniplen w.system.manager).1;
    };
    delivered =
        log j (find_entry id w.system.manager.mutators)
          (get_next_syscall_trace_package id sniplen w.system.manager).0 w.delivered;
  }

  pub data Step : World → World → Type 0 where
    produce : (w : World) → Step w (produces w)
    read : (id : Text) (sniplen : ℕ) (w : World) → Step w (reads id sniplen w)

  pub data Reach (w : World) : World → Type 0 where
    here : Reach w w
    next : {v u : World} → Reach w v → Step v u → Reach w u

  module _ (full : List Line) where
    abbrev Fits : World → Type 0
    Fits w = Good parse_line full j 0 w.delivered w.system

    produces-Fits : (w : World) → Fits w → Fits (produces w)
    unfolding produces
    produces-Fits w g =
        produce_step-Good parse_line full j backlog_size w.phase w.delivered w.system g

    -- The package of another mutator moves that mutator's index alone.
    other-Fits :
        (w : World) (i n : ℕ) (l : Line) (e : Entry)
        → Fits w
        → (i == j) ≡ false
        → get_elem? w.system.manager.mutators i ≡ some e
        → e.index ≡ pos n
        → get_elem? w.system.manager.trace n ≡ some l
        → Good parse_line full j 0 w.delivered (record w.system {
          manager = record w.system.manager { mutators = advance i w.system.manager.mutators };
        })
    other-Fits w i n l e g ne st ix hl = record {
      aligned = g.aligned;
      inside =
          All-advance (Inside 0 (length w.system.manager.trace)) i w.system.manager.mutators e
            g.inside st
            (rw (ix, pos-suc n) (omega (arith, get_elem?-lt w.system.manager.trace n l hl)));
      entry = g.entry;
      stored = get_elem?-advance i j w.system.manager.mutators g.entry g.stored ∙ rw ne;
      stream = g.stream;
    }

    own-Fits :
        (w : World) (n : ℕ) (l : Line) (p : Package)
        → (g : Fits w) → g.entry.index ≡ pos n
        → get_elem? w.system.manager.syscall_objects n ≡ some p.syscall
        → get_elem? w.system.manager.trace n ≡ some l
        → p.event ≡ l.event_line
        → Good parse_line full j 0 (w.delivered ++ p ∷ []) (record w.system {
          manager = record w.system.manager { mutators = advance j w.system.manager.mutators };
        })
    own-Fits w n l p g ix hc hl he = record {
      aligned = g.aligned;
      inside =
          All-advance (Inside 0 (length w.system.manager.trace)) j w.system.manager.mutators g.entry
            g.inside g.stored
            (rw (ix, pos-suc n) (omega (arith, get_elem?-lt w.system.manager.trace n l hl)));
      entry = record g.entry { index = pos (suc n) };
      stored =
          get_elem?-advance j j w.system.manager.mutators g.entry g.stored
          ∙ ground (arith, pos-suc n);
      stream =
          rw (map-append, append_assoc, same_view)
            (subst
              (λ ls.
                map (seen parse_line) w.delivered
                  ++ map (view parse_line) (ls ++ pairs w.system.rest)
                ≡ map (view parse_line) full)
              at_n g.stream);
    }
      where
        at_n :
            drop (pos_part g.entry.index) w.system.manager.trace
            ≡ l ∷ drop (suc n) w.system.manager.trace
        at_n = rw ix (drop-eq_some n w.system.manager.trace l hl)

        call : p.syscall ≡ parse_line l.trace_line
        call = cc (
          g.aligned,
          get_elem?-map (λ (x : Line). parse_line x.trace_line) w.system.manager.trace n hl,
        )

        same_view : ◌≡◌ {A = Text × Option Syscall} (seen parse_line p) (view parse_line l)
        same_view = λ i. (he i, call i)

    -- A package for the mutator at `i` keeps the fit, whether or not it is the watched one.
    given-Fits :
        (w : World) (i n : ℕ) (e : Entry) (l : Line) (p : Package)
        → Fits w
        → get_elem? w.system.manager.mutators i ≡ some e
        → e.index ≡ pos n
        → get_elem? w.system.manager.syscall_objects n ≡ some p.syscall
        → get_elem? w.system.manager.trace n ≡ some l
        → p.event ≡ l.event_line
        → Good parse_line full j 0 (log j (some i) (ok (some p)) w.delivered) (record w.system {
          manager = record w.system.manager { mutators = advance i w.system.manager.mutators };
        })
    given-Fits w i n e l p g st ix hc hl he = elim (Bool-cases (i == j)) [
      | inr ne ↦ rw ne (other-Fits w i n l e g ne st ix hl)
      | inl same_place ↦
          let at_j : i ≡ j = (==_iff i j).0 same_place in
          rw same_place (
            subst
              (λ k. Good parse_line full j 0 (w.delivered ++ p ∷ []) (record w.system {
                manager = record w.system.manager {
                  mutators = advance k w.system.manager.mutators;
                };
              }))
              (sym at_j) (own-Fits w n l p g (own_index at_j) hc hl he))
    ]
      where
        own_index : i ≡ j → g.entry.index ≡ pos n
        own_index q = ground (arith, g.stored)

    reads-Fits : (id : Text) (sniplen : ℕ) (w : World) → Fits w → Fits (reads id sniplen w)
    unfolding reads
    reads-Fits id sniplen w g = elim (Option-cases (find_entry id w.system.manager.mutators)) [
      | inl e ↦ rw (get_next_unregistered w.system.manager id sniplen e, e) g
      | inr (i, found) ↦ registered i found
    ]
      where
        registered :
            (i : ℕ) → find_entry id w.system.manager.mutators ≡ some i → Fits (reads id sniplen w)
        registered i found =
            let (e, st) = find_entry-stored id w.system.manager.mutators i found in
            let (n, ix) = index_position (length w.system.manager.trace) e (
              All-get_elem? (Inside 0 (length w.system.manager.trace)) w.system.manager.mutators i
                g.inside st) in
            elim (get_next_cases w.system.manager id sniplen i n
              (record { entry = e; found = found; stored = st; index = ix })) [
                | inl waits ↦ rw (waits, found) g
                | inr (p, l, hc, hl, he, gives) ↦
                    rw (gives, found) (given-Fits w i n e l p g st ix hc hl he)
              ]

    Step-Fits : {v u : World} → Step v u → Fits v → Fits u
    Step-Fits (produce w) g = produces-Fits w g
    Step-Fits (read id sniplen w) g = reads-Fits id sniplen w g

    Reach-Fits : {w u : World} → Reach w u → Fits w → Fits u
    Reach-Fits here g = g
    Reach-Fits (next r s) g = Step-Fits s (Reach-Fits r g)

  -- The mutators are registered, and nothing of the file is read.
  unfoldable pub start : Phase → List Entry → List Text → World
  start phase es lines = record {
    system = record {
      manager = record { producer_running = true; syscall_objects = []; trace = []; mutators = es };
      rest = lines;
    };
    phase = phase;
    delivered = [];
  }

  start-Inside : (es : List Entry) → All (λ e. e.index ≡ pos 0) es → All (Inside 0 0) es
  start-Inside [] a = tt
  start-Inside (e ∷ es) a = (rw a.0 (omega arith), start-Inside es a.1)

  reached-Fits :
      (phase : Phase) (es : List Entry) (lines : List Text) {e : Entry} {u : World}
      → All (λ x. x.index ≡ pos 0) es
      → get_elem? es j ≡ some e
      → Reach (start phase es lines) u
      → Fits (pairs lines) u
  unfolding start
  reached-Fits phase es lines {e} zeros st r = Reach-Fits (pairs lines) r (record {
    aligned = refl;
    inside = start-Inside es zeros;
    entry = e;
    stored = st;
    stream = rw (All-get_elem? (λ x. x.index ≡ pos 0) es j zeros st);
  })

  -- From a start at which every registered index is 0, under any schedule of the producer and the
  -- mutators, the packages given to the watched mutator are, in order, with no call left out and none
  -- given twice, the first event lines and parsed calls of the file.
  pub delivered_in_order :
      (phase : Phase) (es : List Entry) (lines : List Text) {e : Entry} {u : World}
      → All (λ x. x.index ≡ pos 0) es
      → get_elem? es j ≡ some e
      → Reach (start phase es lines) u
      → (later : List (Text × Option Syscall)) × (map (seen parse_line) u.delivered ++ later
          ≡ map (view parse_line) (pairs lines))
  delivered_in_order phase es lines zeros st r =
      (_, (reached-Fits phase es lines zeros st r).stream)
