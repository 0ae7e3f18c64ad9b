-- ===== src/Producer/Stream.antt =====
-- The order in which a mutator is given the calls of the trace.
use mathlib.Core.List.{append_assoc, map-append}
use crash_simulator.Base.{
  ℕ, zero, suc, ◌≡◌, refl, arith, Bool, true, false, Option, some, List, [], ◌∷◌, ◌++◌, map, length,
  length-append, drop, get_elem?, get_elem?-map, All, All-get_elem?, All-mono, All-map,
  drop-append_le, ℤ, pos, negsuc, pos_part, ◌-ℤ◌, -ℤ_parts, ◌≤ℤ◌, pos_part_le, if◌then◌else◌,
}
use crash_simulator.Py.{Text, Result, ok, raised}
use crash_simulator.Syscall.{Syscall}
use crash_simulator.TraceManager.{Manager, Line, Entry, Package, shift, pop_front, producer_done}
use crash_simulator.Producer.{
  System, Phase, filling, finished, backtrace_limit, fill_round, pop_rounds, window_round,
  produce_step,
}
use crash_simulator.Producer.Limits.{Inside, backtrace-Inside}

-- The lines of a file by twos.
abbrev pub pairs : List Text → List Line
pairs [] = []
pairs (e ∷ []) = []
pairs (e ∷ l ∷ rest) = record { event_line = e; trace_line = l } ∷ pairs rest

module _ (parse_line : Text → Option Syscall) where
  -- What a mutator sees of a line, and of a package.
  abbrev pub view : Line → Text × Option Syscall
  view l = (l.event_line, parse_line l.trace_line)

  abbrev pub seen : Package → Text × Option Syscall
  seen p = (p.event, p.syscall)

  module _ (full : List Line) (j : ℕ) where
    -- The window agrees with the file `full`, of which the mutator at `j` has been given `delivered`.
    pub record Good (least : ℕ) (delivered : List Package) (s : System) : Type 0 where
      pub aligned : s.manager.syscall_objects ≡ map (λ l. parse_line l.trace_line) s.manager.trace
      pub inside : All (Inside least (length s.manager.trace)) s.manager.mutators
      pub entry : Entry
      pub stored : get_elem? s.manager.mutators j ≡ some entry
      pub stream :
          map seen delivered
            ++ map view (drop (pos_part entry.index) s.manager.trace ++ pairs s.rest)
          ≡ map view full

    Good-weaken : (least : ℕ) (d : List Package) (s : System) → Good least d s → Good 0 d s
    Good-weaken least d s g = record {
      aligned = g.aligned;
      inside =
          All-mono (Inside least (length s.manager.trace)) (Inside 0 (length s.manager.trace))
            s.manager.mutators (λ e p. omega arith) g.inside;
      entry = g.entry;
      stored = g.stored;
      stream = g.stream;
    }

    index-Inside :
        (least : ℕ) (d : List Package) (s : System) (g : Good least d s)
        → Inside least (length s.manager.trace) g.entry
    index-Inside least d s g =
        All-get_elem? (Inside least (length s.manager.trace)) s.manager.mutators j g.inside g.stored

    fill_round-Good :
        (least : ℕ) (d : List Package) (m : Manager) (rest : List Text)
        → Good least d (record { manager = m; rest = rest })
        → Good least d (fill_round parse_line (record { manager = m; rest = rest })).1
    unfolding fill_round producer_done
    fill_round-Good least d m [] g = record {
      aligned = g.aligned;
      inside = g.inside;
      entry = g.entry;
      stored = g.stored;
      stream = g.stream;
    }
    fill_round-Good least d m (e ∷ []) g = record {
      aligned = g.aligned;
      inside = g.inside;
      entry = g.entry;
      stored = g.stored;
      stream = g.stream;
    }
    fill_round-Good least d m (e ∷ t ∷ rest) g =
        let l : Line = record { event_line = e; trace_line = t } in
        record {
          aligned = rw map-append (rw g.aligned);
          inside =
              All-mono _ _ m.mutators (λ x p. omega (arith, length-append m.trace (l ∷ [])))
                g.inside;
          entry = g.entry;
          stored = g.stored;
          stream =
              rw
                (
                  drop-append_le (pos_part g.entry.index) m.trace (l ∷ [])
                      (pos_part_le g.entry.index (length m.trace) (index-Inside least d _ g).1),
                  append_assoc,
                )
                g.stream;
        }

    shift-Inside :
        (least size : ℕ) (e : Entry)
        → Inside (suc least) (suc size) e
        → Inside least size (shift (pos 1) e)
    shift-Inside least size e p = omega (arith, -ℤ_parts e.index (pos 1))

    drop-shift :
        (i : ℤ) (l : Line) (ls : List Line)
        → pos 1 ≤ℤ i
        → drop (pos_part (i -ℤ pos 1)) ls ≡ drop (pos_part i) (l ∷ ls)
    unfolding ◌-ℤ◌
    drop-shift (pos zero) l ls h = absurd (omega arith)
    drop-shift (pos (suc n)) l ls h = rw (shift_pos n)
      where
        shift_pos : (k : ℕ) → pos_part (pos (suc k) -ℤ pos 1) ≡ k
        shift_pos k = ground arith
    drop-shift (negsuc n) l ls h = absurd (omega arith)

    abbrev window : Bool → List (Option Syscall) → List Line → List Entry → Manager
    window running objects trace mutators = record {
      producer_running = running;
      syscall_objects = objects;
      trace = trace;
      mutators = mutators;
    }

    -- The first element leaves the window, and every index follows.
    pop_front-Good :
        (least : ℕ) (d : List Package) (r : Bool) (os : List (Option Syscall)) (ls : List Line)
        (es : List Entry) (rest : List Text)
        → Good (suc least) d (record { manager = window r os ls es; rest = rest })
        → ((pop_front (window r os ls es)).0 ≡ ok tt)
          × Good least d (record { manager = (pop_front (window r os ls es)).1; rest = rest })
    unfolding pop_front
    pop_front-Good least d r (o ∷ os) (l ∷ ls) es rest g = (
      refl,
      record {
        aligned = ground (arith, g.aligned);
        inside =
            All-map _ _ (shift (pos 1)) es (λ e p. shift-Inside least (length ls) e p) g.inside;
        entry = shift (pos 1) g.entry;
        stored = get_elem?-map (shift (pos 1)) es j g.stored;
        stream =
            rw (drop-shift g.entry.index l ls (omega (arith, index-Inside (suc least) d _ g)))
              g.stream;
      },
    )
    pop_front-Good least d r [] (l ∷ ls) es rest g = cc (g.aligned)
    pop_front-Good least d r os [] es rest g =
        absurd (omega (arith, index-Inside (suc least) d _ g))

    fill_round_returns :
        (m : Manager) (rest : List Text)
        → (more : Bool) × ((fill_round parse_line (record { manager = m; rest = rest })).0
            ≡ ok more)
    unfolding fill_round producer_done
    fill_round_returns m [] = (false, refl)
    fill_round_returns m (e ∷ []) = (false, refl)
    fill_round_returns m (e ∷ t ∷ rest) = (true, refl)

    -- The state behind the pop that opens a round.
    abbrev popped : System → System
    popped s = record s { manager = (pop_front s.manager).1 }

    pop_rounds_step :
        (n : ℕ) (s : System) (more : Bool)
        → (pop_front s.manager).0 ≡ ok tt
        → (fill_round parse_line (popped s)).0 ≡ ok more
        → (pop_rounds parse_line (suc n) s).1 ≡ (
            if more
            then (pop_rounds parse_line n (fill_round parse_line (popped s)).1).1
            else (fill_round parse_line (popped s)).1)
    unfolding pop_rounds
    pop_rounds_step n s more h k = ground arith

    pop_rounds-Good :
        (n : ℕ) (d : List Package) (s : System)
        → Good n d s
        → Good 0 d (pop_rounds parse_line n s).1
    pop_rounds-Good zero d s g = unfold pop_rounds in g
    pop_rounds-Good (suc n) d s g =
        let (popped_ok, g') =
          pop_front-Good n d s.manager.producer_running s.manager.syscall_objects s.manager.trace
            s.manager.mutators s.rest g in
        let g'' = fill_round-Good n d (popped s).manager (popped s).rest g' in
        let (more, e) = fill_round_returns (popped s).manager (popped s).rest in
        rw (pop_rounds_step n s more popped_ok e) (
          branch more (pop_rounds-Good n d (fill_round parse_line (popped s)).1 g'')
            (Good-weaken n d _ g''))
      where
        branch : {x y : System} (b : Bool) → Good 0 d x → Good 0 d y → Good 0 d (if b then x else y)
        branch true p q = p
        branch false p q = q

    window_round_step :
        (b : ℕ) (s : System)
        → (window_round parse_line b s).1 ≡ elim (backtrace_limit b s.manager.mutators) [
          | raised e ↦ s
          | ok limit ↦ (pop_rounds parse_line (pos_part limit) s).1
        ]
    unfolding window_round
    window_round_step b s = ground arith

    limit_Good :
        (b : ℕ) (d : List Package) (s : System) (limit : ℤ)
        → backtrace_limit b s.manager.mutators ≡ ok limit
        → Good 0 d s
        → Good (pos_part limit) d s
    limit_Good b d s limit h g = record {
      aligned = g.aligned;
      inside = backtrace-Inside b (length s.manager.trace) limit s.manager.mutators h g.inside;
      entry = g.entry;
      stored = g.stored;
      stream = g.stream;
    }

    window_round-Good :
        (b : ℕ) (d : List Package) (s : System)
        → Good 0 d s
        → Good 0 d (window_round parse_line b s).1
    window_round-Good b d s g =
        rw (window_round_step b s) (by_limit (backtrace_limit b s.manager.mutators) refl)
      where
        by_limit :
            (l : Result ℤ)
            → backtrace_limit b s.manager.mutators ≡ l
            → Good 0 d
                (elim l [ raised e ↦ s | ok limit ↦ (pop_rounds parse_line (pos_part limit) s).1 ])
        by_limit (raised e) h = g
        by_limit (ok limit) h = pop_rounds-Good (pos_part limit) d s (limit_Good b d s limit h g)

    pub produce_step-Good :
        (b : ℕ) (p : Phase) (d : List Package) (s : System)
        → Good 0 d s
        → Good 0 d (produce_step parse_line b p s).1
    produce_step-Good b (filling zero) d s g = rw (sliding s) (window_round-Good b d s g)
      where
        sliding :
            (s' : System)
            → (produce_step parse_line b (filling zero) s').1 ≡ (window_round parse_line b s').1
        sliding s' = unfold produce_step in ground arith
    produce_step-Good b (filling (suc n)) d s g =
        rw (one_fill s) (fill_round-Good 0 d s.manager s.rest g)
      where
        one_fill :
            (s' : System)
            → (produce_step parse_line b (filling (suc n)) s').1 ≡ (fill_round parse_line s').1
        one_fill s' = unfold produce_step in ground arith
    produce_step-Good b finished d s g = unfold produce_step in g
