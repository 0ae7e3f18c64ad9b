-- ===== src/Producer/Schedule/Drain.antt =====
-- What a mutator gets that keeps asking when the producer has ended.
use mathlib.Core.List.{append-nil}
use crash_simulator.Base.{
  ℕ, zero, suc, ◌+◌, ◌-◌, ◌≡◌, ◌≤◌, refl, sym, ap, ◌∙◌, arith, false, Option, none, some, List, [],
  ◌∷◌, ◌++◌, map, length, drop, get_elem?, get_elem?-map, All, All-get_elem?, pos, pos_part, ◌+ℤ◌,
  ◌≤ℤ◌, Option-cases, inl, inr, subst,
}
use crash_simulator.Py.{Text, ok}
use crash_simulator.Syscall.{Syscall}
use crash_simulator.TraceManager.{Line, Entry, find_entry, advance, get_next_syscall_trace_package}
use mathlib.Core.Option.{some-injective}
use crash_simulator.TraceManager.Reads.{get_elem?-advance, pos-suc, snip, get_next_delivers}
use crash_simulator.Producer.{Phase}
use crash_simulator.Producer.Limits.{Inside}
use crash_simulator.Producer.Stream.{pairs, view, seen}
use crash_simulator.Producer.Schedule.{
  World, reads, Reach, Fits, reads-Fits, index_position, start, reached-Fits,
}

find_entry-advance :
    (id : Text) (i : ℕ) (es : List Entry) → find_entry id (advance i es) ≡ find_entry id es
unfolding find_entry advance
find_entry-advance id i [] = refl
find_entry-advance id zero (e ∷ es) = refl
find_entry-advance id (suc i) (e ∷ es) = rw (find_entry-advance id i es) refl

get_elem?-none : (l : List Line) (n : ℕ) → get_elem? l n ≡ none → length l ≤ n
get_elem?-none [] n h = omega arith
get_elem?-none (x ∷ l) zero h = cc
get_elem?-none (x ∷ l) (suc n) h = omega (arith, get_elem?-none l n h)

index_le : (size n : ℕ) (e : Entry) → Inside 0 size e → e.index ≡ pos n → n ≤ size
index_le size n e p ix = omega (arith, subst (λ i. i ≤ℤ pos size) ix p.1)

drop_all : (n : ℕ) (l : List Line) → length l ≤ n → drop n l ≡ []
drop_all zero [] h = refl
drop_all zero (x ∷ l) h = absurd (omega arith)
drop_all (suc n) [] h = refl
drop_all (suc n) (x ∷ l) h = drop_all n l (omega (arith, h))

module _ (parse_line : Text → Option Syscall) (backlog_size j : ℕ) (id : Text) (sniplen : ℕ) where
  -- The mutator asks so many times.
  unfoldable pub polls : ℕ → World → World
  polls zero w = w
  polls (suc n) w = polls n (reads parse_line backlog_size j id sniplen w)

  -- The producer has ended behind the whole file, and the watched mutator is the one with the id.
  pub record Ended (w : World) : Type 0 where
    pub registered : find_entry id w.system.manager.mutators ≡ some j
    pub done : w.system.manager.producer_running ≡ false
    pub file_read : pairs w.system.rest ≡ []

  module _ (full : List Line) where
    -- A request at a position in the window.
    one_poll :
        (w : World) (n : ℕ) (l : Line)
        → Ended w
        → (g : Fits parse_line backlog_size j full w) → g.entry.index ≡ pos n
        → get_elem? w.system.manager.trace n ≡ some l
        → get_next_syscall_trace_package id sniplen w.system.manager ≡ (
          ok (
              some (record {
                syscall = parse_line l.trace_line;
                event = l.event_line;
                trace = l.trace_line ∷ snip sniplen n w.system.manager;
              })),
          record w.system.manager { mutators = advance j w.system.manager.mutators },
        )
    one_poll w n l d g ix hl =
        get_next_delivers w.system.manager id sniplen j n (parse_line l.trace_line) l
          (record { entry = g.entry; found = d.registered; stored = g.stored; index = ix })
          (rw g.aligned
            (get_elem?-map (λ (x : Line). parse_line x.trace_line) w.system.manager.trace n hl))
          hl (ground (arith, d.done))

    -- The world behind the request.
    polled :
        (w : World) (n : ℕ) (l : Line)
        → Ended w
        → (g : Fits parse_line backlog_size j full w) → g.entry.index ≡ pos n
        → get_elem? w.system.manager.trace n ≡ some l
        → (reads parse_line backlog_size j id sniplen w).system ≡ record w.system {
          manager = record w.system.manager { mutators = advance j w.system.manager.mutators };
        }
    unfolding reads
    polled w n l d g ix hl = rw (one_poll w n l d g ix hl) refl

    Ended-poll :
        (w : World) (n : ℕ) (l : Line)
        → Ended w
        → (g : Fits parse_line backlog_size j full w) → g.entry.index ≡ pos n
        → get_elem? w.system.manager.trace n ≡ some l
        → Ended (reads parse_line backlog_size j id sniplen w)
    Ended-poll w n l d g ix hl = record {
      registered =
          rw (polled w n l d g ix hl, find_entry-advance id j w.system.manager.mutators)
            d.registered;
      done = rw (polled w n l d g ix hl) d.done;
      file_read = rw (polled w n l d g ix hl) d.file_read;
    }

    next_index :
        (w : World) (n : ℕ) (l : Line)
        → Ended w
        → (g : Fits parse_line backlog_size j full w) → g.entry.index ≡ pos n
        → get_elem? w.system.manager.trace n ≡ some l
        → (g' : Fits parse_line backlog_size j full (reads parse_line backlog_size j id sniplen w))
        → g'.entry.index ≡ pos (suc n)
    next_index w n l d g ix hl g' =
        let same_entry : some g'.entry ≡ some (record g.entry { index = g.entry.index +ℤ pos 1 }) =
          sym g'.stored
          ∙ rw (polled w n l d g ix hl)
              (get_elem?-advance j j w.system.manager.mutators g.entry g.stored ∙ ground arith) in
        ap (λ e. e.index)
          (some-injective g'.entry (record g.entry { index = g.entry.index +ℤ pos 1 }) same_entry)
        ∙ rw (ix, pos-suc n) refl

    drain :
        (k n : ℕ) (w : World)
        → Ended w
        → (g : Fits parse_line backlog_size j full w) → g.entry.index ≡ pos n
        → n + k ≡ length w.system.manager.trace
        → map (seen parse_line) (polls k w).delivered ≡ map (view parse_line) full
    unfolding polls
    drain zero n w d g ix h =
        let nothing_left : drop (pos_part g.entry.index) w.system.manager.trace
              ++ pairs w.system.rest
            ≡ [] =
          rw (ix, drop_all n w.system.manager.trace (omega (arith, h)), d.file_read) refl in
        sym (append-nil (map (seen parse_line) w.delivered))
        ∙ subst
            (λ ls.
              map (seen parse_line) w.delivered ++ map (view parse_line) ls
              ≡ map (view parse_line) full)
            nothing_left g.stream
    drain (suc k) n w d g ix h = elim (Option-cases (get_elem? w.system.manager.trace n)) [
      | inl e ↦ absurd (omega (arith, get_elem?-none w.system.manager.trace n e))
      | inr (l, hl) ↦
          let g' = reads-Fits parse_line backlog_size j full id sniplen w g in
          drain k (suc n) (reads parse_line backlog_size j id sniplen w)
            (Ended-poll w n l d g ix hl) g' (next_index w n l d g ix hl g')
            (rw (polled w n l d g ix hl) (omega (arith, h)))
    ]

  -- Once the producer has ended behind the whole file, in any world that a schedule leads to, the
  -- watched mutator has been given every call of the file after finitely many requests: the event
  -- lines and the parsed calls, in order, none left out and none given twice.
  pub every_call_delivered :
      (phase : Phase) (es : List Entry) (lines : List Text) {e : Entry} {u : World}
      → All (λ x. x.index ≡ pos 0) es
      → get_elem? es j ≡ some e
      → Reach parse_line backlog_size j (start parse_line backlog_size j phase es lines) u
      → Ended u
      → (k : ℕ) × (map (seen parse_line) (polls k u).delivered
          ≡ map (view parse_line) (pairs lines))
  every_call_delivered phase es lines {e} {u} zeros st r d =
      let g = reached-Fits parse_line backlog_size j phase es lines zeros st r in
      let inside : Inside 0 (length u.system.manager.trace) g.entry =
        All-get_elem? (Inside 0 (length u.system.manager.trace)) u.system.manager.mutators j
          g.inside g.stored in
      let (n, ix) = index_position (length u.system.manager.trace) g.entry inside in
      (
        length u.system.manager.trace - n,
        drain (pairs lines) (length u.system.manager.trace - n) n u d g ix
            (omega (arith, index_le (length u.system.manager.trace) n g.entry inside ix)),
      )
