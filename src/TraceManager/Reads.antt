-- ===== src/TraceManager/Reads.antt =====
-- What a mutator gets from the window.
use Prim.Native.Nat.{◌-◌}
use mathlib.Core.Option.{some-injective}
use crash_simulator.Base.{
  ℕ, zero, suc, ◌≡◌, refl, Bool, true, false, not, ◌||◌, Option, none, some, List, [], ◌∷◌, map,
  length, get_elem?, take, drop, leb, if◌then◌else◌, pos, ◌+ℤ◌, arith, ◌⊎◌, inl, inr, Bool-cases,
  Option-cases, All, ◌==◌, drop-eq_none, drop-eq_some,
}
use crash_simulator.Py.{Text, ok, raised, attribute_error, type_error}
use crash_simulator.Syscall.{Syscall}
use crash_simulator.TraceManager.{
  Manager, Line, Entry, Package, find_entry, gather, advance, get_next_syscall_trace_package,
  get_backlog,
}

pub pos-suc : (n : ℕ) → pos n +ℤ pos 1 ≡ pos (suc n)
unfolding ◌+ℤ◌
pos-suc n = ground arith

gather_step :
    (n i : ℕ) (ls : List Line)
    → gather (suc n) (pos i) ls ≡ elim (get_elem? ls i) [
      | none ↦ ([], false)
      | some l ↦ (l.trace_line ∷ (gather n (pos (suc i)) ls).0, (gather n (pos (suc i)) ls).1)
    ]
unfolding gather ◌+ℤ◌
gather_step n i ls = ground arith

-- The lines collected are those at the position and behind it, as many as there are.
gather_lines :
    (n i : ℕ) (ls : List Line)
    → (gather n (pos i) ls).0 ≡ map (λ l. l.trace_line) (take n (drop i ls))
gather_lines zero i ls = unfold gather in refl
gather_lines (suc n) i ls = elim (Option-cases (get_elem? ls i)) [
  | inl e ↦ rw (gather_step n i ls, e, drop-eq_none i ls e)
  | inr (l, e) ↦ rw (gather_step n i ls, e, drop-eq_some i ls l e, gather_lines n (suc i) ls)
]

-- The end of the range is reached exactly if the window is long enough.
gather_reached : (n i : ℕ) (ls : List Line) → (gather n (pos i) ls).1 ≡ leb n (length (drop i ls))
gather_reached zero i ls = unfold gather in ground arith
gather_reached (suc n) i ls = elim (Option-cases (get_elem? ls i)) [
  | inl e ↦ rw (gather_step n i ls, e, drop-eq_none i ls e) (ground arith)
  | inr (l, e) ↦
      rw (gather_step n i ls, e, drop-eq_some i ls l e, gather_reached n (suc i) ls) (ground arith)
]

-- A registered mutator at position `n` of the window.
pub record At (m : Manager) (id : Text) (i n : ℕ) : Type 0 where
  pub entry : Entry
  pub found : find_entry id m.mutators ≡ some i
  pub stored : get_elem? m.mutators i ≡ some entry
  pub index : entry.index ≡ pos n

-- The window has the lines that a package of this size wants, or the producer will bring no more.
abbrev pub is_ready : ℕ → ℕ → Manager → Bool
is_ready sniplen n m = leb (sniplen - 1) (length (drop (suc n) m.trace)) || not m.producer_running

-- The lines of a package at position `n`.
abbrev pub snip : ℕ → ℕ → Manager → List Text
snip sniplen n m = map (λ l. l.trace_line) (take (sniplen - 1) (drop (suc n) m.trace))

-- A mutator at a position whose call and line are in the window gets them, with the lines behind, as
-- soon as the window is ready. Its index goes up by one, and nothing else changes.
pub get_next_delivers :
    (m : Manager) (id : Text) (sniplen i n : ℕ) (c : Option Syscall) (l : Line)
    → At m id i n
    → get_elem? m.syscall_objects n ≡ some c
    → get_elem? m.trace n ≡ some l
    → is_ready sniplen n m ≡ true
    → get_next_syscall_trace_package id sniplen m ≡ (
      ok (
          some (record {
            syscall = c;
            event = l.event_line;
            trace = l.trace_line ∷ snip sniplen n m;
          })),
      record m { mutators = advance i m.mutators },
    )
unfolding get_next_syscall_trace_package
get_next_delivers m id sniplen i n c l p hc hl ready = ground (
  arith,
  pos-suc n,
  gather_lines (sniplen - 1) (suc n) m.trace,
  gather_reached (sniplen - 1) (suc n) m.trace,
)

-- It gets nothing, and nothing changes, where its position is past the end or the window is not ready.
pub get_next_waits :
    (m : Manager) (id : Text) (sniplen i n : ℕ)
    → At m id i n
    → (get_elem? m.syscall_objects n ≡ none)
      ⊎ (get_elem? m.trace n ≡ none)
      ⊎ (is_ready sniplen n m ≡ false)
    → get_next_syscall_trace_package id sniplen m ≡ (ok none, m)
unfolding get_next_syscall_trace_package
get_next_waits m id sniplen i n p h =
    ground (arith, pos-suc n, gather_reached (sniplen - 1) (suc n) m.trace)

-- The two outcomes, where the package has the call and the event of the position.
pub get_next_cases :
    (m : Manager) (id : Text) (sniplen i n : ℕ)
    → At m id i n
    → (get_next_syscall_trace_package id sniplen m ≡ (ok none, m))
      ⊎ ((p : Package) × (l : Line) × (get_elem? m.syscall_objects n ≡ some p.syscall)
          × (get_elem? m.trace n ≡ some l)
          × (p.event ≡ l.event_line)
          × (get_next_syscall_trace_package id sniplen m
              ≡ (ok (some p), record m { mutators = advance i m.mutators })))
get_next_cases m id sniplen i n p = elim (Option-cases (get_elem? m.syscall_objects n)) [
  | inl e ↦ inl (get_next_waits m id sniplen i n p (inl e))
  | inr (c, ec) ↦ elim (Option-cases (get_elem? m.trace n)) [
    | inl e ↦ inl (get_next_waits m id sniplen i n p (inr (inl e)))
    | inr (l, el) ↦ elim (Bool-cases (is_ready sniplen n m)) [
      | inl e ↦ inr (_, l, ec, el, refl, get_next_delivers m id sniplen i n c l p ec el e)
      | inr e ↦ inl (get_next_waits m id sniplen i n p (inr (inr e)))
    ]
  ]
]

-- A mutator that is not registered gets an exception, and nothing changes.
pub get_next_unregistered :
    (m : Manager) (id : Text) (sniplen : ℕ)
    → find_entry id m.mutators ≡ none
    → get_next_syscall_trace_package id sniplen m ≡ (raised attribute_error, m)
unfolding get_next_syscall_trace_package
get_next_unregistered m id sniplen h = ground arith

-- `get_backlog` raises for every mutator, registered or not.
pub get_backlog_raises :
    (m : Manager) (id : Text)
    → (get_backlog id m).1 ≡ m
      × (((get_backlog id m).0 ≡ raised type_error)
          ⊎ ((get_backlog id m).0 ≡ raised attribute_error))
unfolding get_backlog
get_backlog_raises m id = ground arith

-- One index goes up.
pub get_elem?-advance :
    (i j : ℕ) (es : List Entry) (e : Entry)
    → get_elem? es j ≡ some e
    → get_elem? (advance i es) j
      ≡ some (if i == j then record e { index = e.index +ℤ pos 1 } else e)
unfolding advance
get_elem?-advance i j [] e h = cc
get_elem?-advance zero zero (x ∷ es) e h = ground arith
get_elem?-advance zero (suc j) (x ∷ es) e h = ground arith
get_elem?-advance (suc i) zero (x ∷ es) e h = ground arith
get_elem?-advance (suc i) (suc j) (x ∷ es) e h = ground (arith, get_elem?-advance i j es e h)

pub All-advance :
    (P : Entry → Type 0) (i : ℕ) (es : List Entry) (e : Entry)
    → All P es
    → get_elem? es i ≡ some e
    → P (record e { index = e.index +ℤ pos 1 })
    → All P (advance i es)
unfolding advance
All-advance P i [] e a h p = cc
All-advance P zero (x ∷ es) e a h p = (rw (some-injective x e h) p, a.1)
All-advance P (suc i) (x ∷ es) e a h p = (a.0, All-advance P i es e a.1 h p)
