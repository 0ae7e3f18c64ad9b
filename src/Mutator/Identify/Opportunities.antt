-- ===== src/Mutator/Identify/Opportunities.antt =====
-- The opportunities that the time mutators of src/mutator/ put into the queue.
use mathlib.Core.List.{append_assoc, append-nil, map-append}
use crash_simulator.Base.{
  ◌≡◌, refl, sym, ap, ◌∙◌, subst, ℕ, Bool, true, false, Option, none, some, List, [], ◌∷◌, ◌++◌,
  map, if◌then◌else◌, All, is_some, get_elem?, pos, arith, Bool-cases, inl, inr,
}
use crash_simulator.Py.{Text, text, same, ok, for_each}
use crash_simulator.Syscall.{Syscall}
use crash_simulator.TraceManager.{Package, Entry}
use crash_simulator.Producer.{Phase}
use crash_simulator.Producer.Stream.{pairs, view}
use crash_simulator.Producer.Schedule.{World, Reach, start}
use crash_simulator.Producer.Schedule.Drain.{polls, Ended, every_call_delivered}
use crash_simulator.Mutator.Identify.{Opportunity, call_name, examine_time, identify_lines}

-- An event line and the call behind it, as a package shows them.
abbrev pub Seen : Type 0
Seen = Text × Option Syscall

abbrev pub shown : Package → Seen
shown p = (p.event, p.syscall)

abbrev is_time : Option Syscall → Bool
is_time none = false
is_time (some c) = same c.name (text "time")

-- The calls of time.
unfoldable pub time_calls : List Seen → List Seen
time_calls [] = []
time_calls (v ∷ l) = if is_time v.1 then v ∷ time_calls l else time_calls l

abbrev pub offered : List Opportunity → List Seen
offered q = map (λ o. shown o.found) q

abbrev pub is_call : Seen → Bool
is_call v = is_some v.1

time_calls-cons :
    (v : Seen) (l : List Seen) → time_calls (v ∷ l) ≡ time_calls (v ∷ []) ++ time_calls l
unfolding time_calls
time_calls-cons v l = elim (Bool-cases (is_time v.1)) [ inl q ↦ rw q refl | inr q ↦ rw q refl ]

one_round :
    (name : Text) (p : Package) (q : List Opportunity)
    → is_call (shown p) ≡ true
    → ((examine_time name p q).0 ≡ ok tt)
      × (offered (examine_time name p q).1 ≡ offered q ++ time_calls (shown p ∷ []))
unfolding examine_time call_name time_calls
one_round name p q h = ground (
  arith,
  map-append (λ (o : Opportunity). shown o.found) q
      (record { found = p; mutator_name = name } ∷ []),
  append-nil (offered q),
)

offered_in_rounds :
    (name : Text) (ps : List Package) (q : List Opportunity)
    → All (λ v. is_call v ≡ true) (map shown ps)
    → ((identify_lines (examine_time name) ps q).0 ≡ ok tt)
      × (offered (identify_lines (examine_time name) ps q).1
          ≡ offered q ++ time_calls (map shown ps))
unfolding identify_lines for_each
offered_in_rounds name [] q a = (refl, unfold time_calls in sym (append-nil (offered q)))
offered_in_rounds name (p ∷ ps) q a =
    let (o, f) = one_round name p q a.0 in
    let (o', f') = offered_in_rounds name ps (examine_time name p q).1 a.1 in
    ground (
      arith,
      o,
      f,
      o',
      f',
      time_calls-cons (shown p) (map shown ps),
      append_assoc (offered q) (time_calls (shown p ∷ [])) (time_calls (map shown ps)),
    )

-- From any start at which every registered index is 0, under any schedule, once the producer has
-- ended behind the whole file, a thread of FutureTimeMutator or ReverseTimeMutator that goes on
-- raises nothing, if every line of the file is a call; and after finitely many requests it has put
-- exactly the calls of time into the queue, in the order of the file.
pub every_time_call_offered :
    (parse_line : Text → Option Syscall) (backlog_size j : ℕ) (id : Text) (sniplen : ℕ)
    (mutator_name : Text) (phase : Phase) (es : List Entry) (lines : List Text) {e : Entry}
    {u : World}
    → All (λ x. x.index ≡ pos 0) es
    → get_elem? es j ≡ some e
    → Reach parse_line backlog_size j (start parse_line backlog_size j phase es lines) u
    → Ended parse_line backlog_size j id sniplen u
    → All (λ v. is_call v ≡ true) (map (view parse_line) (pairs lines))
    → (k : ℕ) × (let (r, q) =
          identify_lines
            (examine_time mutator_name)
            (polls parse_line backlog_size j id sniplen k u).delivered
            [] in
        (r ≡ ok tt) × (offered q ≡ time_calls (map (view parse_line) (pairs lines))))
every_time_call_offered parse_line backlog_size j id sniplen mutator_name phase es lines {e} {u}
      zeros st r d calls =
    let (k, all) =
      every_call_delivered parse_line backlog_size j id sniplen phase es lines zeros st r d in
    let (o, f) =
      offered_in_rounds mutator_name (polls parse_line backlog_size j id sniplen k u).delivered []
        (subst (λ l. All (λ v. is_call v ≡ true) l) (sym all) calls) in
    (k, (o, f ∙ ap time_calls all))
