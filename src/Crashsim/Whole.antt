-- ===== src/Crashsim/Whole.antt =====
-- src/crashsim.py: a whole run with a time mutator, from the trace that is recorded to the events that
-- rr is started with, across src/Producer.py, src/TraceManager.py, the mutator's thread,
-- src/identify_opportunities.py and src/rreplay.py
use mathlib.Core.List.{Perm}
use mathlib.Core.List.Perm as Permutation
use crash_simulator.Base.{
  ◌≡◌, refl, sym, ap, ◌∙◌, subst, ℕ, suc, Bool, true, false, not, ◌||◌, Option, some, List, [], ◌∷◌,
  ◌++◌, map, ℤ, pos, All, get_elem?, Option-cases, Bool-cases, inl, inr,
}
use crash_simulator.Py.{Text, text, same, show_int, Result, ok, raised, Result-cases, for_each}
use crash_simulator.Py.ConfigParser.Plain.{is_plain}
use crash_simulator.Syscall.{Syscall}
use crash_simulator.TraceManager.{Entry, Package}
use crash_simulator.Producer.{Phase, skip_header}
use crash_simulator.Producer.Stream.{pairs, view}
use crash_simulator.Producer.Schedule.Drain.{polls, Ended}
use crash_simulator.Mutator.Identify.{Opportunity, call_name, examine_time, identify_lines}
use crash_simulator.Mutator.Identify.Opportunities.{
  Seen, is_call, shown, offered, time_calls, every_time_call_offered,
}
use crash_simulator.Producer.Schedule
use crash_simulator.Replay.Config.{Subject, events_str}
use crash_simulator.Replay.Config.Laws.{SortedByEvent}
use crash_simulator.Replay.Messages.{Message}
use crash_simulator.Test.Snip.{event_number}
use crash_simulator.Test.Opportunities.{recorded_pid}
use crash_simulator.Test.Opportunities.Readback.{
  number, HasEvent, IsPlain, subject_for, subjects_for,
}
use crash_simulator.Crashsim.{World, main}
use crash_simulator.Crashsim.Runs.{rr_gets_opportunities}

All-snoc :
    {A : Type 0} → (P : A → Type 0) (l : List A) (x : A) → All P l → P x → All P (l ++ x ∷ [])
All-snoc P [] x a p = (p, tt)
All-snoc P (y ∷ l) x a p = (a.0, All-snoc P l x a.1 p)

-- The names in the queue of a time mutator are its own.
examine_time-IsPlain :
    (name : Text) (p : Package) (q : List Opportunity)
    → is_plain name ≡ true
    → All IsPlain q
    → All IsPlain (examine_time name p q).1
unfolding examine_time call_name
examine_time-IsPlain name p q n a = elim (Option-cases p.syscall) [
  | inl none_there ↦ rw none_there a
  | inr (c, e) ↦ elim (Bool-cases (same c.name (text "time"))) [
    | inl t ↦ rw (e, t) (All-snoc IsPlain q _ a n)
    | inr f ↦ rw (e, f) a
  ]
]

identify_lines-IsPlain :
    (name : Text) (ps : List Package) (q : List Opportunity)
    → is_plain name ≡ true
    → All IsPlain q
    → All IsPlain (identify_lines (examine_time name) ps q).1
unfolding identify_lines for_each
identify_lines-IsPlain name [] q n a = a
identify_lines-IsPlain name (p ∷ ps) q n a =
    let step = examine_time-IsPlain name p q n a in
    elim (Result-cases (examine_time name p q).0) [
      | inl (e, r) ↦ rw r step
      | inr (u, r) ↦ rw r (identify_lines-IsPlain name ps (examine_time name p q).1 n step)
    ]

-- The sections under the lock, in the order in which the threads have them: the producer's next one, or
-- a request of the mutator with an id.
pub data Turn : Type 0 where
  produce : Turn
  read : Text → ℕ → Turn

module _ (parse_line : Text → Option Syscall) (backlog_size j : ℕ) where
  unfoldable pub take_turn : Turn → Schedule.World → Schedule.World
  take_turn produce u = Schedule.produces parse_line backlog_size j u
  take_turn (read id sniplen) u = Schedule.reads parse_line backlog_size j id sniplen u

  unfoldable pub after : List Turn → Schedule.World → Schedule.World
  unfolding take_turn
  after [] u = u
  after (t ∷ ts) u = after ts (take_turn t u)

  take_turn-Step :
      (t : Turn) (u : Schedule.World) → Schedule.Step parse_line backlog_size j u (take_turn t u)
  unfolding take_turn
  take_turn-Step produce u = Schedule.Step.produce u
  take_turn-Step (read id sniplen) u = Schedule.Step.read id sniplen u

  after-Reach :
      {s : Schedule.World} (ts : List Turn) (u : Schedule.World)
      → Schedule.Reach parse_line backlog_size j s u
      → Schedule.Reach parse_line backlog_size j s (after ts u)
  unfolding after
  after-Reach [] u r = r
  after-Reach (t ∷ ts) u r =
      after-Reach ts (take_turn t u) (Schedule.Reach.next r (take_turn-Step t u))

  module _ (id : Text) (sniplen : ℕ) (mutator_name : Text) (phase : Phase) (es : List Entry)
      (turns : List Turn) (k : ℕ) where
    -- What the thread of a time mutator puts into the queue: its packages behind some turns, and then
    -- `k` further requests of its own.
    found_in : Result (List Text) → List Opportunity
    found_in (raised e) = []
    found_in (ok rest) =
        (identify_lines (examine_time mutator_name)
          (polls parse_line backlog_size j id sniplen k
            (after turns (Schedule.start parse_line backlog_size j phase es rest))).delivered
          []).1

    -- From the lines of a trace file on, whose header the producer skips.
    unfoldable pub found : List Text → List Opportunity
    unfolding found_in
    found lines = found_in (skip_header parse_line lines)

    found-IsPlain : (lines : List Text) → is_plain mutator_name ≡ true → All IsPlain (found lines)
    unfolding found found_in
    found-IsPlain lines n = elim (Result-cases (skip_header parse_line lines)) [
      | inl (e, h) ↦ rw h tt
      | inr (rest, h) ↦ rw h (identify_lines-IsPlain mutator_name _ [] n tt)
    ]

-- The number in an event line, as it is written; and that there is one.
abbrev pub event_text : Seen → Text
event_text v = show_int (number (event_number v.0))

abbrev pub HasNumber : Seen → Type 0
HasNumber v = event_number v.0 ≡ ok (number (event_number v.0))

offered-HasEvent : (q : List Opportunity) → All HasNumber (offered q) → All HasEvent q
offered-HasEvent [] a = tt
offered-HasEvent (o ∷ q) a = (a.0, offered-HasEvent q a.1)

map-subjects_for :
    (test_dir pid : Text) (sniplen n : ℕ) (q : List Opportunity)
    → map (λ (s : Subject). s.event) (subjects_for test_dir pid sniplen n q)
      ≡ map event_text (offered q)
unfolding subjects_for subject_for
map-subjects_for test_dir pid sniplen n [] = refl
map-subjects_for test_dir pid sniplen n (o ∷ q) =
    ap (λ l. event_text (shown o.found) ∷ l) (map-subjects_for test_dir pid sniplen (suc n) q)

module _ (test_dir : Text) (piped : Bool) (messages : List (Option Message)) (wait : Text → ℤ)
    (force : Bool) (w : World) (body : List Text) (last exit counter : Text) where
  -- The events of a run with a queue, with no opportunity left out.
  abbrev pub Served : (List Text → List Opportunity) → List Seen → Type 0
  Served queue l =
      (m : List Subject) × ((main test_dir (pos 0) (body ++ (last ++ 10 ∷ []) ∷ exit ∷ counter ∷ [])
          queue piped messages wait force false w).1.session.replayed
        ≡ some (events_str m, test_dir))
      × SortedByEvent m
      × Perm (map (λ (s : Subject). s.event) m) (map event_text l)

  queue-Served :
      (queue : List Text → List Opportunity) (pid : Text) (v : Seen) (vs : List Seen)
      (q : List Opportunity)
      → not w.store.is_there || force ≡ true
      → recorded_pid (body ++ last ∷ []) ≡ ok pid
      → queue (body ++ last ∷ []) ≡ q
      → offered q ≡ v ∷ vs
      → All HasNumber (v ∷ vs)
      → is_plain test_dir ≡ true
      → is_plain pid ≡ true
      → All IsPlain q
      → Served queue (v ∷ vs)
  queue-Served queue pid v vs [] h p e f a d t n = cc
  queue-Served queue pid v vs (o ∷ os) h p e f a d t n =
      let (m, started, sorted, perm) =
        rr_gets_opportunities test_dir queue piped messages wait force w body last exit counter pid
          o os h p e (offered-HasEvent (o ∷ os) (subst (λ l. All HasNumber l) (sym f) a)) d t n in
      (
        m,
        started,
        sorted,
        subst (λ l. Perm (map (λ (s : Subject). s.event) m) l)
            (map-subjects_for test_dir pid 5 0 (o ∷ os) ∙ ap (λ l. map event_text l) f)
            (Permutation.map (λ (s : Subject). s.event) perm),
      )

-- A run that may write the directory of the test, with one time mutator: its recording ends well, with
-- a trace whose last two lines are the exit call and its counter; in the rest of it, the lines behind
-- the header are calls, and there is a call of time, and each call of time has an event line with a
-- number; and the directory, the pid and the name of the mutator have no space, percent sign, semicolon
-- or quote. The mutator's entry is one of those registered, which all start at index 0. Then, whatever
-- the turns of the producer and the mutators are that end the producer behind the whole file, there is
-- a number of further requests with which rr is started with the directory of the test and the events
-- of exactly the calls of time, one each, sorted by event.
pub time_calls_replayed :
    (parse_line : Text → Option Syscall) (backlog_size j : ℕ) (id : Text) (sniplen : ℕ)
    (mutator_name : Text) (phase : Phase) (es : List Entry) {e : Entry} (turns : List Turn)
    (test_dir : Text) (piped : Bool) (messages : List (Option Message)) (wait : Text → ℤ)
    (force : Bool) (w : World) (body : List Text) (last exit counter pid : Text) (rest : List Text)
    (v : Seen) (vs : List Seen)
    → not w.store.is_there || force ≡ true
    → recorded_pid (body ++ last ∷ []) ≡ ok pid
    → skip_header parse_line (body ++ last ∷ []) ≡ ok rest
    → All (λ x. x.index ≡ pos 0) es
    → get_elem? es j ≡ some e
    → Ended parse_line backlog_size j id sniplen (
        after parse_line backlog_size j turns
          (Schedule.start parse_line backlog_size j phase es rest))
    → All (λ x. is_call x ≡ true) (map (view parse_line) (pairs rest))
    → time_calls (map (view parse_line) (pairs rest)) ≡ v ∷ vs
    → All HasNumber (v ∷ vs)
    → is_plain test_dir ≡ true
    → is_plain pid ≡ true
    → is_plain mutator_name ≡ true
    → (k : ℕ) × Served test_dir piped messages wait force w body last exit counter
        (found parse_line backlog_size j id sniplen mutator_name phase es turns k)
        (time_calls (map (view parse_line) (pairs rest)))
unfolding found
time_calls_replayed parse_line backlog_size j id sniplen mutator_name phase es turns test_dir piped
      messages wait force w body last exit counter pid rest v vs h p header zeros st d calls t a
      dir_plain pid_plain name_plain =
    let start = Schedule.start parse_line backlog_size j phase es rest in
    let (k, (o, f)) =
      every_time_call_offered parse_line backlog_size j id sniplen mutator_name phase es rest zeros
        st (after-Reach parse_line backlog_size j turns start Schedule.Reach.here) d calls in
    let queue = found parse_line backlog_size j id sniplen mutator_name phase es turns k in
    let lines = body ++ last ∷ [] in
    let e =
      ap (found_in parse_line backlog_size j id sniplen mutator_name phase es turns k) header in
    (
      k,
      subst (λ l. Served test_dir piped messages wait force w body last exit counter queue l)
          (sym t)
          (queue-Served test_dir piped messages wait force w body last exit counter queue pid v vs
            (queue lines) h p refl (ap (λ q. offered q) e ∙ (f ∙ t)) a dir_plain pid_plain
            (found-IsPlain parse_line backlog_size j id sniplen mutator_name phase es turns k lines
              name_plain)),
    )
