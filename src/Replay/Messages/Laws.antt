-- ===== src/Replay/Messages/Laws.antt =====
-- The index of process_messages of src/rreplay.py, and rr's messages.
use crash_simulator.Base.{
  ◌≡◌, refl, ap, subst, ℕ, zero, suc, ◌+◌, ◌≤◌, true, false, Option, none, some, List, [], ◌∷◌,
  ◌++◌, get_elem?, drop, drop-eq_some, length, All, arith, Bool-cases, inl, inr,
}
use crash_simulator.Py.{Text, text, same, Result, ok, raised, index_error, Result-cases}
use crash_simulator.Replay.Config.{Subject}
use crash_simulator.Replay.Messages.{
  Message, Run, field, less, subject_at, set_at, fast_forward, read_file, still_used, supervise,
  add_other, catch_up, inject_message, process_message, process_messages,
}

-- The message asks for an injection, with this event and process.
abbrev pub Injects : Message → Text → Text → Type 0
Injects m event pid = (m.inject ≡ some (text "true")) × (m.event ≡ some event) × (m.pid ≡ some pid)

-- Fast-forwarding stops at the first subject whose event is not less than the message's.
pub fast_forward_stops :
    (event : Text) (i : ℕ) (before : List Subject) (s : Subject) (rest : List Subject)
    → All (λ b. less b.event event ≡ true) before
    → less s.event event ≡ false
    → fast_forward event i (before ++ s ∷ rest) ≡ ok (i + length before)
unfolding fast_forward
fast_forward_stops event i [] s rest a h = ground arith
fast_forward_stops event i (b ∷ before) s rest a h =
    ground (arith, a.0, fast_forward_stops event (suc i) before s rest a.1 h)

fast_forward_past_end :
    (event : Text) (i : ℕ) (l : List Subject)
    → All (λ b. less b.event event ≡ true) l
    → fast_forward event i l ≡ raised index_error
unfolding fast_forward
fast_forward_past_end event i [] a = refl
fast_forward_past_end event i (b ∷ l) a =
    ground (arith, a.0, fast_forward_past_end event (suc i) l a.1)

pub subject_at_lem :
    (l : List Subject) (i : ℕ) {s : Subject} → get_elem? l i ≡ some s → subject_at l i ≡ ok s
unfolding subject_at
subject_at_lem l i h = rw h refl

true_is_true : same (text "true") (text "true") ≡ true
unfolding same text
true_is_true = refl

pub process_message-inject :
    (m : Message) (event pid : Text) (r : Run)
    → Injects m event pid
    → process_message m r ≡ inject_message m event pid r
unfolding process_message
process_message-inject m event pid r (i, e, p) = rw (i, e, p, true_is_true) refl

-- A message that asks for an injection, with an event whose text is less than that of the subject
-- waited for, changes nothing: the loop waits on for the same subject.
pub earlier_message_ignored :
    (m : Message) (event pid : Text) (r : Run) (s : Subject)
    → Injects m event pid
    → get_elem? r.subjects r.sub_idx ≡ some s
    → less event s.event ≡ true
    → process_message m r ≡ (ok tt, r)
unfolding inject_message
earlier_message_ignored m event pid r s i g h =
    rw (process_message-inject m event pid r i, subject_at_lem r.subjects r.sub_idx g, h) refl

first_left :
    (event : Text) (l : List Subject) (i : ℕ) (s : Subject)
    → get_elem? l i ≡ some s
    → All (λ b. less b.event event ≡ true) (drop i l)
    → less s.event event ≡ true
first_left event l i s g a =
    (subst (λ k. All (λ b. less b.event event ≡ true) k) (drop-eq_some i l s g) a).0

catch_up_past_end :
    (event : Text) (r : Run) (s : Subject)
    → get_elem? r.subjects r.sub_idx ≡ some s
    → All (λ b. less b.event event ≡ true) (drop r.sub_idx r.subjects)
    → catch_up event r ≡ (raised index_error, r)
unfolding catch_up
catch_up_past_end event r s g a =
    rw
      (
        subject_at_lem r.subjects r.sub_idx g,
        first_left event r.subjects r.sub_idx s g a,
        fast_forward_past_end event r.sub_idx (drop r.sub_idx r.subjects) a,
      )
      refl

-- A message that asks for an injection, with an event whose text is greater than those of all the
-- subjects left, of which there are some, and not less than the first of them, is an IndexError.
pub past_last_subject_raises :
    (m : Message) (event pid : Text) (r : Run) (s : Subject)
    → Injects m event pid
    → get_elem? r.subjects r.sub_idx ≡ some s
    → less event s.event ≡ false
    → All (λ b. less b.event event ≡ true) (drop r.sub_idx r.subjects)
    → process_message m r ≡ (raised index_error, r)
unfolding inject_message
past_last_subject_raises m event pid r s i g n a =
    rw
      (
        process_message-inject m event pid r i,
        subject_at_lem r.subjects r.sub_idx g,
        n,
        catch_up_past_end event r s g a,
      )
      refl

length-set_at : (i : ℕ) (s : Subject) (l : List Subject) → length (set_at i s l) ≡ length l
unfolding set_at
length-set_at i s [] = refl
length-set_at zero s (x ∷ l) = refl
length-set_at (suc i) s (x ∷ l) = ap (λ n. suc n) (length-set_at i s l)

-- The state of the loop while it runs, and after a round that raised nothing: the index is in range
-- for a round, and one further at most behind it.
abbrev InRange : Run → Type 0
InRange r = r.sub_idx ≤ length r.subjects

-- What one round keeps: the number of subjects, and the range of the index.
abbrev Keeps : ℕ → Result (Unit {0}) × Run → Type 0
Keeps n p = (length p.1.subjects ≡ n) × (p.0 ≡ ok tt → p.1.sub_idx ≤ n)

get-in_range : (l : List Subject) (i : ℕ) {s : Subject} → subject_at l i ≡ ok s → suc i ≤ length l
unfolding subject_at
get-in_range [] i h = ground arith
get-in_range (x ∷ l) zero h = omega arith
get-in_range (x ∷ l) (suc i) h = suc_le (get-in_range l i h)
  where
    suc_le : suc i ≤ length l → suc (suc i) ≤ suc (length l)
    suc_le p = omega (arith, p)

-- supervise leaves the index and the number of subjects, and only returns for an index in range.
supervise_frame :
    (m : Message) (pid : Text) (r : Run)
    → let p = supervise m pid r in
      (length p.1.subjects ≡ length r.subjects)
      × (p.1.sub_idx ≡ r.sub_idx)
      × (p.0 ≡ ok tt → suc r.sub_idx ≤ length r.subjects)
unfolding supervise
supervise_frame m pid r = elim (Result-cases (subject_at r.subjects r.sub_idx)) [
  | inl (e, q) ↦ rw q (refl, refl, λ h. cc)
  | inr (s, q) ↦ elim (Result-cases (read_file s.injected_state_file r.files)) [
    | inl (e, f) ↦ rw (q, f) (refl, refl, λ h. cc)
    | inr (tmp, f) ↦ elim (Result-cases (field m.brks)) [
      | inl (e, b) ↦ rw (q, f, b) (refl, refl, λ h. cc)
      | inr (brks, b) ↦
          elim (Bool-cases (still_used s.injected_state_file (drop (suc r.sub_idx) r.subjects))) [
            | inl u ↦
                rw (q, f, b, u)
                  (
                    length-set_at r.sub_idx _ r.subjects,
                    refl,
                    λ h. get-in_range r.subjects r.sub_idx q,
                  )
            | inr u ↦ ground (
              arith,
              q,
              f,
              b,
              u,
              length-set_at r.sub_idx
                  (record s { handle = some (pid ++ text "_" ++ s.injected_state_file) })
                  r.subjects,
              get-in_range r.subjects r.sub_idx q,
            )
          ]
    ]
  ]
]

catch_up_frame : (event : Text) (r : Run) → let p = catch_up event r in (p.1.subjects ≡ r.subjects)
unfolding catch_up
catch_up_frame event r = ground arith

inject_message-Keeps :
    (m : Message) (event pid : Text) (r : Run)
    → Keeps (length r.subjects) (inject_message m event pid r)
unfolding inject_message
inject_message-Keeps m event pid r = elim (Result-cases (subject_at r.subjects r.sub_idx)) [
  | inl (e, q) ↦ ground (arith, q)
  | inr (s, q) ↦ ground (
    arith,
    q,
    get-in_range r.subjects r.sub_idx q,
    catch_up_frame event r,
    supervise_frame m pid (catch_up event r).1,
  )
]

add_other-Keeps :
    (pid : Text) (r : Run)
    → let p = add_other pid r in
      (length p.1.subjects ≡ length r.subjects) × (p.1.sub_idx ≡ r.sub_idx)
unfolding add_other
add_other-Keeps pid r = elim (Result-cases (subject_at r.subjects r.sub_idx)) [
  | inl (e, q) ↦ ground (arith, q)
  | inr (s, q) ↦ ground (
    arith,
    q,
    length-set_at r.sub_idx (record s { other_procs = s.other_procs ++ pid ∷ [] }) r.subjects,
  )
]

process_message-Keeps :
    (m : Message) (r : Run)
    → suc r.sub_idx ≤ length r.subjects
    → Keeps (length r.subjects) (process_message m r)
unfolding process_message
process_message-Keeps m r h = elim (Result-cases (field m.inject)) [
  | inl (e, q) ↦ ground (arith, q)
  | inr (inject, q) ↦ elim (Result-cases (field m.event)) [
    | inl (e, f) ↦ ground (arith, q, f)
    | inr (event, f) ↦ elim (Result-cases (field m.pid)) [
      | inl (e, p) ↦ ground (arith, q, f, p)
      | inr (pid, p) ↦
          ground (arith, q, f, p, inject_message-Keeps m event pid r, add_other-Keeps pid r)
    ]
  ]
]

-- When process_messages returns, starting with an index that is at most the number of subjects, the
-- number of subjects is what it was, and the index has reached it.
pub process_messages_reach_end :
    (ms : List (Option Message)) (r : Run)
    → r.sub_idx ≤ length r.subjects
    → (process_messages ms r).0 ≡ ok tt
    → (length (process_messages ms r).1.subjects ≡ length r.subjects)
      × ((process_messages ms r).1.sub_idx ≡ length r.subjects)
unfolding process_messages
process_messages_reach_end [] r i h = ground arith
process_messages_reach_end (none ∷ ms) r i h = ground arith
process_messages_reach_end (some m ∷ ms) r i h =
    ground (arith, process_message-Keeps m r, process_messages_reach_end ms (process_message m r).1)
