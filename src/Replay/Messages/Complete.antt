-- ===== src/Replay/Messages/Complete.antt =====
-- A whole run of process_messages of src/rreplay.py in which rr and the subjects stay in step.
use mathlib.Core.List.{append_assoc}
use crash_simulator.Base.{
  ◌≡◌, refl, sym, ap, ◌∙◌, subst, ℕ, zero, suc, true, false, some, List, [], ◌∷◌, ◌++◌, map,
  get_elem?, drop, length, length-append, All, All-mono, arith, Bool-cases, inl, inr, ltb,
}
use crash_simulator.Py.{Text, text, same, same_iff, ok, Result-cases}
use crash_simulator.Replay.Config.{Subject, Statefile, Files, write_file}
use crash_simulator.Replay.Messages.{
  Message, Run, set_at, read_file, unlink, still_used, supervise, inject_message, process_message,
  process_messages,
}
use crash_simulator.Replay.Messages.Laws.{Injects, process_message-inject, subject_at_lem}
use crash_simulator.Replay.Messages.Sync.{
  less_irrefl, is_stored, read_file-stored, write_file-stored, unlink-stored, supervise_lem,
  catch_up_same, in_step_assigns,
}

stored_read_file :
    (name : Text) (d : Files)
    → is_stored name d ≡ true
    → (f : Statefile) × (read_file name d ≡ ok f)
unfolding is_stored read_file
stored_read_file name [] h = cc
stored_read_file name ((n, f) ∷ d) h = elim (Bool-cases (same name n)) [
  | inl q ↦ (f, rw q refl)
  | inr q ↦ let (g, e) = stored_read_file name d (ground arith) in (g, rw q e)
]

-- The event configurations of subjects are in the store.
abbrev Stored : Files → List Subject → Type 0
Stored d l = All (λ s. is_stored s.injected_state_file d ≡ true) l

still_used_none :
    (name : Text) (l : List Subject)
    → still_used name l ≡ false
    → All (λ s. same s.injected_state_file name ≡ false) l
unfolding still_used
still_used_none name [] h = tt
still_used_none name (s ∷ l) h = (ground arith, still_used_none name l (ground arith))

unlink_keeps :
    (name other : Text) (d d' : Files)
    → unlink name d ≡ ok d'
    → same other name ≡ false
    → is_stored other d ≡ true
    → is_stored other d' ≡ true
unfolding unlink is_stored
unlink_keeps name other [] d' u n h = cc
unlink_keeps name other ((k, f) ∷ d) d' u n h = elim (Bool-cases (same name k)) [
  | inl q ↦
      let other_k : same other k ≡ false =
        subst (λ y. same other y ≡ false) ((same_iff name k).0 q) n in
      let left : d ≡ d' = ground (arith, u, q) in
      subst (λ x. is_stored other x ≡ true) left (ground (arith, other_k, h))
  | inr q ↦ elim (Result-cases (unlink name d)) [
    | inl (e, failed) ↦ absurd (ground (arith, u, q, failed))
    | inr (rest, done) ↦
        let left : (k, f) ∷ rest ≡ d' = ground (arith, u, q, done) in
        subst (λ x. is_stored other x ≡ true) left
          (ground (arith, h, unlink_keeps name other d rest done n))
  ]
]

unlink-Stored :
    (name : Text) (d d' : Files) (l : List Subject)
    → unlink name d ≡ ok d'
    → All (λ s. same s.injected_state_file name ≡ false) l
    → Stored d l
    → Stored d' l
unlink-Stored name d d' [] u n a = tt
unlink-Stored name d d' (s ∷ l) u n a =
    (unlink_keeps name s.injected_state_file d d' u n.0 a.0, unlink-Stored name d d' l u n.1 a.1)

supervise_keeps :
    (m : Message) (pid brks : Text) (r : Run) (s : Subject) (tmp : Statefile)
    → m.brks ≡ some brks
    → get_elem? r.subjects r.sub_idx ≡ some s
    → read_file s.injected_state_file r.files ≡ ok tmp
    → Stored r.files (drop (suc r.sub_idx) r.subjects)
    → Stored (supervise m pid r).1.files (drop (suc r.sub_idx) r.subjects)
unfolding supervise
supervise_keeps m pid brks r s tmp b g f a =
    let name = pid ++ text "_" ++ s.injected_state_file in
    let written = write_file name (record tmp { pid = some pid; brks = some brks }) r.files in
    let kept =
      All-mono _ _ (drop (suc r.sub_idx) r.subjects)
        (λ t h.
          write_file-stored t.injected_state_file name
            (record tmp { pid = some pid; brks = some brks }) r.files h)
        a in
    elim (Bool-cases (still_used s.injected_state_file (drop (suc r.sub_idx) r.subjects))) [
      | inl u ↦ rw (subject_at_lem r.subjects r.sub_idx g, f, b, u) kept
      | inr u ↦
          let (d, e) = unlink-stored s.injected_state_file written (
            write_file-stored s.injected_state_file name
              (record tmp { pid = some pid; brks = some brks }) r.files
              (read_file-stored s.injected_state_file r.files tmp f)) in
          rw (subject_at_lem r.subjects r.sub_idx g, f, b, u, e)
            (unlink-Stored s.injected_state_file written d (drop (suc r.sub_idx) r.subjects) e
              (still_used_none s.injected_state_file (drop (suc r.sub_idx) r.subjects) u) kept)
    ]

step_files :
    (m : Message) (event pid brks : Text) (r : Run) (s : Subject) (tmp : Statefile)
    → Injects m event pid
    → m.brks ≡ some brks
    → get_elem? r.subjects r.sub_idx ≡ some s
    → event ≡ s.event
    → read_file s.injected_state_file r.files ≡ ok tmp
    → (process_message m r).1.files ≡ (supervise m pid r).1.files
unfolding inject_message
step_files m event pid brks r s tmp i b g e f =
    let (x, y, z) = supervise_lem m pid brks r s tmp b g f in
    ground (
      arith,
      process_message-inject m event pid r i,
      subject_at_lem r.subjects r.sub_idx g,
      catch_up_same event r s g e,
      less_irrefl s.event,
      x,
      e,
    )

-- A subject, and the message for it, with its process and its kernel mappings.
pub record Step : Type 0 where
  pub subject : Subject
  pub message : Message
  pub pid : Text
  pub brks : Text

-- The message asks for the injection at the event of the subject, with its kernel mappings.
abbrev pub InStep : Step → Type 0
InStep x = Injects x.message x.subject.event x.pid × (x.message.brks ≡ some x.brks)

-- The subject with its supervisor.
abbrev pub supervised : Step → Subject
supervised x = record x.subject {
  handle = some (x.pid ++ text "_" ++ x.subject.injected_state_file);
}

abbrev pub subjects_of : List Step → List Subject
subjects_of steps = map (λ x. x.subject) steps

get_at :
    (done l : List Subject) (s : Subject) (n : ℕ)
    → n ≡ length done
    → get_elem? (done ++ s ∷ l) n ≡ some s
get_at [] l s zero e = refl
get_at [] l s (suc n) e = absurd (omega arith)
get_at (x ∷ done) l s zero e = absurd (omega arith)
get_at (x ∷ done) l s (suc n) e = get_at done l s n (omega arith)

set_at-there :
    (done l : List Subject) (s t : Subject) (n : ℕ)
    → n ≡ length done
    → set_at n t (done ++ s ∷ l) ≡ (done ++ t ∷ []) ++ l
unfolding set_at
set_at-there [] l s t zero e = refl
set_at-there [] l s t (suc n) e = absurd (omega arith)
set_at-there (x ∷ done) l s t zero e = absurd (omega arith)
set_at-there (x ∷ done) l s t (suc n) e = ap (λ k. x ∷ k) (set_at-there done l s t n (omega arith))

drop_behind :
    (done l : List Subject) (s : Subject) (n : ℕ)
    → n ≡ length done
    → drop (suc n) (done ++ s ∷ l) ≡ l
drop_behind [] l s zero e = refl
drop_behind [] l s (suc n) e = absurd (omega arith)
drop_behind (x ∷ done) l s zero e = absurd (omega arith)
drop_behind (x ∷ done) l s (suc n) e = drop_behind done l s n (omega arith)

served_from :
    (steps : List Step) (done : List Subject) (r : Run)
    → r.subjects ≡ done ++ subjects_of steps
    → r.sub_idx ≡ length done
    → All InStep steps
    → Stored r.files (subjects_of steps)
    → let p = process_messages (map (λ x. some x.message) steps) r in
      (p.0 ≡ ok tt) × (p.1.subjects ≡ done ++ map supervised steps)
unfolding process_messages
served_from [] done r e i t a =
    let full : ltb r.sub_idx (length r.subjects) ≡ false =
      ground (arith, i, ap (λ l. length l) e, length-append done []) in
    rw full (refl, e)
served_from (x ∷ steps) done r e i t a =
    let l = subjects_of steps in
    let g : get_elem? r.subjects r.sub_idx ≡ some x.subject =
      subst (λ y. get_elem? y r.sub_idx ≡ some x.subject) (sym e)
        (get_at done l x.subject r.sub_idx i) in
    let (tmp, f) = stored_read_file x.subject.injected_state_file r.files a.0 in
    let (o, j, k) =
      in_step_assigns x.message x.subject.event x.pid x.brks r x.subject tmp t.0.0 t.0.1 g refl f in
    let rest : drop (suc r.sub_idx) r.subjects ≡ l =
      ap (λ y. drop (suc r.sub_idx) y) e ∙ drop_behind done l x.subject r.sub_idx i in
    let kept : Stored (supervise x.message x.pid r).1.files l =
      subst (λ y. Stored (supervise x.message x.pid r).1.files y) rest
        (supervise_keeps x.message x.pid x.brks r x.subject tmp t.0.1 g f
          (subst (λ y. Stored r.files y) (sym rest) a.1)) in
    let files =
      step_files x.message x.subject.event x.pid x.brks r x.subject tmp t.0.0 t.0.1 g refl f in
    let subjects : (process_message x.message r).1.subjects ≡ (done ++ supervised x ∷ []) ++ l =
      k
      ∙ (ap (λ y. set_at r.sub_idx (supervised x) y) e
          ∙ set_at-there done l x.subject (supervised x) r.sub_idx i) in
    let (p, q) =
      served_from steps (done ++ supervised x ∷ []) (process_message x.message r).1 subjects
        (omega (arith, j, i, length-append done (supervised x ∷ []))) t.1
        (subst (λ d. Stored d l) (sym files) kept) in
    let more : ltb r.sub_idx (length r.subjects) ≡ true =
      ground (arith, i, ap (λ y. length y) e, length-append done (x.subject ∷ l)) in
    rw (more, o) (p, q ∙ append_assoc done (supervised x ∷ []) (map supervised steps))

-- When rr sends, in the order of the subjects, a message for the event of each that asks for the
-- injection and has kernel mappings, and the event configuration of each subject is in the store at
-- first, process_messages returns and every subject has the supervisor of its process, though a
-- configuration is unlinked as soon as no later subject uses it.
pub every_subject_served :
    (steps : List Step) (files : Files)
    → All InStep steps
    → All (λ x. is_stored x.subject.injected_state_file files ≡ true) steps
    → let p =
        process_messages
          (map (λ x. some x.message) steps)
          (record { subjects = subjects_of steps; sub_idx = 0; files = files }) in
      (p.0 ≡ ok tt) × (p.1.subjects ≡ map supervised steps)
every_subject_served steps files t a =
    served_from steps [] (record { subjects = subjects_of steps; sub_idx = 0; files = files }) refl
      refl t (stored_subjects steps a)
  where
    stored_subjects :
        (l : List Step)
        → All (λ x. is_stored x.subject.injected_state_file files ≡ true) l
        → Stored files (subjects_of l)
    stored_subjects [] h = tt
    stored_subjects (x ∷ l) h = (h.0, stored_subjects l h.1)
