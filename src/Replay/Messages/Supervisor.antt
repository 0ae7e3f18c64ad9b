-- ===== src/Replay/Messages/Supervisor.antt =====
-- The configuration that process_messages of src/rreplay.py writes for a supervisor, as main of
-- src/inject.py reads it.
use crash_simulator.Base.{
  ◌≡◌, refl, sym, ap, ◌∙◌, subst, ℕ, suc, false, Option, none, some, List, [], ◌∷◌, ◌++◌, get_elem?,
  drop, length, length-append, ℤ, pos, arith, Bool-cases, inl, inr,
}
use crash_simulator.Py.{
  Text, text, same, same_iff, Value, nil, str, int, show_ℕ, show_int, Result, ok, raised, then_try,
  Result-cases,
}
use crash_simulator.Syscall.{Syscall}
use crash_simulator.Mutator.Identify.{Opportunity}
use crash_simulator.Inject.Setup.{
  Brk, consume_brks, apply_mmap_backing_files, Config, Prepared, prepare,
}
use crash_simulator.Replay.Config.{Subject, Statefile, Files, write_file}
use crash_simulator.Replay.Messages.{Message, Run, read_file, unlink, still_used, supervise}
use crash_simulator.Replay.Messages.Laws.{subject_at_lem}
use crash_simulator.Replay.Messages.Sync.{
  read_file-stored, write_file-stored, unlink-stored, supervise_lem,
}
use crash_simulator.Test.Snip.{write_lines}
use crash_simulator.Test.Opportunities.Readback.{subject_for, int-show_int}

read_file-write_file :
    (name : Text) (f : Statefile) (d : Files) → read_file name (write_file name f d) ≡ ok f
unfolding read_file write_file
read_file-write_file name f [] = rw ((same_iff name name).1 refl) refl
read_file-write_file name f ((n, g) ∷ d) = elim (Bool-cases (same name n)) [
  | inl q ↦ rw (q, q) refl
  | inr q ↦ rw (q, q) (read_file-write_file name f d)
]

read_file-unlink :
    (name other : Text) (d d' : Files)
    → unlink name d ≡ ok d'
    → same other name ≡ false
    → read_file other d' ≡ read_file other d
unfolding read_file unlink
read_file-unlink name other [] d' u n = cc
read_file-unlink name other ((k, f) ∷ d) d' u n = elim (Bool-cases (same name k)) [
  | inl q ↦
      let other_k : same other k ≡ false =
        subst (λ y. same other y ≡ false) ((same_iff name k).0 q) n in
      let left : d ≡ d' = ground (arith, u, q) in
      ap (λ x. read_file other x) (sym left) ∙ rw other_k refl
  | inr q ↦ elim (Result-cases (unlink name d)) [
    | inl (e, failed) ↦ absurd (ground (arith, u, q, failed))
    | inr (rest, done) ↦
        let left : (k, f) ∷ rest ≡ d' = ground (arith, u, q, done) in
        ap (λ x. read_file other x) (sym left) ∙ rw (read_file-unlink name other d rest done n) refl
  ]
]

-- The name of a supervisor's configuration is that of the event with the process in front.
name_differs : (pid name : Text) → same (pid ++ text "_" ++ name) name ≡ false
unfolding text
name_differs pid name = elim (Bool-cases (same (pid ++ text "_" ++ name) name)) [
  | inl q ↦
      let e = ap length ((same_iff (pid ++ text "_" ++ name) name).0 q) in
      absurd (omega (arith, e, length-append (pid ++ text "_") name, length-append pid (text "_")))
  | inr q ↦ q
]

-- What is in the store behind `supervise`, for the name of the new supervisor.
supervise_files :
    (m : Message) (pid brks : Text) (r : Run) (s : Subject) (tmp : Statefile)
    → m.brks ≡ some brks
    → get_elem? r.subjects r.sub_idx ≡ some s
    → read_file s.injected_state_file r.files ≡ ok tmp
    → read_file (pid ++ text "_" ++ s.injected_state_file) (supervise m pid r).1.files
      ≡ ok (record tmp { pid = some pid; brks = some brks })
unfolding supervise
supervise_files m pid brks r s tmp b g f =
    let name = pid ++ text "_" ++ s.injected_state_file in
    let new = record tmp { pid = some pid; brks = some brks } in
    elim (Bool-cases (still_used s.injected_state_file (drop (suc r.sub_idx) r.subjects))) [
      | inl u ↦
          rw (subject_at_lem r.subjects r.sub_idx g, f, b, u)
            (read_file-write_file name new r.files)
      | inr u ↦
          let (d, e) = unlink-stored s.injected_state_file (write_file name new r.files) (
            write_file-stored s.injected_state_file name new r.files
              (read_file-stored s.injected_state_file r.files tmp f)) in
          rw (subject_at_lem r.subjects r.sub_idx g, f, b, u, e)
            (read_file-unlink s.injected_state_file name (write_file name new r.files) d e
                (name_differs pid s.injected_state_file)
              ∙ read_file-write_file name new r.files)
    ]

abbrev pub value_of : Option Text → Value
value_of none = nil
value_of (some t) = str t

-- The object that json.load makes of the configuration; `decode` gives the items of its `brks`.
abbrev pub config_of : (Option Text → List (Brk Text)) → Statefile → Config
config_of decode f = record {
  brks = decode f.brks;
  pid = value_of f.pid;
  mmap_backing_files = f.subject.mmap_backing_files;
  trace_start = str f.subject.trace_start;
  trace_end = str f.subject.trace_end;
}

-- What main of inject makes of the configuration of a supervisor of an opportunity.
abbrev pub ready : ℕ → Opportunity → List (Brk ℤ) → ℤ → List Syscall → Prepared
ready sniplen o kernel pid calls = record {
  brks = kernel;
  pid = pid;
  mmap_backing_files = none;
  syscall_index = pos 0;
  syscall_index_end = pos (write_lines sniplen 0 1 o.found.trace).1;
  syscalls = calls;
}

int_zero : int (str (text "0")) ≡ ok (pos 0)
unfolding int text crash_simulator.Py.parse_int
int_zero = refl

int-show_ℕ : (n : ℕ) → int (str (show_ℕ n)) ≡ ok (pos n)
unfolding show_int
int-show_ℕ n = int-show_int (pos n)

prepare-config_of :
    (decode : Option Text → List (Brk Text)) (test_dir rec_pid : Text) (sniplen n : ℕ)
    (o : Opportunity) (brks pid : Text) (kernel : List (Brk ℤ)) (number : ℤ)
    (mutate_syscalls : List Syscall → Result (Unit {0}) × List Syscall) (trace calls : List Syscall)
    (tmp : Statefile)
    → tmp.subject ≡ subject_for test_dir rec_pid sniplen n o
    → consume_brks (decode (some brks)) ≡ ok kernel
    → int (str pid) ≡ ok number
    → mutate_syscalls trace ≡ (ok tt, calls)
    → prepare
        (config_of decode (record tmp { pid = some pid; brks = some brks }))
        (some mutate_syscalls)
        trace
      ≡ ok (ready sniplen o kernel number calls)
unfolding prepare subject_for apply_mmap_backing_files
prepare-config_of decode test_dir rec_pid sniplen n o brks pid kernel number mutate_syscalls trace
      calls tmp s b i m =
    rw
      (
        b,
        i,
        ap (λ (x : Subject). x.mmap_backing_files) s,
        ap (λ (x : Subject). int (str x.trace_start)) s ∙ int_zero,
        ap (λ (x : Subject). int (str x.trace_end)) s
            ∙ int-show_ℕ (write_lines sniplen 0 1 o.found.trace).1,
        m,
      )
      refl

-- Where the subject that process_messages waits for is that of an opportunity, its event configuration
-- is in the store, the message has a process whose number can be read and kernel mappings that inject
-- reads, and the mutator changes the calls of the snippet without an exception: `supervise` raises
-- nothing, and the configuration of the new supervisor is in the store, from which main of inject makes
-- the number of the process, the mappings, and the whole snippet, from 0 to the number of its lines.
pub supervisor_prepared :
    (decode : Option Text → List (Brk Text)) (test_dir rec_pid : Text) (sniplen n : ℕ)
    (o : Opportunity) (message : Message) (brks pid : Text) (r : Run) (kernel : List (Brk ℤ))
    (number : ℤ) (mutate_syscalls : List Syscall → Result (Unit {0}) × List Syscall)
    (trace calls : List Syscall) (tmp : Statefile)
    → get_elem? r.subjects r.sub_idx ≡ some (subject_for test_dir rec_pid sniplen n o)
    → read_file (subject_for test_dir rec_pid sniplen n o).injected_state_file r.files ≡ ok tmp
    → tmp.subject ≡ subject_for test_dir rec_pid sniplen n o
    → message.brks ≡ some brks
    → consume_brks (decode (some brks)) ≡ ok kernel
    → int (str pid) ≡ ok number
    → mutate_syscalls trace ≡ (ok tt, calls)
    → ((supervise message pid r).0 ≡ ok tt)
      × ((f : Statefile) × (read_file
              (pid ++ text "_" ++ (subject_for test_dir rec_pid sniplen n o).injected_state_file)
              (supervise message pid r).1.files
            ≡ ok f)
          × (prepare (config_of decode f) (some mutate_syscalls) trace
              ≡ ok (ready sniplen o kernel number calls)))
supervisor_prepared decode test_dir rec_pid sniplen n o message brks pid r kernel number
      mutate_syscalls trace calls tmp g f s b c i m =
    (
      (supervise_lem message pid brks r (subject_for test_dir rec_pid sniplen n o) tmp b g f).0,
      (
        record tmp { pid = some pid; brks = some brks },
        supervise_files message pid brks r (subject_for test_dir rec_pid sniplen n o) tmp b g f,
        prepare-config_of decode test_dir rec_pid sniplen n o brks pid kernel number mutate_syscalls
            trace calls tmp s c i m,
      ),
    )
