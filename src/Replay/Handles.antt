-- ===== src/Replay/Handles.antt =====
-- src/rreplay.py: wait_on_handles
use crash_simulator.Base.{
  ◌≡◌, refl, ap, not, Option, none, some, List, [], ◌∷◌, ◌++◌, map, ℤ, pos, negsuc, eq_ℤ,
  if◌then◌else◌, Bool-cases, inl, inr, All,
}
use crash_simulator.Py.{
  Text, str, int, Result, ok, raised, Py, ◌>>=◌, ◌>>◌, self, put, lift, when, for_each,
}
use crash_simulator.Replay.Config.{Subject}

-- What the function does outside of the program: the processes that it sends SIGKILL, and the
-- subjects whose supervisor it reports as failed.
pub record Outcome : Type 0 where
  pub killed : List ℤ
  pub reported : List Subject

-- os.kill(int(i), signal.SIGKILL), whose OSError is dropped
unfoldable pub kill : Text → Py Outcome (Unit {0})
kill i = do pid ← lift (int (str i)); o ← self; put (record o { killed = o.killed ++ pid ∷ [] })

-- `wait` is the exit status of a supervisor.
module _ (wait : Text → ℤ) where
  unfoldable pub status : Option Text → ℤ
  status none = negsuc 0
  status (some handle) = wait handle

  unfoldable pub wait_on_subject : Subject → Py Outcome (Unit {0})
  unfolding status for_each kill
  wait_on_subject s = do
    for_each kill s.other_procs
    when (not (eq_ℤ (status s.handle) (pos 0)))
        do o ← self; put (record o { reported = o.reported ++ s ∷ [] })

  unfoldable pub wait_on_handles : List Subject → Py Outcome (Unit {0})
  unfolding for_each wait_on_subject
  wait_on_handles = for_each wait_on_subject

  -- The subjects whose supervisor failed, or that have none.
  abbrev pub failed : List Subject → List Subject
  failed [] = []
  failed (s ∷ l) = if eq_ℤ (status s.handle) (pos 0) then failed l else s ∷ failed l

abbrev pub pid_number : Result ℤ → ℤ
pid_number (ok n) = n
pid_number (raised e) = pos 0

-- The text is one that int() reads.
abbrev pub IsPid : Text → Type 0
IsPid i = int (str i) ≡ ok (pid_number (int (str i)))

abbrev pub pids : List Text → List ℤ
pids l = map (λ i. pid_number (int (str i))) l

-- The uninteresting processes of all subjects.
abbrev pub others : List Subject → List ℤ
others [] = []
others (s ∷ l) = pids s.other_procs ++ others l

append_assoc : {A : Type 0} (xs ys zs : List A) → (xs ++ ys) ++ zs ≡ xs ++ (ys ++ zs)
append_assoc [] ys zs = refl
append_assoc (x ∷ xs) ys zs = ap (λ l. x ∷ l) (append_assoc xs ys zs)

append-nil : {A : Type 0} (xs : List A) → xs ++ [] ≡ xs
append-nil [] = refl
append-nil (x ∷ xs) = ap (λ l. x ∷ l) (append-nil xs)

kill_every :
    (l : List Text) (o : Outcome)
    → All IsPid l
    → for_each kill l o ≡ (ok tt, record o { killed = o.killed ++ pids l })
unfolding for_each kill
kill_every [] o a = rw (append-nil o.killed) refl
kill_every (i ∷ l) o a =
    rw
      (
        a.0,
        kill_every l (record o { killed = o.killed ++ pid_number (int (str i)) ∷ [] }) a.1,
        append_assoc o.killed (pid_number (int (str i)) ∷ []) (pids l),
      )
      refl

-- One subject: its processes, and whether it is reported.
wait_on_subject_lem :
    (wait : Text → ℤ) (s : Subject) (o : Outcome)
    → All IsPid s.other_procs
    → wait_on_subject wait s o ≡ (
      ok tt,
      record {
        killed = o.killed ++ pids s.other_procs;
        reported = o.reported ++ failed wait (s ∷ []);
      },
    )
unfolding wait_on_subject
wait_on_subject_lem wait s o a = elim (Bool-cases (eq_ℤ (status wait s.handle) (pos 0))) [
  | inl q ↦ rw (kill_every s.other_procs o a, q, append-nil o.reported) refl
  | inr q ↦ rw (kill_every s.other_procs o a, q) refl
]

failed-cons :
    (wait : Text → ℤ) (s : Subject) (l : List Subject)
    → failed wait (s ∷ l) ≡ failed wait (s ∷ []) ++ failed wait l
failed-cons wait s l = elim (Bool-cases (eq_ℤ (status wait s.handle) (pos 0))) [
  | inl q ↦ rw q refl
  | inr q ↦ rw q refl
]

-- When every uninteresting process has a number, the function returns; it has sent SIGKILL to all
-- processes of all subjects, in order, and reported exactly the subjects that have no supervisor or
-- whose supervisor's exit status is not 0.
pub wait_on_handles_lem :
    (wait : Text → ℤ) (l : List Subject) (o : Outcome)
    → All (λ s. All IsPid s.other_procs) l
    → wait_on_handles wait l o
      ≡ (ok tt, record { killed = o.killed ++ others l; reported = o.reported ++ failed wait l })
unfolding wait_on_handles for_each
wait_on_handles_lem wait [] o a = rw (append-nil o.killed, append-nil o.reported) refl
wait_on_handles_lem wait (s ∷ l) o a =
    rw
      (
        wait_on_subject_lem wait s o a.0,
        wait_on_handles_lem wait l
            (record {
              killed = o.killed ++ pids s.other_procs;
              reported = o.reported ++ failed wait (s ∷ []);
            })
            a.1,
        append_assoc o.killed (pids s.other_procs) (others l),
        append_assoc o.reported (failed wait (s ∷ [])) (failed wait l),
        ← failed-cons wait s l,
      )
      refl
