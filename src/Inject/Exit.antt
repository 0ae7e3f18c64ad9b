-- ===== src/Inject/Exit.antt =====
-- src/inject.py: _kill_parent_process and exit_with_status
use crash_simulator.Base.{
  ◌≡◌, refl, ℕ, Bool, true, false, not, Option, none, some, List, [], ◌∷◌, ◌++◌, if◌then◌else◌,
  ◌==◌, ℤ, eq_ℤ, eq_ℤ_iff, ◌+ℤ◌, Bool-cases, inl, inr,
}
use crash_simulator.Py.{
  Text, text, same, is_blank, str, int, Error, Result, ok, raised, index_error, name_error,
  then_try, Py, ◌>>=◌, lift,
}

abbrev add_char : ℕ → Bool → List Text → List Text
add_char c true (w ∷ ws) = (c ∷ w) ∷ ws
add_char c inside ws = (c ∷ []) ∷ ws

abbrev starts_word : Text → Bool
starts_word [] = false
starts_word (c ∷ s) = not (is_blank c)

-- s.split()
unfoldable pub words : Text → List Text
words [] = []
words (c ∷ s) = let rest = words s in if is_blank c then rest else add_char c (starts_word s) rest

words_sample : words (text "Tgid:\t 41 \n") ≡ text "Tgid:" ∷ text "41" ∷ []
unfolding words text
words_sample = refl

abbrev second : List Text → Result Text
second (v ∷ w ∷ ws) = ok w
second ws = raised index_error

-- A round of the loop over the lines of /proc/<pid>/status, for the value of `tgid` so far.
unfoldable pub read_status : List Text → Option ℤ → Result (Option ℤ)
unfolding text
read_status [] tgid = raised index_error
read_status (w ∷ ws) tgid =
    if same w (text "Tgid:")
    then then_try (second (w ∷ ws)) (λ v. then_try (int (str v)) (λ n. ok (some n)))
    else ok tgid

unfoldable pub tgid_of : List Text → Option ℤ → Result (Option ℤ)
unfolding read_status words
tgid_of [] tgid = ok tgid
tgid_of (i ∷ lines) tgid = then_try (read_status (words i) tgid) (tgid_of lines)

abbrev or_name_error : Option ℤ → Result ℤ
or_name_error none = raised name_error
or_name_error (some n) = ok n

-- What is sent SIGKILL to, in order.
abbrev kill : ℤ → Py (List ℤ) (Unit {0})
kill pid killed = (ok tt, killed ++ pid ∷ [])

unfoldable pub kill_parent_process : List Text → ℤ → Py (List ℤ) (Unit {0})
unfolding tgid_of
kill_parent_process proc_file pid = do
  found ← lift (tgid_of proc_file none)
  tgid ← lift (or_name_error found)
  if not (eq_ℤ tgid pid) then kill tgid else kill pid

-- How the function ends: sys.exit, behind a message on a mutator and its event, and on the event that
-- is reached if the status is not 0; or an exception.
pub data Ending : Type 0 where
  exits : ℕ → Text → Text → Option ℤ → Ending
  fails : Error → Ending

abbrev pub report : ℕ → Text → ℤ → List Text → Ending
report code event error [] = fails index_error
report code event error (m ∷ ms) = exits code m event (if code == 0 then none else some error)

abbrev ending : ℕ → Text → ℤ → List Text → Result (Unit {0}) → Ending
ending code event error mut (raised e) = fails e
ending code event error mut (ok u) = report code event error mut

-- `mut` is what re.findall makes of the mutator's text.
unfoldable pub exit_with_status :
    List Text → ℤ → ℕ → List Text → Text → ℤ → List ℤ → Ending × List ℤ
unfolding kill_parent_process
exit_with_status proc_file pid code mut event index killed = elim (int (str event)) [
  | raised e ↦ (fails e, killed)
  | ok number ↦
      let (r, killed') = kill_parent_process proc_file pid killed in
      (ending code event (number +ℤ index) mut r, killed')
]

-- Where the event is a number and the status file names a group, the one that it names last is killed,
-- once, whether it is the process itself or not; and then the exit has the status given and names the
-- mutator, its event and, if the status is not 0, the event that is reached. It is an IndexError
-- instead if the text of the mutator has no class name.
pub exit_kills_group :
    (proc_file : List Text) (pid tgid number index : ℤ) (code : ℕ) (mut : List Text) (event : Text)
    (killed : List ℤ)
    → tgid_of proc_file none ≡ ok (some tgid)
    → int (str event) ≡ ok number
    → exit_with_status proc_file pid code mut event index killed
      ≡ (report code event (number +ℤ index) mut, killed ++ tgid ∷ [])
unfolding exit_with_status
exit_kills_group proc_file pid tgid number index code mut event killed h e =
    elim (Bool-cases (eq_ℤ tgid pid)) [
      | inl q ↦ rw (exit_with_status, e, kill_parent_process, h, q, (eq_ℤ_iff tgid pid).0 q) refl
      | inr q ↦ rw (exit_with_status, e, kill_parent_process, h, q) refl
    ]
