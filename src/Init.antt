-- ===== src/Init.antt =====
-- src/rrinit.py
use crash_simulator.Base.{
  ◌≡◌, ◌↔◌, ℕ, Bool, true, false, not, ◌&&◌, ◌||◌, ℤ, pos, eq_ℤ, if◌then◌else◌, arith,
}
use crash_simulator.Py.{Text, text, same, Error, Result, ok, raised}

-- What `rr help` does.
pub data Help : Type 0 where
  works exits_badly not_found : Help

-- What os.makedirs does.
pub data Made : Type 0 where
  made already_there : Made
  refused : Error → Made

pub record Environment : Type 0 where
  pub cpuid_check : ℤ
  pub randomize_va_space : Text  -- the content of the proc file
  pub ptrace_scope : Text
  pub rr_help : Help
  pub config_path : Bool  -- if the directory exists
  pub makedirs : Made
  pub pipe : Bool  -- if rrdump.pipe exists in it
  pub pickle : Bool  -- if syscall_definitions.pickle exists in it
  pub generate : Result (Unit {0})  -- generate_pickle

pub data Ending : Type 0 where
  exits : ℕ → Ending
  fails : Error → Ending

-- What is left behind: if the directory, the pipe and the pickle are there.
pub record Left : Type 0 where
  pub config_path : Bool
  pub pipe : Bool
  pub pickle : Bool

abbrev untouched : Environment → Left
untouched e = record { config_path = e.config_path; pipe = e.pipe; pickle = e.pickle }

generate_pickle : Environment → Ending × Left
generate_pickle e =
    if e.pickle
    then (exits 0, record { config_path = true; pipe = false; pickle = true })
    else elim e.generate [
      | ok u ↦ (exits 0, record { config_path = true; pipe = false; pickle = true })
      | raised x ↦ (fails x, record { config_path = true; pipe = false; pickle = false })
    ]

make_path : Environment → Ending × Left
unfolding generate_pickle
make_path e = if e.config_path then generate_pickle e else elim e.makedirs [
  | made ↦ generate_pickle e
  | already_there ↦ generate_pickle e
  | refused x ↦ (fails x, untouched e)
]

-- The checks in their order, each of which exits with status 1.
unfoldable pub main : Environment → Ending × Left
unfolding make_path
main e =
    if not (eq_ℤ e.cpuid_check (pos 0))
    then (exits 1, untouched e)
    else if same e.randomize_va_space (text "1")
    then (exits 1, untouched e)
    else if same e.ptrace_scope (text "1")
    then (exits 1, untouched e)
    else elim e.rr_help [
      | works ↦ make_path e
      | exits_badly ↦ (exits 1, untouched e)
      | not_found ↦ (exits 1, untouched e)
    ]

abbrev runs : Help → Bool
runs works = true
runs h = false

abbrev is_there : Made → Bool
is_there (refused x) = false
is_there m = true

abbrev is_ok : Result (Unit {0}) → Bool
is_ok (ok u) = true
is_ok (raised x) = false

-- What an environment needs.
abbrev pub is_suitable : Environment → Bool
is_suitable e =
    eq_ℤ e.cpuid_check (pos 0)
    && not (same e.randomize_va_space (text "1"))
    && not (same e.ptrace_scope (text "1"))
    && runs e.rr_help
    && (e.config_path || is_there e.makedirs)
    && (e.pickle || is_ok e.generate)

-- The program exits with status 0 exactly for a suitable environment, and then the directory and the
-- pickle are there and no pipe is. A proc file is taken as it is read, so one that ends with a newline
-- passes whatever its number is.
pub initialized_iff :
    (e : Environment)
    → (((main e).0 ≡ exits 0) ↔ (is_suitable e ≡ true))
      × ((main e).0 ≡ exits 0
          → (main e).1 ≡ record { config_path = true; pipe = false; pickle = true })
unfolding main
initialized_iff e = ground arith
