-- ===== src/Crashsim.antt =====
-- src/crashsim.py: main, which creates a test, identifies the opportunities and replays
pub mod Runs
pub mod Whole
use crash_simulator.Base.{
  ℕ, Bool, true, false, not, Option, none, some, List, [], ◌∷◌, map, ℤ, if◌then◌else◌,
}
use crash_simulator.Py.{Text, Result, ok, raised, io_error, Py, ◌>>=◌, ◌>>◌, return, then_try}
use crash_simulator.Mutator.Identify.{Opportunity}
use crash_simulator.Py.ConfigParser.{Section}
use crash_simulator.Replay.Messages.{Message}
use crash_simulator.Replay.Session.{Session, Ending, exits, cleanup, replay}
use crash_simulator.Test.Ini.{Ini, read, as_section}
use crash_simulator.Test.Opportunities.{Setup, identify_opportunities}
use crash_simulator.Test.Create.{Store, create_test}

-- The directory of the test, with the snippet files in it, and what a replay leaves.
pub record World : Type 0 where
  pub store : Store
  pub snips : List (Text × List Text)
  pub session : Session

-- config.read, which reads nothing if the file is not there
abbrev pub contents : Option Ini → Ini
contents none = []
contents (some ini) = read ini

-- The file itself, where no file is as an empty one.
abbrev pub file_of : Option Ini → Ini
file_of none = []
file_of (some ini) = ini

-- Every save writes one section at least.
abbrev pub written : Option Ini → Ini → Option Ini
written none [] = none
written old ini = some ini

abbrev pub sections : Option Ini → Option (List Section)
sections none = none
sections (some ini) = some (map as_section ini)

abbrev pub setup_of : World → Setup
setup_of w = record { ini = contents w.store.saved; saved = file_of w.store.saved; snips = w.snips }

-- `status` and `recorded` are the exit status and the trace of `rr record`, `queue` the opportunities
-- that the threads find in a trace; the rest is as in a replay of rreplay.
module _ (test_dir : Text) (status : ℤ) (recorded : List Text)
    (queue : List Text → List Opportunity) (piped : Bool) (messages : List (Option Message))
    (wait : Text → ℤ) where
  -- The return value of create_test is not used.
  unfoldable pub create : Bool → Py World (Unit {0})
  unfolding create_test
  create force w =
      let (r, s) = create_test test_dir force status recorded w.store in
      elim r [
        | raised e ↦ (raised e, record w { store = s })
        | ok l ↦ (ok tt, record w { store = s })
      ]

  identify_in : Option (List Text) → Py World (Unit {0})
  unfolding identify_opportunities
  identify_in none w = (raised io_error, w)
  identify_in (some lines) w =
      let (r, s) = identify_opportunities test_dir 5 lines (queue lines) (setup_of w) in
      (
        r,
        record w {
          store = record w.store { saved = written w.store.saved s.saved };
          snips = s.snips;
        },
      )

  unfoldable pub identify : Py World (Unit {0})
  unfolding identify_in
  identify w = if w.store.is_there then identify_in w.store.trace w else (ok tt, w)

  -- A test that is not there is an exit with status 1. No exception is caught.
  unfoldable pub call_replay : Py World Ending
  unfolding replay cleanup
  call_replay w =
      let clean = (cleanup w.session).1 in
      let (r, t) = replay piped (sections w.store.saved) messages wait clean in
      if w.store.is_there
      then (then_try r (λ u. ok (exits 0)), record w { session = t })
      else (ok (exits 1), record w { session = clean })

  -- create_test, identify_opportunities, and call_replay unless -i is given.
  unfoldable pub main : Bool → Bool → Py World Ending
  main force identify_only = do
    create force
    identify
    if identify_only then return (exits 0) else call_replay
