-- ===== src/Tests/Closes.antt =====
-- Runs of src/mutator/interrupted_close.py.
use crash_simulator.Base.{◌≡◌, refl, ◌++◌}
use crash_simulator.Py.{Text, text, ok, name_error}
use crash_simulator.Mutator.Close.{match_line, mutate_line, mutate_trace}

-- A file is opened and closed.
abbrev closed_once : Text
closed_once =
    text "#!a#!\n" ++ text "8 open(\"a\", 0) = 3\n" ++ text "8 close(3) = 0\n" ++ text "8 exit(0)\n"

-- The descriptor of the close only starts with that of the open.
abbrev closed_other : Text
closed_other = text "#!a#!\n" ++ text "8 open(\"a\", 0) = 3\n" ++ text "8 close(30) = 0\n"

-- The place is that of the close line, and so it is for a close of another descriptor, of which the
-- pattern only asks that it starts with the one that the open returned.
matched :
    (match_line closed_once ≡ ok 25)
    × (match_line closed_other ≡ ok 25)
    × (mutate_line closed_once 25
        ≡ text "#!a#!\n"
          ++ text "8 open(\"a\", 0) = 3\n"
          ++ text "8 close(3) = -1 EINTR (Interrupted)\n"
          ++ text "8 exit(0)\n")
unfolding match_line crash_simulator.Py.Regex.search crash_simulator.Mutator.Close.regex text
    crash_simulator.Py.Regex.fits mutate_line crash_simulator.Py.replace
    crash_simulator.Py.starts_with
matched = (refl, refl, refl)
