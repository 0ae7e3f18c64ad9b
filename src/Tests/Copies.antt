-- ===== src/Tests/Copies.antt =====
-- A run of rr_copy of src/rrtest.py.
use crash_simulator.Base.{◌≡◌, refl, some}
use crash_simulator.Py.{Text, text, same, ok}
use crash_simulator.Test.Copy.{Entries, file, dir, end, entry, at_name, rr_copy}
use crash_simulator.Test.Copy.Merged.{Room, or_old, rr_copy_merges}

-- A trace of rr, and a directory with another version of it.
abbrev recorded : Entries
recorded =
    entry (text "version") (file (text "85"))
      (entry (text "mmap") (dir (entry (text "0") (file (text "lib")) end)) end)

abbrev old : Entries
old = entry (text "version") (file (text "84")) (entry (text "config") (file (text "")) end)

recorded-Room : Room recorded old
unfolding Room at_name same text
recorded-Room = (tt, refl, (tt, refl, tt))

rr_copy_merges_example :
    (d' : Entries) × (rr_copy (text "latest-trace") (some (dir recorded)) (some (dir old))
      ≡ (ok tt, some (dir d')))
    × ((m : Text) → at_name m d' ≡ or_old (at_name m recorded) (at_name m old))
rr_copy_merges_example = rr_copy_merges (text "latest-trace") recorded old recorded-Room
