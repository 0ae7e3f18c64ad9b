-- ===== src/Test/Copy.antt =====
-- src/rrtest.py: rr_copy, on files and directories
pub mod Merged
use crash_simulator.Base.{Bool, true, false, Option, none, some, List, [], ◌∷◌, if◌then◌else◌}
use crash_simulator.Py.{Text, same, Result, ok, raised, os_error, io_error}

mutual
  pub data Tree : Type 0 where
    file : Text → Tree
    dir : Entries → Tree

  -- What os.listdir gives, in its order.
  pub data Entries : Type 0 where
    end : Entries
    entry : Text → Tree → Entries → Entries

-- os.path.join(d, name), of a directory
unfoldable pub at_name : Text → Entries → Option Tree
at_name n end = none
at_name n (entry m t d) = let rest = at_name n d in if same m n then some t else rest

-- What is there is replaced.
unfoldable pub put_name : Text → Tree → Entries → Entries
put_name n t end = entry n t end
put_name n t (entry m u d) =
    let rest = put_name n t d in if same m n then entry m t d else entry m u rest

-- An OSError with errno ENOTDIR, another OSError, or an IOError, which is no OSError.
pub data Failure : Type 0 where
  not_a_directory os_failure io_failure : Failure

-- What a call does to the destination, which is nothing at all at first, a file or a directory.
abbrev pub Copied : Type 0
Copied = Option Failure × Option Tree

-- Opening a directory to write to it fails.
abbrev pub write_at : Text → Text → Option Tree → Entries → Copied
write_at n t (some (dir e)) d = (some io_failure, some (dir d))
write_at n t (some (file u)) d = (none, some (dir (put_name n (file t) d)))
write_at n t none d = (none, some (dir (put_name n (file t) d)))

-- copy2(s_file, d_file): a file goes into what is a directory.
abbrev pub inside : Text → Entries → Copied → Copied
inside n d (f, none) = (f, some (dir d))
inside n d (f, some e) = (f, some (dir (put_name n e d)))

abbrev pub copy_file : Text → Text → Option Tree → Entries → Copied
copy_file n t (some (dir e)) d = inside n d (write_at n t (at_name n e) e)
copy_file n t (some (file u)) d = write_at n t (some (file u)) d
copy_file n t none d = write_at n t none d

-- copytree(s_file, d_file): makedirs makes the directories above, and fails on what is there.
abbrev pub copy_dir : Text → Entries → Option Tree → Entries → Copied
copy_dir n es (some t) d = (some os_failure, some (dir d))
copy_dir n es none d = (none, some (dir (put_name n (dir es) d)))

-- A round of the loop over the items of a directory.
unfoldable pub copy_item : Text → Tree → Option Tree → Copied
unfolding at_name put_name
copy_item n (dir es) none = (none, some (dir (entry n (dir es) end)))
copy_item n (dir es) (some (file u)) = (some not_a_directory, some (file u))
copy_item n (dir es) (some (dir d)) = copy_dir n es (at_name n d) d
copy_item n (file t) none = (some io_failure, none)
copy_item n (file t) (some (file u)) = (some io_failure, some (file u))
copy_item n (file t) (some (dir d)) = copy_file n t (at_name n d) d

unfoldable pub copy_items : Entries → Option Tree → Copied
unfolding copy_item
copy_items end dest = (none, dest)
copy_items (entry n t es) dest =
    let (f, dest') = copy_item n t dest in
    let rest = copy_items es dest' in elim f [ none ↦ rest | some e ↦ (some e, dest') ]

-- The handler of OSError: shutil.copy cannot read a directory.
abbrev pub copied_dir : Copied → Result (Unit {0}) × Option Tree
copied_dir (none, dest) = (ok tt, dest)
copied_dir (some not_a_directory, dest) = (raised io_error, dest)
copied_dir (some os_failure, dest) = (raised os_error, dest)
copied_dir (some io_failure, dest) = (raised io_error, dest)

-- shutil.copy(src, dest), of a file with the name `n`
abbrev pub copied_file : Text → Text → Option Tree → Copied
copied_file n t none = (none, some (file t))
copied_file n t (some (file u)) = (none, some (file t))
copied_file n t (some (dir d)) = write_at n t (at_name n d) d

-- `n` is the last part of the path `src`. copytree lists it, which fails for what is no directory.
unfoldable pub rr_copy : Text → Option Tree → Option Tree → Result (Unit {0}) × Option Tree
unfolding copy_items at_name put_name
rr_copy n none dest = (raised os_error, dest)
rr_copy n (some (file t)) dest = copied_dir (copied_file n t dest)
rr_copy n (some (dir es)) dest = copied_dir (copy_items es dest)
