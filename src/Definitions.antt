-- ===== src/Definitions.antt =====
-- src/parse_syscall_definitions.py. The class SyscallManual is of the package sysDef, which is not in
-- the repository: it is an argument.
pub mod Names
pub mod Sorted
use crash_simulator.Base.{
  ℕ, suc, List, [], ◌∷◌, ◌++◌, map, length, Option, none, some, Bool, not, ◌==◌, if◌then◌else◌,
}
use crash_simulator.Py.{Text, text, same, split_on, strip, show_ℕ}

-- `manual name` is SyscallManual(name), which may raise SyscallManualException.
pub record ManualClass (M : Type 0) : Type 0 where
  pub manual : Text → Option M
  pub name_of : M → Text
  pub type_of : M → ℕ
  pub str_of : M → Text
  pub found : ℕ
  pub no_man_entry : ℕ
  pub not_found : ℕ

abbrev first_piece : List Text → Text
first_piece [] = []
first_piece (w ∷ ws) = w

-- line.split(' ', 1)[0].strip()
unfoldable pub syscall_name : Text → Text
unfolding text
syscall_name line = strip (first_piece (split_on (text " ") line))

-- The last name is dropped if it is empty.
unfoldable pub pop_empty : List Text → List Text
pop_empty [] = []
pop_empty ([] ∷ []) = []
pop_empty ((c ∷ s) ∷ []) = (c ∷ s) ∷ []
pop_empty (w ∷ v ∷ ws) = w ∷ pop_empty (v ∷ ws)

-- The names in what the command of `man` writes.
unfoldable pub parse_syscall_names_list : Text → List Text
unfolding syscall_name pop_empty text
parse_syscall_names_list output = pop_empty (map syscall_name (split_on (text "\n") output))

-- The names found, with no manual page, not found in it, and unimplemented.
pub record Lists : Type 0 where
  pub found : List Text
  pub no_man : List Text
  pub not_found : List Text
  pub unimplemented : List Text

module _ {M : Type 0} (c : ManualClass M) where
  -- A name whose manual raises the exception is skipped.
  unfoldable pub get_syscall_definitions_list : List Text → List M
  get_syscall_definitions_list [] = []
  get_syscall_definitions_list (n ∷ ns) =
      let rest = get_syscall_definitions_list ns in
      elim (c.manual n) [ none ↦ rest | some m ↦ m ∷ rest ]

  -- The loop of the first view, which prints the names of what was not found.
  unfoldable pub print_missing : List M → List Text
  print_missing [] = []
  print_missing (sd ∷ sds) =
      let rest = print_missing sds in
      if not (c.type_of sd == c.found) then c.name_of sd ∷ rest else rest

  -- The loop of the second view, which sorts the names and prints what was not found.
  unfoldable pub sort_names : List M → Lists → Lists × List Text
  sort_names [] l = (l, [])
  sort_names (sd ∷ sds) l =
      let name = c.name_of sd in
      if c.type_of sd == c.found
      then sort_names sds (record l { found = l.found ++ name ∷ [] })
      else let (l', printed) =
          if c.type_of sd == c.no_man_entry
          then sort_names sds (record l { no_man = l.no_man ++ name ∷ [] })
          else if c.type_of sd == c.not_found
          then sort_names sds (record l { not_found = l.not_found ++ name ∷ [] })
          else sort_names sds (record l { unimplemented = l.unimplemented ++ name ∷ [] }) in
        (l', c.str_of sd ∷ [] ∷ printed)

  -- The lines that are printed.
  unfoldable pub print_definitions : List M → List Text
  unfolding print_missing sort_names text
  print_definitions sds =
      let (l, reasons) =
        sort_names sds (record { found = []; no_man = []; not_found = []; unimplemented = [] }) in
      text "List of all syscall names for which a definition was not found"
        ∷ text "=============================================================="
        ∷ print_missing sds
      ++ []
        ∷ []
        ∷ text "Syscall names and the reason its definition was not found"
        ∷ text "========================================================="
        ∷ reasons
      ++ []
        ∷ (show_ℕ (length l.found) ++ text " syscall definitions found")
        ∷ text "-----------------------------"
        ∷ l.found
      ++ []
        ∷ []
        ∷ (show_ℕ (length l.no_man) ++ text " syscall definitions with no manual entry")
        ∷ text "-------------------------------------------"
        ∷ l.no_man
      ++ []
        ∷ (show_ℕ (length l.not_found) ++ text " definitions not found in their man entry")
        ∷ text "-------------------------------------------"
        ∷ l.not_found
      ++ []
        ∷ (show_ℕ (length l.unimplemented) ++ text " system calls identified as unimplemented")
        ∷ text "-------------------------------------------"
        ∷ l.unimplemented
      ++ [] ∷ [] ∷ []

  -- The list that is pickled.
  unfoldable pub generate_pickle : Text → List M
  unfolding parse_syscall_names_list get_syscall_definitions_list
  generate_pickle output = get_syscall_definitions_list (parse_syscall_names_list output)
