-- ===== src/Inject/Dispatch.antt =====
-- src/inject.py: handle_syscall, handle_socketcall, debug_handle_syscall
pub mod Laws
use crash_simulator.Base.{
  ℕ, Bool, true, false, Option, none, some, List, [], ◌∷◌, ℤ, pos, negsuc, eq_ℤ, ◌==◌, ◌&&◌, ◌||◌,
  if◌then◌else◌, drop,
}
use crash_simulator.Py.{
  Text, text, same, Py, Result, ok, raised, Error, key_error, not_implemented, ◌>>=◌, ◌>>◌, skip,
  raise, when,
}
use crash_simulator.Syscall.{Syscall}
use crash_simulator.Inject.Tables.{
  Handler, Forger, Printer, Entry, handlers, forgers, ignore_list, subcall_handlers, debug_printers,
}

-- What the code calls of the syscallreplay package, for a traced process. `replay_delta` is its
-- ReplayDeltaError.
pub record Replayer (W : Type 0) : Type 0 where
  pub peek_ebx : Py W ℤ
  pub validate_subcall : ℤ → Syscall → Py W (Unit {0})
  pub validate_syscall : ℤ → Syscall → Py W (Unit {0})
  pub syscall_name : ℤ → Text  -- syscall_dict.SYSCALLS[id]
  pub run_handler : Handler → ℤ → Syscall → Py W (Unit {0})
  pub run_forger : Forger → Py W (Unit {0})
  pub run_printer : Printer → ℤ → Syscall → Py W (Unit {0})
  pub is_delta : Error → Bool

-- table[id], for a table whose keys are ids
unfoldable pub by_id : {A : Type 0} → ℤ → List (ℕ × A) → Option A
by_id id [] = none
by_id id ((k, a) ∷ t) = let rest = by_id id t in if eq_ℤ id (pos k) then some a else rest

-- id in l
unfoldable pub in_ids : ℤ → List ℕ → Bool
in_ids id [] = false
in_ids id (k ∷ l) = eq_ℤ id (pos k) || in_ids id l

unfoldable pub by_name : Text → List (Text × Handler) → Option Handler
by_name name [] = none
by_name name ((k, h) ∷ t) = let rest = by_name name t in if same name k then some h else rest

unfoldable pub same_direction : Bool → Bool → Bool
same_direction true b = b
same_direction false true = false
same_direction false false = true

-- handlers[(id, entering)]
unfoldable pub handler_of : ℤ → Bool → List Entry → Option Handler
unfolding same_direction
handler_of id entering [] = none
handler_of id entering (e ∷ t) =
    let rest = handler_of id entering t in
    if eq_ℤ id (pos e.id) && same_direction entering e.entering then some e.handler else rest

-- The loop that sets `found`: some key has this id, for either direction.
unfoldable pub found : ℤ → List Entry → Bool
found id [] = false
found id (e ∷ t) = eq_ℤ id (pos e.id) || found id t

-- except KeyError: raise NotImplementedError
unfoldable pub rename_key_error : Result (Unit {0}) → Result (Unit {0})
rename_key_error (raised key_error) = raised not_implemented
rename_key_error r = r

unfoldable pub no_key_error : {W : Type 0} → Py W (Unit {0}) → Py W (Unit {0})
unfolding rename_key_error
no_key_error m s = let (r, s') = m s in (rename_key_error r, s')

module _ {W : Type 0} (r : Replayer W) where
  -- The call of what a dict lookup found; a missing key is a KeyError.
  unfoldable pub call_found : Option Handler → ℤ → Syscall → Py W (Unit {0})
  call_found none id c = raise key_error
  call_found (some h) id c = r.run_handler h id c

  unfoldable pub subcall_of : Text → Bool → Option Handler
  unfolding by_name subcall_handlers
  subcall_of name true = by_name name subcall_handlers
  subcall_of name false = none

  unfoldable pub handle_socketcall : ℤ → Syscall → Bool → Py W (Unit {0})
  unfolding no_key_error call_found subcall_of
  handle_socketcall id c entering = do
    subcall ← r.peek_ebx
    r.validate_subcall subcall c
    no_key_error (call_found (subcall_of c.name entering) id c)

  -- The part behind the forgers: validation, the ignored calls, and the handler.
  unfoldable pub handle_traced : ℤ → Syscall → Bool → Py W (Unit {0})
  unfolding in_ids ignore_list found handlers handler_of call_found
  handle_traced id c entering = do
    r.validate_syscall id c
    if in_ids id ignore_list
        then skip
        else (if found id handlers
            then call_found (handler_of id entering handlers) id c
            else raise not_implemented)

  unfoldable pub handle_syscall : ℤ → Syscall → Bool → Py W (Unit {0})
  unfolding handle_socketcall by_id forgers handle_traced
  handle_syscall id c entering =
      if eq_ℤ id (pos 102) then handle_socketcall id c entering else elim (by_id id forgers) [
        | none ↦ handle_traced id c entering
        | some f ↦
            if same c.name (drop 4 (r.syscall_name id))
            then handle_traced id c entering
            else r.run_forger f
      ]

  abbrev print_delta : Option Printer → ℤ → Syscall → Py W (Unit {0})
  print_delta none id c = skip
  print_delta (some p) id c = r.run_printer p id c

  -- except ReplayDeltaError: print, and raise the exception again
  unfoldable pub reported : ℤ → Syscall → Result (Unit {0}) → Py W (Unit {0})
  unfolding by_id debug_printers
  reported id c (ok u) = skip
  reported id c (raised e) =
      if r.is_delta e then print_delta (by_id id debug_printers) id c >> raise e else raise e

  unfoldable pub debug_handle_syscall : ℤ → Syscall → Bool → Py W (Unit {0})
  unfolding handle_syscall reported
  debug_handle_syscall id c entering s =
      let (result, s') = handle_syscall id c entering s in reported id c result s'
