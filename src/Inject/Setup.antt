-- ===== src/Inject/Setup.antt =====
-- src/inject.py: consume_configuration, apply_mmap_backing_files and main before the loop
use Prim.Native.Nat.{◌-◌}
use crash_simulator.Base.{
  ◌≡◌, refl, ℕ, ◌+◌, ◌*◌, Bool, true, ◌&&◌, ◌||◌, Option, none, some, List, [], ◌∷◌, if◌then◌else◌,
  ℤ, pos, leb, ◌==◌,
}
use crash_simulator.Py.{
  Text, text, is_blank, rstrip, strip, negate, Value, str, int, Result, ok, raised, value_error,
  then_try,
}
use crash_simulator.Syscall.{Syscall}
use crash_simulator.Inject.Backing.{parse_backing_files}

strip_front : Text → Text
strip_front [] = []
strip_front (c ∷ s) = let rest = strip_front s in if c == b'"' then rest else c ∷ s

all_quotes : Text → Bool
all_quotes [] = true
all_quotes (c ∷ s) = c == b'"' && all_quotes s

strip_back : Text → Text
unfolding all_quotes
strip_back [] = []
strip_back (c ∷ s) = let rest = strip_back s in if all_quotes (c ∷ s) then [] else c ∷ rest

-- s.strip('"')
unfoldable pub strip_quotes : Text → Text
unfolding strip_front strip_back
strip_quotes s = strip_back (strip_front s)

hex_digit : ℕ → Option ℕ
hex_digit c =
    if leb 48 c && leb c 57
    then some (c - 48)
    else if leb 97 c && leb c 102
    then some (c - 87)
    else if leb 65 c && leb c 70
    then some (c - 55)
    else none

hex_digits : ℕ → Text → Option ℕ
unfolding hex_digit
hex_digits n [] = some n
hex_digits n (c ∷ s) = elim (hex_digit c) [ none ↦ none | some d ↦ hex_digits (n * 16 + d) s ]

-- One digit at least.
hex_number : Text → Option ℕ
unfolding hex_digits
hex_number [] = none
hex_number (c ∷ s) = hex_digits 0 (c ∷ s)

-- The prefix 0x or 0X
unprefixed : Text → Text
unprefixed (c ∷ d ∷ s) = if c == b'0' && (d == b'x' || d == b'X') then s else c ∷ d ∷ s
unprefixed s = s

signed_hex : Text → Option ℤ
unfolding hex_number unprefixed negate
signed_hex [] = none
signed_hex (c ∷ s) =
    if c == b'-'
    then elim (hex_number (unprefixed s)) [ none ↦ none | some n ↦ some (negate n) ]
    else elim (hex_number (unprefixed (if c == b'+' then s else c ∷ s))) [
      | none ↦ none
      | some n ↦ some (pos n)
    ]

abbrev or_value_error : Option ℤ → Result ℤ
or_value_error none = raised value_error
or_value_error (some n) = ok n

-- int(s, 16)
unfoldable pub int_of_hex : Text → Result ℤ
unfolding signed_hex
int_of_hex s = or_value_error (signed_hex (strip s))

-- An item of `brks`, as it is in the JSON file.
pub record Brk (A : Type 0) : Type 0 where
  pub start : A
  pub prot : A
  pub flags : A
  pub size : A

unfoldable pub consume_brk : Brk Text → Result (Brk ℤ)
unfolding strip_quotes int_of_hex
consume_brk b = then_try (int_of_hex (strip_quotes b.start)) λ start.
    then_try (int (str (strip_quotes b.prot))) λ prot.
      then_try (int (str (strip_quotes b.flags))) λ flags.
        then_try (int (str (strip_quotes b.size)))
          λ size. ok (record { start = start; prot = prot; flags = flags; size = size })

unfoldable pub consume_brks : List (Brk Text) → Result (List (Brk ℤ))
unfolding consume_brk
consume_brks [] = ok []
consume_brks (b ∷ bs) =
    then_try (consume_brk b) (λ c. then_try (consume_brks bs) (λ cs. ok (c ∷ cs)))

-- The value of mmap_backing_files, if there is one, becomes a dict.
unfoldable pub apply_mmap_backing_files : Option Text → Result (Option (List (Text × Text)))
unfolding parse_backing_files
apply_mmap_backing_files none = ok none
apply_mmap_backing_files (some line) =
    then_try (parse_backing_files line) (λ files. ok (some files))

consume_samples :
    (consume_brk (record {
      start = text "\"0x1f\"";
      prot = text "\"3\"";
      flags = text "34";
      size = text "\"12\"";
    })
      ≡ ok (record { start = pos 31; prot = pos 3; flags = pos 34; size = pos 12 }))
    × (int_of_hex (text "xyz") ≡ raised value_error)
unfolding consume_brk text strip int crash_simulator.Py.parse_int
consume_samples = (refl, refl)

-- The injected state, and what main makes of it before it attaches to the process.
pub record Config : Type 0 where
  pub brks : List (Brk Text)
  pub pid : Value
  pub mmap_backing_files : Option Text
  pub trace_start : Value
  pub trace_end : Value

pub record Prepared : Type 0 where
  pub brks : List (Brk ℤ)
  pub pid : ℤ
  pub mmap_backing_files : Option (List (Text × Text))
  pub syscall_index : ℤ
  pub syscall_index_end : ℤ
  pub syscalls : List Syscall

abbrev mutated : Result (Unit {0}) × List Syscall → Result (List Syscall)
mutated (ok u, syscalls) = ok syscalls
mutated (raised e, syscalls) = raised e

abbrev mutate :
    Option (List Syscall → Result (Unit {0}) × List Syscall) → List Syscall → Result (List Syscall)
mutate none syscalls = ok syscalls
mutate (some mutate_syscalls) syscalls = mutated (mutate_syscalls syscalls)

-- `mutator` is mutate_syscalls of the mutator, if there is one, and `trace` the calls of the parsed trace.
unfoldable pub prepare :
    Config
    → Option (List Syscall → Result (Unit {0}) × List Syscall)
    → List Syscall
    → Result Prepared
unfolding consume_brks apply_mmap_backing_files
prepare c mutator trace = then_try (consume_brks c.brks) λ brks. then_try (int c.pid) λ pid.
    then_try (apply_mmap_backing_files c.mmap_backing_files) λ files.
      then_try (int c.trace_start) λ first. then_try (int c.trace_end) λ last.
        then_try (mutate mutator trace) λ syscalls. ok (record {
          brks = brks;
          pid = pid;
          mmap_backing_files = files;
          syscall_index = first;
          syscall_index_end = last;
          syscalls = syscalls;
        })
