-- ===== src/Mutator/Close/Found.antt =====
-- The close that src/mutator/interrupted_close.py interrupts
use crash_simulator.Base.{◌≡◌, ℕ, length, false, ◌++◌}
use crash_simulator.Py.{Text, text}
use crash_simulator.Py.Regex.{Class, digit, space}
use crash_simulator.Py.Regex.Matches.{Of, is_none, Matches}

-- The parts of a trace that differ from one to another: the text ahead of the name of a file, and the
-- name; the text from there to an open; its process, arguments, blanks and descriptor; the text from
-- there to a close; its process, further arguments and blanks; and the text behind it.
pub record Pieces : Type 0 where
  pub ahead : Text
  pub name : Text
  pub gap : Text
  pub open_pid : Text
  pub open_blank : Text
  pub open_arguments : Text
  pub open_end : Text
  pub open_value : Text
  pub fd : Text
  pub later : Text
  pub close_pid : Text
  pub close_blank : Text
  pub close_arguments : Text
  pub close_end : Text
  pub close_value : Text
  pub tail : Text

-- One character of the class or more.
abbrev pub Some : Class → Text → Type 0
Some c t = Of c t × (is_none t ≡ false)

abbrev pub WellFormed : Pieces → Type 0
WellFormed p =
    Some digit p.open_pid
    × Some space p.open_blank
    × Some space p.open_end
    × Some space p.open_value
    × Some digit p.fd
    × Some digit p.close_pid
    × Some space p.close_blank
    × Some space p.close_end
    × Some space p.close_value

-- From the start of the trace, with the name between #! and #! and an open of it that returned the
-- descriptor, to the end of a line.
abbrev pub opened : Pieces → Text
opened p =
    p.ahead
    ++ text "#!"
    ++ p.name
    ++ text "#!\n"
    ++ p.gap
    ++ p.open_pid
    ++ p.open_blank
    ++ text "open("
    ++ text "\""
    ++ p.name
    ++ text "\""
    ++ p.open_arguments
    ++ text ")"
    ++ p.open_end
    ++ text "="
    ++ p.open_value
    ++ p.fd
    ++ p.later
    ++ text "\n"

-- A close whose arguments start with the digits of the descriptor, as those of 30 do with 3, a 0 behind a
-- later `) = ` of this line or another, and the rest.
abbrev pub closed : Pieces → Text
closed p =
    p.close_pid
    ++ p.close_blank
    ++ text "close("
    ++ p.fd
    ++ p.close_arguments
    ++ text ")"
    ++ p.close_end
    ++ text "="
    ++ p.close_value
    ++ text "0"
    ++ p.tail

-- The trace is made of the pieces, and the place is that of the close.
abbrev pub ClosesAt : Text → ℕ → Type 0
ClosesAt trace start =
    (p : Pieces) × WellFormed p × (trace ≡ opened p ++ closed p) × (start ≡ length (opened p))
