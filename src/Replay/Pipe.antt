-- ===== src/Replay/Pipe.antt =====
-- src/rreplay.py: get_message
pub mod Messages
use crash_simulator.Base.{
  ℕ, zero, suc, Bool, true, false, Option, none, some, List, [], ◌∷◌, ◌++◌, ◌==◌, if◌then◌else◌,
}
use crash_simulator.Py.{Text}

-- rrdump_pipe.read(1), of a pipe that holds `s` and then ends: the text read, and what is left.
abbrev pub read_one : Text → Text × Text
read_one [] = ([], [])
read_one (x ∷ s) = (x ∷ [], s)

-- buf[-1] == '\n', of a text that is not empty
unfoldable pub ends_line : ℕ → Text → Bool
ends_line x [] = x == b'\n'
ends_line x (y ∷ s) = ends_line y s

-- The two tests of a round: the message to return, if any.
unfoldable pub message_of : Text → Option Text
unfolding ends_line
message_of [] = some []
message_of (x ∷ s) = if ends_line x s then some (x ∷ s) else none

-- `while True`, with the number of rounds as fuel: the message, and what is left in the pipe.
unfoldable pub read_message : ℕ → Text → Text → Option (Text × Text)
unfolding message_of
read_message zero buf s = none
read_message (suc fuel) buf s =
    let (c, rest) = read_one s in
    let more = read_message fuel (buf ++ c) rest in
    elim (message_of (buf ++ c)) [ some m ↦ some (m, rest) | none ↦ more ]

-- get_message, once the pipe is open
unfoldable pub get_message : ℕ → Text → Option (Text × Text)
unfolding read_message
get_message fuel s = read_message fuel [] s
