-- ===== src/Rrdump/Messages.antt =====
-- rrdump.py: write_to_pipe and close_pipe, and what get_message of src/rreplay.py makes of them
use mathlib.Core.List.{append_assoc, append-nil}
use crash_simulator.Base.{
  ◌≡◌, refl, ap, ◌∙◌, ℕ, zero, suc, ◌<◌, false, Option, none, some, List, [], ◌∷◌, ◌++◌, map,
  length, All,
}
use crash_simulator.Py.{Text, ok, raised, value_error, for_each}
use crash_simulator.Replay.Pipe.{get_message}
use crash_simulator.Replay.Pipe.Messages.{has_line, get_message_line}
use crash_simulator.Rrdump.{
  Node, fifo, missing, stale, unset, opened, Pipe, write_to_pipe, close_pipe,
}

-- Before the first write, with something left under the name of the pipe, or nothing.
abbrev pub before : Node → Pipe
before n = record { node = n; proc_pipe = unset; sent = [] }

-- An open pipe that the lines went into.
abbrev pub open_with : List Text → Pipe
open_with l = record { node = fifo; proc_pipe = opened; sent = l }

write_first : (n : Node) (t : Text) → write_to_pipe t (before n) ≡ (ok tt, open_with (t ∷ []))
unfolding write_to_pipe
write_first missing t = refl
write_first stale t = refl
write_first fifo t = refl

write_opened_lem :
    (ts l : List Text) → for_each write_to_pipe ts (open_with l) ≡ (ok tt, open_with (l ++ ts))
unfolding for_each write_to_pipe
write_opened_lem [] l = rw (append-nil l) refl
write_opened_lem (t ∷ ts) l = rw (← append_assoc l (t ∷ []) ts) (write_opened_lem ts (l ++ t ∷ []))

-- Whatever is under the name at first, it is one pipe that all the texts go into, in order, and nothing
-- is raised.
pub sent_in_order :
    (n : Node) (t : Text) (ts : List Text)
    → for_each write_to_pipe (t ∷ ts) (before n) ≡ (ok tt, open_with (t ∷ ts))
unfolding for_each
sent_in_order n t ts = rw (write_first n t) (write_opened_lem ts (t ∷ []))

-- What the reader finds in the pipe.
unfoldable pub stream : List Text → Text
stream [] = []
stream (t ∷ ts) = t ++ stream ts

-- A number of calls of get_message: the messages, and what is left in the pipe.
unfoldable pub messages : ℕ → ℕ → Text → Option (List Text × Text)
messages fuel zero s = some ([], s)
messages fuel (suc n) s = elim (get_message fuel s) [
  | none ↦ none
  | some (m, rest) ↦ elim (messages fuel n rest) [
    | none ↦ none
    | some (ms, left) ↦ some (m ∷ ms, left)
  ]
]

-- A message of rr is a line.
abbrev pub as_line : Text → Text
as_line m = m ++ 10 ∷ []

abbrev pub Fits : ℕ → Text → Type 0
Fits fuel m = (has_line m ≡ false) × (length m < fuel)

messages-stream :
    (fuel : ℕ) (ms : List Text)
    → All (Fits fuel) ms
    → messages fuel (length ms) (stream (map as_line ms)) ≡ some (map as_line ms, [])
unfolding messages stream
messages-stream fuel [] a = refl
messages-stream fuel (m ∷ ms) a =
    rw
      (
        append_assoc m (10 ∷ []) (stream (map as_line ms)),
        messages,
        get_message_line fuel m (stream (map as_line ms)) a.0.0 a.0.1,
        messages-stream fuel ms a.1,
      )
      refl

-- `while not os.path.exists(pipe_name)`, and the node that the reader opens: the first that it finds
-- under the name, as it looks again and again.
unfoldable pub open_pipe : List Node → Option Node
open_pipe [] = none
open_pipe (missing ∷ l) = open_pipe l
open_pipe (stale ∷ l) = some stale
open_pipe (fifo ∷ l) = some fifo

-- What is read of a node: a file that was left there holds its old text, and a pipe what is sent.
abbrev pub text_of : Node → Text → Text → Text
text_of missing old sent = []
text_of stale old sent = old
text_of fifo old sent = sent

-- The calls of get_message from the first on, which opens the pipe.
unfoldable pub receive : ℕ → ℕ → List Node → Text → Text → Option (List Text × Text)
unfolding open_pipe messages
receive fuel n looks old sent = elim (open_pipe looks) [
  | none ↦ none
  | some node ↦ messages fuel n (text_of node old sent)
]

open_pipe-waits :
    (looks : List Node) (n : Node)
    → All (λ l. l ≡ missing) looks
    → open_pipe (looks ++ n ∷ []) ≡ open_pipe (n ∷ [])
unfolding open_pipe
open_pipe-waits [] n a = refl
open_pipe-waits (l ∷ looks) n a = rw (a.0, open_pipe, open_pipe-waits looks n a.1) refl

-- Where the name is free when rrdump starts to write, as cleanup of src/rreplay.py leaves it: however
-- often the reader looks before, it opens the pipe that rrdump makes, and the texts that rrdump writes,
-- where each is a line, are the messages that it gets, one for each call of get_message, in order, with
-- nothing left in the pipe.
pub messages_received :
    (looks : List Node) (old : Text) (fuel : ℕ) (m : Text) (ms : List Text)
    → All (λ l. l ≡ missing) looks
    → All (Fits fuel) (m ∷ ms)
    → let p = (for_each write_to_pipe (map as_line (m ∷ ms)) (before missing)).1 in
      receive fuel (length (m ∷ ms)) (looks ++ p.node ∷ []) old (stream p.sent)
      ≡ some (map as_line (m ∷ ms), [])
unfolding receive
messages_received looks old fuel m ms w a =
    ap (λ r. receive fuel (length (m ∷ ms)) (looks ++ r.1.node ∷ []) old (stream r.1.sent))
      (sent_in_order missing (as_line m) (map as_line ms))
    ∙ rw (receive, open_pipe-waits looks fifo w, open_pipe) (messages-stream fuel (m ∷ ms) a)

-- A file that is there when the reader first looks is opened in place of the pipe: what rrdump writes,
-- into a pipe that it makes under the same name, is not read.
pub stale_hides_messages :
    (fuel n : ℕ) (looks : List Node) (old : Text) (m : Text) (ms : List Text)
    → let p = (for_each write_to_pipe (map as_line (m ∷ ms)) (before stale)).1 in
      receive fuel n (stale ∷ looks) old (stream p.sent) ≡ messages fuel n old
unfolding receive open_pipe
stale_hides_messages fuel n looks old m ms = refl

-- Behind close_pipe every write raises, and the pipe is not made again.
pub closed_for_good :
    (l : List Text) (t : Text)
    → let (r, p) = close_pipe (open_with l) in
      (r ≡ ok tt) × (write_to_pipe t p ≡ (raised value_error, p)) × (p.sent ≡ l)
unfolding close_pipe write_to_pipe
closed_for_good l t = (refl, refl, refl)
