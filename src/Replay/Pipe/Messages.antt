-- ===== src/Replay/Pipe/Messages.antt =====
-- When get_message of src/rreplay.py returns.
use mathlib.Core.List.{append_assoc, append-nil}
use crash_simulator.Base.{
  ◌≡◌, refl, ap, ℕ, zero, suc, ◌<◌, ==_iff, Bool, true, false, ◌||◌, none, some, [], ◌∷◌, ◌++◌,
  ◌==◌, if◌then◌else◌, length, is_some, arith, Bool-cases, inl, inr, ◌↔◌,
}
use crash_simulator.Py.{Text}
use crash_simulator.Replay.Pipe.{ends_line, message_of, read_message, get_message}

-- The text has a newline in it.
unfoldable pub has_line : Text → Bool
has_line [] = false
has_line (x ∷ s) = if x == b'\n' then true else has_line s

abbrev pub is_empty : Text → Bool
is_empty [] = true
is_empty (x ∷ s) = false

ends_line-snoc : (y x : ℕ) (s : Text) → ends_line y (s ++ x ∷ []) ≡ (x == b'\n')
unfolding ends_line
ends_line-snoc y x [] = refl
ends_line-snoc y x (z ∷ s) = ends_line-snoc z x s

message_of-snoc :
    (x : ℕ) (buf : Text)
    → message_of (buf ++ x ∷ []) ≡ (if x == b'\n' then some (buf ++ x ∷ []) else none)
unfolding message_of ends_line
message_of-snoc x [] = refl
message_of-snoc x (y ∷ buf) = rw (ends_line-snoc y x buf) refl

-- A round that reads a character.
read_message-cons :
    (fuel : ℕ) (buf : Text) (x : ℕ) (s : Text)
    → read_message (suc fuel) buf (x ∷ s)
      ≡ (if x == b'\n' then some (buf ++ x ∷ [], s) else read_message fuel (buf ++ x ∷ []) s)
unfolding read_message
read_message-cons fuel buf x s = ground (arith, message_of-snoc x buf)

read_message_line :
    (fuel : ℕ) (buf line rest : Text)
    → has_line line ≡ false
    → length line < fuel
    → read_message fuel buf (line ++ b'\n' ∷ rest) ≡ some (buf ++ (line ++ b'\n' ∷ []), rest)
unfolding has_line
read_message_line zero buf line rest h l = absurd (omega arith)
read_message_line (suc f) buf [] rest h l = ground (arith, read_message-cons f buf b'\n' rest)
read_message_line (suc f) buf (x ∷ line) rest h l = ground (
  arith,
  read_message-cons f buf x (line ++ b'\n' ∷ rest),
  read_message_line f (buf ++ x ∷ []) line rest,
  append_assoc buf (x ∷ []) (line ++ b'\n' ∷ []),
)

-- At the end of the pipe, with a part of a line read, no number of rounds is enough.
stuck_round :
    (fuel : ℕ) (x : ℕ) (buf : Text)
    → ends_line x buf ≡ false
    → read_message (suc fuel) (x ∷ buf) [] ≡ read_message fuel (x ∷ buf) []
unfolding read_message message_of
stuck_round fuel x buf h = ground (arith, append-nil buf)

stuck :
    (fuel : ℕ) (x : ℕ) (buf : Text)
    → ends_line x buf ≡ false
    → read_message fuel (x ∷ buf) [] ≡ none
stuck zero x buf h = unfold read_message in refl
stuck (suc fuel) x buf h = rw (stuck_round fuel x buf h) (stuck fuel x buf h)

never :
    (fuel : ℕ) (x : ℕ) (buf s : Text)
    → ends_line x buf ≡ false
    → has_line s ≡ false
    → read_message fuel (x ∷ buf) s ≡ none
unfolding has_line
never fuel x buf [] h n = stuck fuel x buf h
never zero x buf (y ∷ s) h n = unfold read_message in refl
never (suc f) x buf (y ∷ s) h n =
    ground (
      arith,
      read_message-cons f (x ∷ buf) y s,
      ends_line-snoc x y buf,
      never f x (buf ++ y ∷ []) s,
    )

-- The first line of a text that has one.
first_line :
    (s : Text)
    → has_line s ≡ true
    → (line : Text) × (rest : Text) × (has_line line ≡ false) × (s ≡ line ++ b'\n' ∷ rest)
unfolding has_line
first_line [] h = cc
first_line (x ∷ s) h = elim (Bool-cases (x == b'\n')) [
  | inl q ↦ ([], s, refl, rw ((==_iff x b'\n').0 q) refl)
  | inr q ↦
      let (line, rest, n, e) = first_line s (ground arith) in
      (x ∷ line, rest, rw q n, ap (λ k. x ∷ k) e)
]

-- A line that rr has written is read whole, with its newline, and nothing behind it, in as many
-- rounds as it has characters.
pub get_message_line :
    (fuel : ℕ) (line rest : Text)
    → has_line line ≡ false
    → length line < fuel
    → get_message fuel (line ++ b'\n' ∷ rest) ≡ some (line ++ b'\n' ∷ [], rest)
unfolding get_message
get_message_line fuel line rest h l = read_message_line fuel [] line rest h l

returns :
    (s : Text)
    → (is_empty s || has_line s) ≡ true
    → (fuel : ℕ) × (is_some (get_message fuel s) ≡ true)
returns [] h = (1, unfold get_message read_message message_of in refl)
returns (x ∷ s) h =
    let (line, rest, n, e) = first_line (x ∷ s) h in
    (suc (length line), rw (e, get_message_line (suc (length line)) line rest n (omega arith)) refl)

no_return :
    (fuel : ℕ) (x : ℕ) (s : Text) → has_line (x ∷ s) ≡ false → get_message fuel (x ∷ s) ≡ none
unfolding get_message has_line
no_return zero x s h = unfold read_message in refl
no_return (suc f) x s h = ground (arith, read_message-cons f [] x s, never f x [] s)

-- get_message returns, for some number of rounds, exactly if the pipe has a whole line, or ends with
-- nothing in it. Where the pipe ends within a line it goes round for ever.
pub get_message_returns_iff :
    (s : Text)
    → ((fuel : ℕ) × (is_some (get_message fuel s) ≡ true)) ↔ ((is_empty s || has_line s) ≡ true)
get_message_returns_iff s = (only s, returns s)
  where
    only :
        (t : Text)
        → ((fuel : ℕ) × (is_some (get_message fuel t) ≡ true))
        → (is_empty t || has_line t) ≡ true
    only [] r = refl
    only (x ∷ t) (fuel, r) = elim (Bool-cases (has_line (x ∷ t))) [
      | inl q ↦ q
      | inr q ↦ ground (arith, no_return fuel x t q)
    ]
