-- ===== src/Replay/Config/Laws.antt =====
-- The order of the subjects that get_configuration of src/rreplay.py returns.
use crash_simulator.Base.{
  ◌≡◌, refl, ap, subst, true, false, List, [], ◌∷◌, map, ℤ, pos, ◌≤ℤ◌, leb_ℤ, arith, All, All-mono,
  inl, inr, Bool-cases,
}
use crash_simulator.Py.{str, int, Result, ok, raised, Result-cases}
use crash_simulator.Replay.Config.{Subject, keyed, insert, sort_keyed, sort_by_event}
use mathlib.Core.List.{Perm}
use mathlib.Core.List.Perm

abbrev number : Result ℤ → ℤ
number (ok n) = n
number (raised e) = pos 0

-- The event of a subject as a number.
abbrev pub event_number : Subject → ℤ
event_number s = number (int (str s.event))

-- No subject is before one with an earlier event.
abbrev pub SortedByEvent : List Subject → Type 0
SortedByEvent [] = Unit
SortedByEvent (s ∷ l) = All (λ t. event_number s ≤ℤ event_number t) l × SortedByEvent l

abbrev SortedKeys : List (ℤ × Subject) → Type 0
SortedKeys [] = Unit
SortedKeys (x ∷ l) = All (λ y. x.0 ≤ℤ y.0) l × SortedKeys l

abbrev KeyIsEvent : ℤ × Subject → Type 0
KeyIsEvent x = x.0 ≡ event_number x.1

All-insert :
    (P : ℤ × Subject → Type 0) (x : ℤ × Subject) (l : List (ℤ × Subject))
    → P x
    → All P l
    → All P (insert x l)
unfolding insert
All-insert P x [] p a = (p, tt)
All-insert P x (y ∷ l) p a = elim (Bool-cases (leb_ℤ x.0 y.0)) [
  | inl q ↦ rw q (p, a)
  | inr q ↦ rw q (a.0, All-insert P x l p a.1)
]

insert-Sorted : (x : ℤ × Subject) (l : List (ℤ × Subject)) → SortedKeys l → SortedKeys (insert x l)
unfolding insert
insert-Sorted x [] s = (tt, tt)
insert-Sorted x (y ∷ l) s = elim (Bool-cases (leb_ℤ x.0 y.0)) [
  | inl q ↦ rw q (
    (
      first_le x.0 y.0 q,
      All-mono (λ z. y.0 ≤ℤ z.0) (λ z. x.0 ≤ℤ z.0) l
          (λ z h. le_trans x.0 y.0 z.0 (first_le x.0 y.0 q) h) s.0,
    ),
    s,
  )
  | inr q ↦ rw q (All-insert (λ z. y.0 ≤ℤ z.0) x l (first_gt x.0 y.0 q) s.0, insert-Sorted x l s.1)
]
  where
    first_le : (a b : ℤ) → leb_ℤ a b ≡ true → a ≤ℤ b
    first_le a b q = ground arith

    first_gt : (a b : ℤ) → leb_ℤ a b ≡ false → b ≤ℤ a
    first_gt a b q = ground arith

    le_trans : (a b c : ℤ) → a ≤ℤ b → b ≤ℤ c → a ≤ℤ c
    le_trans a b c p q = omega arith

sort_keyed-Sorted : (l : List (ℤ × Subject)) → SortedKeys (sort_keyed l)
unfolding sort_keyed
sort_keyed-Sorted [] = tt
sort_keyed-Sorted (x ∷ l) = insert-Sorted x (sort_keyed l) (sort_keyed-Sorted l)

All-sort_keyed :
    (P : ℤ × Subject → Type 0) (l : List (ℤ × Subject)) → All P l → All P (sort_keyed l)
unfolding sort_keyed
All-sort_keyed P [] a = tt
All-sort_keyed P (x ∷ l) a = All-insert P x (sort_keyed l) a.0 (All-sort_keyed P l a.1)

abbrev subjects : List (ℤ × Subject) → List Subject
subjects l = map (λ x. x.1) l

insert-Perm :
    (x : ℤ × Subject) (l : List (ℤ × Subject)) → Perm (subjects (insert x l)) (x.1 ∷ subjects l)
unfolding insert
insert-Perm x [] = Perm.refl (x.1 ∷ [])
insert-Perm x (y ∷ l) = elim (Bool-cases (leb_ℤ x.0 y.0)) [
  | inl q ↦ rw q (Perm.refl _)
  | inr q ↦ rw q (Perm.trans (Perm.cons y.1 (insert-Perm x l)) (Perm.swap x.1 y.1 (subjects l)))
]

sort_keyed-Perm : (l : List (ℤ × Subject)) → Perm (subjects (sort_keyed l)) (subjects l)
unfolding sort_keyed
sort_keyed-Perm [] = Perm.refl []
sort_keyed-Perm (x ∷ l) =
    Perm.trans (insert-Perm x (sort_keyed l)) (Perm.cons x.1 (sort_keyed-Perm l))

abbrev tag : Subject → ℤ × Subject
tag s = (event_number s, s)

keyed_lem : (l : List Subject) (k : List (ℤ × Subject)) → keyed l ≡ ok k → k ≡ map tag l
unfolding keyed
keyed_lem [] k h = ground arith
keyed_lem (s ∷ l) k h = elim (Result-cases (keyed l)) [
  | inl (e, q) ↦ ground arith
  | inr (k', q) ↦ ground (arith, keyed_lem l k' q)
]

tags-KeyIsEvent : (l : List Subject) → All KeyIsEvent (map tag l)
tags-KeyIsEvent [] = tt
tags-KeyIsEvent (s ∷ l) = (refl, tags-KeyIsEvent l)

subjects-tags : (l : List Subject) → subjects (map tag l) ≡ l
subjects-tags [] = refl
subjects-tags (s ∷ l) = ap (λ m. s ∷ m) (subjects-tags l)

All-subjects :
    (n : ℤ) (l : List (ℤ × Subject))
    → All KeyIsEvent l
    → All (λ y. n ≤ℤ y.0) l
    → All (λ t. n ≤ℤ event_number t) (subjects l)
All-subjects n [] k a = tt
All-subjects n (x ∷ l) k a = (rw (← k.0) a.0, All-subjects n l k.1 a.1)

sorted_subjects :
    (l : List (ℤ × Subject)) → All KeyIsEvent l → SortedKeys l → SortedByEvent (subjects l)
sorted_subjects [] k s = tt
sorted_subjects (x ∷ l) k s = (rw (← k.0) (All-subjects x.0 l k.1 s.0), sorted_subjects l k.1 s.1)

sort_by_event-tags :
    (l m : List Subject) → sort_by_event l ≡ ok m → m ≡ subjects (sort_keyed (map tag l))
unfolding sort_by_event
sort_by_event-tags l m h = elim (Result-cases (keyed l)) [
  | inl (e, q) ↦ ground arith
  | inr (k, q) ↦ rw (← keyed_lem l k q) (ground arith)
]

-- A sort that raises nothing gives the same subjects, and each has an event, as a number, that is not
-- after those of the subjects behind it.
pub sort_by_event_lem : (l m : List Subject) → sort_by_event l ≡ ok m → SortedByEvent m × Perm m l
sort_by_event_lem l m h = rw (sort_by_event-tags l m h) (
  sorted_subjects (sort_keyed (map tag l))
      (All-sort_keyed KeyIsEvent (map tag l) (tags-KeyIsEvent l)) (sort_keyed-Sorted (map tag l)),
  subst (λ k. Perm (subjects (sort_keyed (map tag l))) k) (subjects-tags l)
      (sort_keyed-Perm (map tag l)),
)
