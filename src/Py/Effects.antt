-- ===== src/Py/Effects.antt =====
-- Exceptions, and methods that mutate an object and may raise. What was written before a raise stays
-- written, so the object comes back beside the exception too.
use crash_simulator.Base.{Bool, true, false, List, [], ◌∷◌, ◌≡◌, refl, ◌⊎◌, inl, inr}

pub data Error : Type 0 where
  type_error index_error value_error key_error name_error attribute_error : Error
  not_implemented runtime_error os_error io_error no_option no_section duplicate_section
        interpolation_error :
      Error
  mutator_error mutation_error producer_error : Error

-- except NoOptionError
abbrev pub is_no_option : Error → Bool
is_no_option no_option = true
is_no_option _ = false

pub data Result {ℓ} (A : Type ℓ) : Type ℓ where
  ok : A → Result A
  raised : Error → Result A

pub Result-cases {ℓ} :
    {A : Type ℓ} (r : Result A) → ((e : Error) × (r ≡ raised e)) ⊎ ((a : A) × (r ≡ ok a))
Result-cases (ok a) = inr (a, refl)
Result-cases (raised e) = inl (e, refl)

-- A chain of expressions that may raise.
abbrev pub then_try {ℓ κ} : {A : Type ℓ} {B : Type κ} → Result A → (A → Result B) → Result B
then_try (ok a) f = f a
then_try (raised e) f = raised e

-- A method of a class `S`.
abbrev pub Py : Type 0 → Type 0 → Type 0
Py S A = S → Result A × S

abbrev pub continue : {S A B : Type 0} → Result A → (A → Py S B) → Py S B
continue (ok a) f s = f a s
continue (raised e) f s = (raised e, s)

infixl 5 ◌>>=◌ ◌>>◌
abbrev pub ◌>>=◌ : {S A B : Type 0} → Py S A → (A → Py S B) → Py S B
◌>>=◌ m f s = let (r, s') = m s in continue r f s'

abbrev pub ◌>>◌ : {S A B : Type 0} → Py S A → Py S B → Py S B
m >> n = m >>= λ _. n

module _ {S : Type 0} where
  abbrev pub skip : Py S (Unit {0})
  skip s = (ok tt, s)

  abbrev pub self : Py S S
  self s = (ok s, s)

  abbrev pub put : S → Py S (Unit {0})
  put s' s = (ok tt, s')

  abbrev pub return : {A : Type 0} → A → Py S A
  return a s = (ok a, s)

  abbrev pub lift : {A : Type 0} → Result A → Py S A
  lift r s = (r, s)

  abbrev pub raise : {A : Type 0} → Error → Py S A
  raise e s = (raised e, s)

  -- if test: body
  abbrev pub when : Bool → Py S (Unit {0}) → Py S (Unit {0})
  when true body = body
  when false body = skip

  -- for x in xs: body(x)
  unfoldable pub for_each : {A : Type 0} → (A → Py S (Unit {0})) → List A → Py S (Unit {0})
  for_each body [] = skip
  for_each body (x ∷ xs) = do body x; for_each body xs

-- A method of the object that a field holds.
abbrev pub zoom : {S T A : Type 0} → (S → T) → (S → T → S) → Py T A → Py S A
zoom get set m s = let (r, t) = m (get s) in (r, set s t)
