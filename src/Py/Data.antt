-- ===== src/Py/Data.antt =====
-- The values that the parser puts into a system call object.
use crash_simulator.Base.{
  ◌≡◌, refl, ◌↔◌, Bool, true, false, ◌&&◌, ◌||◌, Option, none, some, arith, ℤ, eq_ℤ, eq_ℤ_iff, ap,
}
use crash_simulator.Py.Strings.{Text, same, same_iff, is_in, parse_int}
use crash_simulator.Py.Effects.{Result, ok, raised, type_error, value_error}

mutual
  -- `nil` is None. `obj v` is an object of the parser whose attribute `value` is `v`.
  pub data Value : Type 0 where
    nil : Value
    num : ℤ → Value
    str : Text → Value
    list : Values → Value
    obj : Value → Value

  pub data Values : Type 0 where
    end : Values
    item : Value → Values → Values

unfoldable mutual
  -- v == w
  pub value_eq : Value → Value → Bool
  value_eq nil nil = true
  value_eq (num a) (num b) = eq_ℤ a b
  value_eq (str a) (str b) = same a b
  value_eq (list a) (list b) = values_eq a b
  value_eq (obj a) (obj b) = value_eq a b
  value_eq _ _ = false

  pub values_eq : Values → Values → Bool
  values_eq end end = true
  values_eq (item a r) (item b s) = value_eq a b && values_eq r s
  values_eq _ _ = false

mutual
  unfolding value_eq values_eq

  value_eq_sound : (v w : Value) → value_eq v w ≡ true → v ≡ w
  value_eq_sound nil nil h = refl
  value_eq_sound (num a) (num b) h = ap num ((eq_ℤ_iff a b).0 h)
  value_eq_sound (str a) (str b) h = ap str ((same_iff a b).0 h)
  value_eq_sound (list a) (list b) h = ap list (values_eq_sound a b h)
  value_eq_sound (obj a) (obj b) h = ap obj (value_eq_sound a b h)
  value_eq_sound _ _ h = cc

  values_eq_sound : (r s : Values) → values_eq r s ≡ true → r ≡ s
  values_eq_sound end end h = refl
  values_eq_sound (item a r) (item b s) h = ground (arith, value_eq_sound a b, values_eq_sound r s)
  values_eq_sound _ _ h = cc

mutual
  unfolding value_eq values_eq

  value_eq_refl' : (v : Value) → value_eq v v ≡ true
  value_eq_refl' nil = refl
  value_eq_refl' (num a) = (eq_ℤ_iff a a).1 refl
  value_eq_refl' (str a) = (same_iff a a).1 refl
  value_eq_refl' (list a) = values_eq_refl a
  value_eq_refl' (obj a) = value_eq_refl' a

  values_eq_refl : (r : Values) → values_eq r r ≡ true
  values_eq_refl end = refl
  values_eq_refl (item a r) = ground (arith, value_eq_refl' a, values_eq_refl r)

pub value_eq_refl : (v : Value) → value_eq v v ≡ true
value_eq_refl v = value_eq_refl' v

pub value_eq_iff : (v w : Value) → (value_eq v w ≡ true) ↔ (v ≡ w)
value_eq_iff v w = (value_eq_sound v w, λ p. rw (← p) (value_eq_refl v))

-- x in [v, w, …]
unfoldable pub is_item : Value → Values → Bool
is_item x end = false
is_item x (item v r) = value_eq x v || is_item x r

-- x in v: part of a text, or an item of a list
unfoldable pub contains : Value → Value → Result Bool
unfolding is_item
contains (str t) (str s) = ok (is_in t s)
contains x (list r) = ok (is_item x r)
contains _ _ = raised type_error

or_value_error : Option ℤ → Result ℤ
or_value_error none = raised value_error
or_value_error (some n) = ok n

-- int(v)
unfoldable pub int : Value → Result ℤ
unfolding or_value_error
int (num n) = ok n
int (str s) = or_value_error (parse_int s)
int _ = raised type_error

-- fd == v, for a register that holds None or a number
unfoldable pub register_eq : Option ℤ → Value → Bool
register_eq none nil = true
register_eq (some n) (num m) = eq_ℤ n m
register_eq _ _ = false

-- fd == n
unfoldable pub register_is : Option ℤ → ℤ → Bool
register_is none n = false
register_is (some m) n = eq_ℤ m n
