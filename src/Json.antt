-- ===== src/Json.antt =====
-- JSON values as Python holds them after `model_dump(mode="json")`, with Python's comparisons.
-- A number is the fraction `num n d`, that is n / (d + 1): integers and finite floats are compared
-- exactly, as Python does, and a Boolean counts as 0 or 1. NaN and the infinities are left out.
use codename_madagascar.Prelude.Integers.{ℤ, pos, fraction_eqb, fraction_ltb}
use codename_madagascar.Prelude.Sorting.{str_ltb}
use codename_madagascar.Exceptions.{Exception, type_error}
use codename_madagascar.Prelude.{
  ℕ, suc, String, Bool, true, false, ◌&&◌, Option, none, some, ◌==◌, string_eq, Result, ok, err,
  if◌then◌else◌, nat_eq,
}

mutual
  pub data Value : Type 0 where
    null : Value
    bool : Bool → Value
    num : ℤ → ℕ → Value
    str : String → Value
    arr : Items → Value
    obj : Fields → Value

  pub data Fields : Type 0 where
    end : Fields
    field : String → Value → Fields → Fields

  pub data Items : Type 0 where
    nil : Items
    cons : Value → Items → Items

-- `d.get(k)` on an object, whose keys are distinct.
unfoldable pub get_field : String → Fields → Option Value
get_field k end = none
get_field k (field j v fs) = if j == k then some v else get_field k fs

unfoldable pub size_fields : Fields → ℕ
size_fields end = 0
size_fields (field j v fs) = suc (size_fields fs)

-- A value that Python treats as a number, as a fraction.
unfoldable pub as_number : Value → Option (ℤ × ℕ)
as_number (bool true) = some (pos 1, 0)
as_number (bool false) = some (pos 0, 0)
as_number (num n d) = some (n, d)
as_number _ = none

number_eqb : Option (ℤ × ℕ) → Option (ℤ × ℕ) → Bool
number_eqb (some p) (some q) = fraction_eqb p q
number_eqb _ _ = false

-- `a == b`
mutual
  pub value_eqb : Value → Value → Bool
  value_eqb null null = true
  value_eqb null _ = false
  value_eqb (bool b) w = number_eqb (as_number (bool b)) (as_number w)
  value_eqb (num n d) w = number_eqb (some (n, d)) (as_number w)
  value_eqb (str s) (str t) = s == t
  value_eqb (str s) _ = false
  value_eqb (arr xs) (arr ys) = items_eqb xs ys
  value_eqb (arr xs) _ = false
  value_eqb (obj fs) (obj gs) = nat_eq.beq (size_fields fs) (size_fields gs) && fields_eqb fs gs
  value_eqb (obj fs) _ = false

  pub items_eqb : Items → Items → Bool
  items_eqb nil nil = true
  items_eqb nil (cons y ys) = false
  items_eqb (cons x xs) nil = false
  items_eqb (cons x xs) (cons y ys) = value_eqb x y && items_eqb xs ys

  -- Every field of the first is in the second, with an equal value.
  pub fields_eqb : Fields → Fields → Bool
  fields_eqb end gs = true
  fields_eqb (field k v fs) gs = elim (get_field k gs) [
    | none ↦ false
    | some w ↦ value_eqb v w && fields_eqb fs gs
  ]

number_ltb : Option (ℤ × ℕ) → Option (ℤ × ℕ) → Result Exception Bool
number_ltb (some p) (some q) = ok (fraction_ltb p q)
number_ltb _ _ = err type_error

-- `a < b`: numbers, texts and lists are ordered; any other pair raises TypeError. Lists differ at
-- the first pair of items that are not equal.
mutual
  pub value_ltb : Value → Value → Result Exception Bool
  value_ltb null w = err type_error
  value_ltb (bool b) w = number_ltb (as_number (bool b)) (as_number w)
  value_ltb (num n d) w = number_ltb (some (n, d)) (as_number w)
  value_ltb (str s) (str t) = ok (str_ltb s t)
  value_ltb (str s) _ = err type_error
  value_ltb (arr xs) (arr ys) = items_ltb xs ys
  value_ltb (arr xs) _ = err type_error
  value_ltb (obj fs) w = err type_error

  pub items_ltb : Items → Items → Result Exception Bool
  items_ltb xs nil = ok false
  items_ltb nil (cons y ys) = ok true
  items_ltb (cons x xs) (cons y ys) =
      let later = items_ltb xs ys in if value_eqb x y then later else value_ltb x y
