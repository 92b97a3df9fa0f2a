-- ===== src/Ir/Edges/Conditions.antt =====
-- src/orchestra/ir/edges.py: EdgeCondition.evaluate, against a description of paths and comparisons.
use codename_madagascar.Prelude.{
  String, Bool, true, false, Option, none, some, List, [], ◌∷◌, Result, ok, ◌≡◌, ◌↔◌, ◌∙◌, refl,
  sym, ap, subst, arith,
}
use codename_madagascar.Exceptions.{Exception}
use codename_madagascar.Json.{
  Value, null, bool, num, str, arr, obj, Fields, get_field, value_eqb, value_ltb,
}
use codename_madagascar.Ir.Edges.{
  Operator, equals, not_equals, greater_than, less_than, is_true, is_false, EdgeCondition,
  split_dots, resolve, is_bool, test, evaluate,
}

-- The parts lead from the value through the fields of objects to the found one.
abbrev pub IsAt : List String → Value → Value → Type 0
IsAt [] current found = current ≡ found
IsAt (part ∷ parts) current found =
    (fields : Fields) × (next : Value) × (current ≡ obj fields)
    × (get_field part fields ≡ some next)
    × IsAt parts next found

-- What each operator asks of a field and the value of the condition.
abbrev pub IsMet : Operator → Value → Value → Type 0
IsMet equals current value = value_eqb current value ≡ true
IsMet not_equals current value = value_eqb current value ≡ false
IsMet greater_than current value = value_ltb value current ≡ ok true
IsMet less_than current value = value_ltb current value ≡ ok true
IsMet is_true current value = current ≡ bool true
IsMet is_false current value = current ≡ bool false

some-injective : {a b : Value} → ◌≡◌ {A = Option Value} (some a) (some b) → a ≡ b
some-injective h = cc

obj-injective : {f g : Fields} → obj f ≡ obj g → f ≡ g
obj-injective h = cc

-- One step of the path, where the rest of it is known.
step-IsAt :
    (part : String) (parts : List String) (fields : Fields) (found : Value) (next : Option Value)
    → get_field part fields ≡ next
    → ((v : Value) → (resolve parts v ≡ some found) ↔ IsAt parts v found)
    → (◌≡◌ {A = Option Value} (elim next [ none ↦ none | some v ↦ resolve parts v ]) (some found))
      ↔ IsAt (part ∷ parts) (obj fields) found
step-IsAt part parts fields found none same rest = (
  λ h. absurd cc,
  λ (gs, v, given, present, later). absurd (cc (ap (get_field part) (obj-injective given))),
)
step-IsAt part parts fields found (some v) same rest = (
  λ h. (fields, v, refl, same, (rest v).0 h),
  λ (gs, w, given, present, later).
      let e : v ≡ w =
        some-injective (sym same ∙ ap (get_field part) (obj-injective given) ∙ present) in
      (rest v).1 (subst (λ x. IsAt parts x found) (sym e) later),
)

resolve-IsAt :
    (parts : List String) (current found : Value)
    → (resolve parts current ≡ some found) ↔ IsAt parts current found
unfolding resolve
resolve-IsAt [] current found = (λ h. some-injective h, λ h. ap some h)
resolve-IsAt (part ∷ parts) (obj fields) found =
    step-IsAt part parts fields found (get_field part fields) refl (λ v. resolve-IsAt parts v found)
resolve-IsAt (part ∷ parts) null found = (λ h. absurd cc, λ (fields, next, same, _, _). absurd cc)
resolve-IsAt (part ∷ parts) (bool b) found =
    (λ h. absurd cc, λ (fields, next, same, _, _). absurd cc)
resolve-IsAt (part ∷ parts) (num n d) found =
    (λ h. absurd cc, λ (fields, next, same, _, _). absurd cc)
resolve-IsAt (part ∷ parts) (str s) found =
    (λ h. absurd cc, λ (fields, next, same, _, _). absurd cc)
resolve-IsAt (part ∷ parts) (arr xs) found =
    (λ h. absurd cc, λ (fields, next, same, _, _). absurd cc)

is_bool_iff :
    (b : Bool) (current : Value)
    → (◌≡◌ {A = Result Exception Bool} (ok (is_bool b current)) (ok true)) ↔ (current ≡ bool b)
unfolding is_bool
is_bool_iff true (bool true) = (λ h. refl, λ h. refl)
is_bool_iff true (bool false) = ground arith
is_bool_iff true null = ground arith
is_bool_iff true (num n d) = ground arith
is_bool_iff true (str s) = ground arith
is_bool_iff true (arr xs) = ground arith
is_bool_iff true (obj fs) = ground arith
is_bool_iff false (bool true) = ground arith
is_bool_iff false (bool false) = (λ h. refl, λ h. refl)
is_bool_iff false null = ground arith
is_bool_iff false (num n d) = ground arith
is_bool_iff false (str s) = ground arith
is_bool_iff false (arr xs) = ground arith
is_bool_iff false (obj fs) = ground arith

test-IsMet :
    (operator : Operator) (current value : Value)
    → (test operator current value ≡ ok true) ↔ IsMet operator current value
unfolding test is_bool
test-IsMet equals current value = ground arith
test-IsMet not_equals current value = ground arith
test-IsMet greater_than current value = (λ h. h, λ h. h)
test-IsMet less_than current value = (λ h. h, λ h. h)
test-IsMet is_true current value = is_bool_iff true current
test-IsMet is_false current value = is_bool_iff false current

-- A condition holds exactly where the parts of its path lead through the fields of objects to a value of
-- the payload that meets its operator.
pub evaluate-IsMet :
    (c : EdgeCondition) (payload : Fields)
    → (evaluate c payload ≡ ok true) ↔ (
        (current : Value) × IsAt (split_dots c.source_field) (obj payload) current
        × IsMet c.operator current c.value)
unfolding evaluate
evaluate-IsMet c payload = at (resolve (split_dots c.source_field) (obj payload)) refl
  where
    at :
        (found : Option Value)
        → resolve (split_dots c.source_field) (obj payload) ≡ found
        → (◌≡◌ {A = Result Exception Bool}
            (elim found [ none ↦ ok false | some current ↦ test c.operator current c.value ])
            (ok true))
          ↔ ((current : Value) × IsAt (split_dots c.source_field) (obj payload) current
              × IsMet c.operator current c.value)
    at none same = (
      λ h. absurd cc,
      λ (current, path, met).
          absurd (cc ((resolve-IsAt (split_dots c.source_field) (obj payload) current).1 path)),
    )
    at (some v) same = (
      λ h. (
        v,
        (resolve-IsAt (split_dots c.source_field) (obj payload) v).0 same,
        (test-IsMet c.operator v c.value).0 h,
      ),
      λ (current, path, met).
          let found = (resolve-IsAt (split_dots c.source_field) (obj payload) current).1 path in
          let e : v ≡ current = some-injective (sym same ∙ found) in
          (test-IsMet c.operator v c.value).1 (subst (λ x. IsMet c.operator x c.value) (sym e) met),
    )
