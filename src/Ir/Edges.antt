-- ===== src/Ir/Edges.antt =====
-- src/orchestra/ir/edges.py
pub mod Conditions
use Prim.Native.Char.{code, Char}
use codename_madagascar.Prelude.{
  String, Bool, true, false, not, Option, none, some, List, [], ◌∷◌, Result, ok, if◌then◌else◌,
  nat_beq, ◌≡◌, refl, Bool-cases, inl, inr, arith,
}
use codename_madagascar.Exceptions.{Exception}
use codename_madagascar.Json.{Value, bool, obj, Fields, get_field, value_eqb, value_ltb}

pub data Operator : Type 0 where
  equals not_equals greater_than less_than is_true is_false : Operator

pub record EdgeCondition : Type 0 where
  pub source_field : String
  pub operator : Operator
  pub value : Value

pub data PayloadPolicy : Type 0 where
  full : PayloadPolicy

pub record EdgeSpec : Type 0 where
  pub edge_id : String
  pub source_node : String
  pub source_output : String
  pub destination_node : String
  pub destination_input : String
  pub payload_policy : PayloadPolicy
  pub condition : Option EdgeCondition

-- Puts a character in front of the first part.
push_char : Char → List String → List String
push_char c [] = String.◌∷◌ c String.[] ∷ []
push_char c (part ∷ parts) = String.◌∷◌ c part ∷ parts

-- `text.split(".")`, which has one part more than `text` has dots.
unfoldable pub split_dots : String → List String
unfolding push_char
split_dots String.[] = String.[] ∷ []
split_dots (String.◌∷◌ c rest) =
    if nat_beq (code c) b'.' then String.[] ∷ split_dots rest else push_char c (split_dots rest)

-- A text is split into at least one part.
pub split_dots-cons :
    (text : String) → (part : String) × (parts : List String) × (split_dots text ≡ part ∷ parts)
unfolding split_dots push_char
split_dots-cons String.[] = (String.[], [], refl)
split_dots-cons (String.◌∷◌ c rest) =
    let (part, parts, split) = split_dots-cons rest in
    elim (Bool-cases (nat_beq (code c) b'.')) [
      | inl dot ↦ (String.[], split_dots rest, ground arith)
      | inr other ↦ (String.◌∷◌ c part, parts, ground arith)
    ]

-- The loop over the parts: `none` where it returns False.
unfoldable pub resolve : List String → Value → Option Value
resolve [] current = some current
resolve (part ∷ parts) (obj fields) = elim (get_field part fields) [
  | none ↦ none
  | some next ↦ resolve parts next
]
resolve (part ∷ parts) _ = none

-- `current is True` and `current is False`
is_bool : Bool → Value → Bool
is_bool true (bool true) = true
is_bool false (bool false) = true
is_bool _ _ = false

unfoldable pub test : Operator → Value → Value → Result Exception Bool
unfolding is_bool
test equals current value = ok (value_eqb current value)
test not_equals current value = ok (not (value_eqb current value))
test greater_than current value = value_ltb value current
test less_than current value = value_ltb current value
test is_true current value = ok (is_bool true current)
test is_false current value = ok (is_bool false current)

unfoldable pub evaluate : EdgeCondition → Fields → Result Exception Bool
evaluate c payload = elim (resolve (split_dots c.source_field) (obj payload)) [
  | none ↦ ok false
  | some current ↦ test c.operator current c.value
]
