-- ===== src/Evaluator.antt =====
-- The condition evaluator (internal/engine/evaluator.go). A call returns `Result`, Go's pair of a
-- value and an error. Evaluating a condition changes nothing, so the short-circuit of the loops
-- over `And` and `Or` is a fold of results.
pub mod Logic
pub mod Path
pub mod Operators
use text.Mathlib.Text.{find?}
use Prim.Native.String
use intelligent_workflows.Prelude.{
  ℕ, String, Bool, true, false, not, ◌||◌, List, [], ◌∷◌, Option, none, some, Err, msg, wrap,
  Result, ok, err, ◌==◌, if◌then◌else◌, is_some, split, member,
}
use intelligent_workflows.Value.{
  Value, string, float64, float32, int, int32, int64, uint, uint32, uint64, strings, list, object,
  Items, nil, cons, Fields, get, Go,
}
use intelligent_workflows.Models.Workflow.{
  Condition, condition, Conditions, no_conditions, more_conditions,
}

-- The character '.'
abbrev pub dot : ℕ
dot = b'.'

abbrev not_found : String → Err
not_found name = msg (String.◌++◌ "field not found: " name)

abbrev not_object : String → Err
not_object part = msg (String.◌++◌ "invalid path: " (String.◌++◌ part " is not an object"))

-- The loop of `getFieldValue` over the parts of the path.
unfoldable pub walk : String → List String → Fields → Result Value
walk name [] current = err (not_found name)
walk name (part ∷ []) current = elim (get part current) [
  | none ↦ err (not_found name)
  | some val ↦ ok val
]
walk name (part ∷ next ∷ parts) current = elim (get part current) [
  | none ↦ err (not_found name)
  | some (object m) ↦ walk name (next ∷ parts) m
  | some _ ↦ err (not_object part)
]

unfoldable pub get_field_value : String → Fields → Result Value
unfolding walk split
get_field_value name context = walk name (split dot name) context

unfoldable pub short_and : Result Bool → Result Bool → Result Bool
short_and (err e) rest = err e
short_and (ok false) rest = ok false
short_and (ok true) rest = rest

unfoldable pub short_or : Result Bool → Result Bool → Result Bool
short_or (err e) rest = err e
short_or (ok true) rest = ok true
short_or (ok false) rest = rest

-- `result || e.equals(…)` after the error check of `gte` and `lte`
unfoldable pub or_equal : Result Bool → Bool → Result Bool
or_equal (err e) same = err e
or_equal (ok b) same = ok (b || same)

module _ (go : Go) where
  open go use {sprint, type_name, float_lt, float_of_float32, float_of_int, float_of_uint}

  -- The `float64` is given as its bit pattern; `none` is the second result false.
  unfoldable pub to_float64 : Value → Option ℕ
  to_float64 (float64 x) = some x
  to_float64 (float32 x) = some (float_of_float32 x)
  to_float64 (int x) = some (float_of_int x)
  to_float64 (int32 x) = some (float_of_int x)
  to_float64 (int64 x) = some (float_of_int x)
  to_float64 (uint x) = some (float_of_uint x)
  to_float64 (uint32 x) = some (float_of_uint x)
  to_float64 (uint64 x) = some (float_of_uint x)
  to_float64 _ = none

  unfoldable pub equals : Value → Value → Bool
  equals a b = sprint a == sprint b

  unfoldable pub not_numeric : String → Value → Value → Err
  not_numeric op a b = msg (
      String.◌++◌ "cannot compare non-numeric values: "
        (String.◌++◌ (sprint a) (String.◌++◌ op (sprint b))))

  unfoldable pub greater_than : Value → Value → Result Bool
  unfolding to_float64
  greater_than a b = elim (to_float64 a) [
    | none ↦ err (not_numeric " > " a b)
    | some x ↦ elim (to_float64 b) [
      | none ↦ err (not_numeric " > " a b)
      | some y ↦ ok (float_lt y x)
    ]
  ]

  unfoldable pub less_than : Value → Value → Result Bool
  unfolding to_float64
  less_than a b = elim (to_float64 a) [
    | none ↦ err (not_numeric " < " a b)
    | some x ↦ elim (to_float64 b) [
      | none ↦ err (not_numeric " < " a b)
      | some y ↦ ok (float_lt x y)
    ]
  ]

  -- The loops over []interface{} in `in` and `contains`.
  unfoldable pub any_equal : Value → Items → Bool
  unfolding equals
  any_equal v nil = false
  any_equal v (cons x xs) = equals v x || any_equal v xs

  unfoldable pub equal_any : Items → Value → Bool
  unfolding equals
  equal_any nil v = false
  equal_any (cons x xs) v = equals x v || equal_any xs v

  unfoldable pub is_in : Value → Value → Result Bool
  unfolding any_equal
  is_in value (list items) = ok (any_equal value items)
  is_in value (strings items) = ok (member (sprint value) items)
  is_in value other =
      err (msg (String.◌++◌ "'in' operator requires a list, got " (type_name other)))

  unfoldable pub contains : Value → Value → Result Bool
  unfolding equal_any
  contains (string h) needle = ok (is_some (find? h (sprint needle)))
  contains (list items) needle = ok (equal_any items needle)
  contains (strings items) needle = ok (member (sprint needle) items)
  contains other needle =
      err
        (msg (String.◌++◌ "'contains' operator requires a string or list, got " (type_name other)))

  unfoldable pub matches_regex : Value → Value → Result Bool
  matches_regex value pattern = elim (go.match_string (sprint pattern) (sprint value)) [
    | ok matched ↦ ok matched
    | err e ↦ err (wrap "invalid regex pattern" e)
  ]

  unfoldable pub compare_values : Value → String → Value → Result Bool
  unfolding equals greater_than less_than is_in contains matches_regex or_equal
  compare_values v op c =
      if (op == "eq") || (op == "==")
      then ok (equals v c)
      else if (op == "neq") || (op == "!=")
      then ok (not (equals v c))
      else if (op == "gt") || (op == ">")
      then greater_than v c
      else if (op == "gte") || (op == ">=")
      then or_equal (greater_than v c) (equals v c)
      else if (op == "lt") || (op == "<")
      then less_than v c
      else if (op == "lte") || (op == "<=")
      then or_equal (less_than v c) (equals v c)
      else if op == "in"
      then is_in v c
      else if op == "contains"
      then contains v c
      else if op == "regex"
      then matches_regex v c
      else err (msg (String.◌++◌ "unsupported operator: " op))

  -- The part of `EvaluateCondition` below the two loops.
  unfoldable pub evaluate_single : String → String → Value → Fields → Result Bool
  unfolding get_field_value compare_values
  evaluate_single name op value context = elim (get_field_value name context) [
    | err e ↦ err (wrap "failed to get field value" e)
    | ok v ↦ compare_values v op value
  ]

  -- `and_ors` is the choice by the lengths of `And` and `Or`.
  unfoldable pub and_ors :
      Conditions → Conditions → Result Bool → Result Bool → Result Bool → Result Bool
  and_ors (more_conditions _ _) ors all any single = all
  and_ors no_conditions (more_conditions _ _) all any single = any
  and_ors no_conditions no_conditions all any single = single

  unfoldable mutual
    unfolding and_ors evaluate_single short_and short_or

    pub evaluate : Condition → Fields → Result Bool
    evaluate (condition name op value ands ors) context =
        and_ors ands ors (evaluate_and ands context) (evaluate_or ors context)
          (evaluate_single name op value context)

    -- the loop over `condition.And`
    pub evaluate_and : Conditions → Fields → Result Bool
    evaluate_and no_conditions context = ok true
    evaluate_and (more_conditions c cs) context =
        short_and (evaluate c context) (evaluate_and cs context)

    -- the loop over `condition.Or`
    pub evaluate_or : Conditions → Fields → Result Bool
    evaluate_or no_conditions context = ok false
    evaluate_or (more_conditions c cs) context =
        short_or (evaluate c context) (evaluate_or cs context)

  unfoldable pub evaluate_condition : Option Condition → Fields → Result Bool
  unfolding evaluate
  evaluate_condition none context = ok true
  evaluate_condition (some c) context = evaluate c context
