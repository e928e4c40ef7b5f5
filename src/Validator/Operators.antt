-- ===== src/Validator/Operators.antt =====
-- The operators that `validateCondition` (internal/validators/workflow_validator.go) accepts, against
-- `compareValues` (internal/engine/evaluator.go).
use Prim.Native.Char.{Char, code}
use Prim.Native.String
use Prim.Native.String.append
use intelligent_workflows.Prelude.{
  String, ◌≡◌, ◌≢◌, inl, inr, Bool, true, List, [], ◌∷◌, Err, msg, Result, ok, err, arith, member,
  member-cons, error_text, ap, All, subst, sym,
}
use intelligent_workflows.Value.{Value, Go}
use intelligent_workflows.Evaluator.{
  compare_values, greater_than, less_than, or_equal, is_in, contains, matches_regex, not_numeric,
  equals,
}
use intelligent_workflows.Validator.{operators}

-- The error of `compareValues` for an operator that it does not know.
abbrev pub unsupported : String → Err
unsupported op = msg (String.◌++◌ "unsupported operator: " op)

first_differs :
    (c d : Char) (s t u v : String)
    → c ≢ d
    → String.◌++◌ (String.◌∷◌ c s) u ≢ String.◌++◌ (String.◌∷◌ d t) v
first_differs c d s t u v h e = h (cc (append.cons c s u, append.cons d t v, e))

c_not_u : ◌≢◌ {A = Char} "c" "u"
c_not_u e = omega (arith, ap code e)

not_numeric-supported :
    (go : Go) (sign : String) (v c : Value) (op : String) → not_numeric go sign v c ≢ unsupported op
unfolding not_numeric error_text
not_numeric-supported go sign v c op e =
    first_differs "c" "u" "annot compare non-numeric values: " "nsupported operator: " _ op c_not_u
      (ap error_text e)

quote_not_u : ◌≢◌ {A = Char} "'" "u"
quote_not_u e = omega (arith, ap code e)

in_text-supported :
    (t op : String) → msg (String.◌++◌ "'in' operator requires a list, got " t) ≢ unsupported op
unfolding error_text
in_text-supported t op e =
    first_differs "'" "u" "in' operator requires a list, got " "nsupported operator: " t op
      quote_not_u (ap error_text e)

contains_text-supported :
    (t op : String)
    → msg (String.◌++◌ "'contains' operator requires a string or list, got " t) ≢ unsupported op
unfolding error_text
contains_text-supported t op e =
    first_differs "'" "u" "contains' operator requires a string or list, got "
      "nsupported operator: " t op quote_not_u (ap error_text e)

module _ (go : Go) (v c : Value) (op : String) where
  gt-supported : greater_than go v c ≢ err (unsupported op)
  unfolding greater_than
  gt-supported h = ground (arith, not_numeric-supported go " > " v c op)

  lt-supported : less_than go v c ≢ err (unsupported op)
  unfolding less_than
  lt-supported h = ground (arith, not_numeric-supported go " < " v c op)

  or_equal-supported :
      (r : Result Bool) (same : Bool)
      → r ≢ err (unsupported op)
      → or_equal r same ≢ err (unsupported op)
  unfolding or_equal
  or_equal-supported (ok b) same h e = cc
  or_equal-supported (err x) same h e = h e

  in-supported : is_in go v c ≢ err (unsupported op)
  unfolding is_in
  in-supported h = ground (arith, in_text-supported (go.type_name c) op)

  contains-supported : contains go v c ≢ err (unsupported op)
  unfolding contains
  contains-supported h = ground (arith, contains_text-supported (go.type_name v) op)

  matches-supported : matches_regex go v c ≢ err (unsupported op)
  unfolding matches_regex
  matches-supported h = ground arith

All-member :
    (P : String → Type 0) (ops : List String)
    → All P ops
    → (op : String) → member op ops ≡ true
    → P op
All-member P [] h op m = cc
All-member P (o ∷ ops) h op m = elim (member-cons op o ops m) [
  | inl e ↦ subst P (sym e) h.0
  | inr r ↦ All-member P ops h.1 op r
]

operators-supported :
    (go : Go) (v c : Value) → All (λ op. compare_values go v op c ≢ err (unsupported op)) operators
unfolding compare_values
operators-supported go v c =
    let gte =
      or_equal-supported go v c "gte" (greater_than go v c) (equals go v c)
        (gt-supported go v c "gte") in
    let lte =
      or_equal-supported go v c "lte" (less_than go v c) (equals go v c)
        (lt-supported go v c "lte") in
    (
      λ e. cc,
      (
        λ e. cc,
        (
          gt-supported go v c "gt",
          (
            gte,
            (
              lt-supported go v c "lt",
              (
                lte,
                (
                  in-supported go v c "in",
                  (contains-supported go v c "contains", (matches-supported go v c "regex", tt)),
                ),
              ),
            ),
          ),
        ),
      ),
    )

-- For every operator that the validator accepts, and whatever the operands are, the evaluator does
-- not fail with the error for an operator that it does not know.
pub compare_values-supported :
    (go : Go) (v c : Value) (op : String)
    → member op operators ≡ true
    → compare_values go v op c ≢ err (unsupported op)
compare_values-supported go v c op h =
    All-member (λ o. compare_values go v o c ≢ err (unsupported o)) operators
      (operators-supported go v c) op h
