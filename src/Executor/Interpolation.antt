-- ===== src/Executor/Interpolation.antt =====
-- Reading and interpolating variables (`getContextValue` and `interpolateVariables` of
-- internal/engine/action_executor.go), against the evaluator's reading of field paths.
use Prim.Native.Char.{code}
use intelligent_workflows.Prelude.{
  String, ◌&&◌, List, [], ◌∷◌, Option, none, some, if◌then◌else◌, nat_eq, split, Result, ok, err,
}
use intelligent_workflows.Value.{Value, null, string, object, Fields, empty, field, get}
use intelligent_workflows.Evaluator.{dot}

-- The loop of `getContextValue` over the parts of the path.
unfoldable pub follow : List String → Fields → Value
follow [] current = null
follow (p ∷ []) current = elim (get p current) [ none ↦ null | some v ↦ v ]
follow (p ∷ q ∷ path) current = elim (get p current) [
  | some (object next) ↦ follow (q ∷ path) next
  | _ ↦ null
]

unfoldable pub get_context_value : String → Fields → Value
unfolding split follow
get_context_value path context = follow (split dot path) context

-- What stands before a `}` that is the last character.
unfoldable pub before_brace : String → Option String
before_brace String.[] = none
before_brace (String.◌∷◌ c String.[]) = if nat_eq (code c) 125 then some String.[] else none
before_brace (String.◌∷◌ c (String.◌∷◌ d s)) = elim (before_brace (String.◌∷◌ d s)) [
  | none ↦ none
  | some p ↦ some (String.◌∷◌ c p)
]

-- The name of a variable reference, `${name}`.
unfoldable pub variable_name : String → Option String
unfolding before_brace
variable_name String.[] = none
variable_name (String.◌∷◌ c String.[]) = none
variable_name (String.◌∷◌ c (String.◌∷◌ d s)) =
    if nat_eq (code c) 36 && nat_eq (code d) 123 then before_brace s else none

-- A text that is a reference becomes the value that it names, null where there is none.
abbrev pub interpolate_text : Option String → String → Fields → Value
interpolate_text none text context = string text
interpolate_text (some name) text context = get_context_value name context

unfoldable mutual
  unfolding variable_name

  pub interpolate_variables : Fields → Fields → Fields
  interpolate_variables empty context = empty
  interpolate_variables (field k v rest) context =
      field k (interpolate_value v context) (interpolate_variables rest context)

  pub interpolate_value : Value → Fields → Value
  interpolate_value (string s) context = interpolate_text (variable_name s) s context
  interpolate_value (object m) context = object (interpolate_variables m context)
  interpolate_value v context = v

-- A value, or null where reading it fails.
abbrev pub or_null : Result Value → Value
or_null (ok v) = v
or_null (err e) = null

-- The value under a key after the interpolation.
abbrev pub interpolated : Option Value → Fields → Option Value
interpolated none context = none
interpolated (some v) context = some (interpolate_value v context)
